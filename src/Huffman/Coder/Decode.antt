-- ===== src/Huffman/Coder/Decode.antt =====
-- decoder.c, `decode_one`: the bits of a code lead to its character.
use projects_in_c.Base.{
  ℕ, ◌-◌, ◌≡◌, inl, inr, refl, sym, ap, ◌∙◌, List, [], ◌∷◌, ◌++◌, Option, none, some, false, arith,
}
use projects_in_c.Huffman.Tree.{Tree, Frequency, null, node, internal, leaf, is_null}
use projects_in_c.Huffman.Tree.Shape.{IsCoding}
use projects_in_c.Huffman.Build.{huffman_find}
use projects_in_c.Huffman.Table.Codes.{IsCode}
use projects_in_c.Huffman.BitsIo.{BitsIoFile, bits_io_read_bit}
use projects_in_c.Huffman.BitsIo.Read.{Reading, read_bit_lem, read_bit-end}
use projects_in_c.Huffman.Coder.{decode_one}

-- The bits of a code.
abbrev pub code_bits : List ℕ → List ℕ
code_bits [] = []
code_bits (c ∷ cs) = (c - b'0') ∷ code_bits cs

IsCoding-null : (t : Tree) → IsCoding t → is_null t ≡ false
IsCoding-null null h = absurd h
IsCoding-null (node id type f l r) h = refl

find-one :
    (id : ℕ) (f : Frequency) (l r : Tree) (code : List ℕ)
    → is_null l ≡ false
    → huffman_find (node id internal f l r) (b'1' ∷ code) ≡ huffman_find l code
unfolding huffman_find
find-one id f l r code h = rw h

find-zero :
    (id : ℕ) (f : Frequency) (l r : Tree) (code : List ℕ)
    → is_null r ≡ false
    → huffman_find (node id internal f l r) (b'0' ∷ code) ≡ huffman_find r code
unfolding huffman_find
find-zero id f l r code h = rw h

find-none : (id : ℕ) (f : Frequency) (l r : Tree) → huffman_find (node id internal f l r) [] ≡ none
unfolding huffman_find
find-none id f l r = refl

find-leaf : (id : ℕ) (f : Frequency) → huffman_find (node id leaf f null null) [] ≡ some (some f.c)
unfolding huffman_find
find-leaf id f = refl

find-past :
    (id : ℕ) (f : Frequency) (x : ℕ) (xs : List ℕ)
    → huffman_find (node id leaf f null null) (x ∷ xs) ≡ some none
unfolding huffman_find
find-past id f x xs = ground arith

decode-leaf :
    (id : ℕ) (f : Frequency) (r : BitsIoFile)
    → decode_one (node id leaf f null null) r ≡ some (some f.c, r)
unfolding decode_one
decode-leaf id f r = refl

decode-zero :
    (id : ℕ) (f : Frequency) (left right : Tree) (r r' : BitsIoFile)
    → bits_io_read_bit r ≡ (some 0, r')
    → is_null right ≡ false
    → decode_one (node id internal f left right) r ≡ decode_one right r'
unfolding decode_one
decode-zero id f left right r r' e h =
    rw (decode_one, e, h) (ap (λ (o : Option ℕ × BitsIoFile). decode_one right o.1) e)

decode-one :
    (id : ℕ) (f : Frequency) (left right : Tree) (r r' : BitsIoFile)
    → bits_io_read_bit r ≡ (some 1, r')
    → is_null left ≡ false
    → decode_one (node id internal f left right) r ≡ decode_one left r'
unfolding decode_one
decode-one id f left right r r' e h =
    rw (decode_one, e, h) (ap (λ (o : Option ℕ × BitsIoFile). decode_one left o.1) e)

-- With no bit left, an inner node gives `EOF`.
pub decode-end :
    (id : ℕ) (f : Frequency) (left right : Tree) (r : BitsIoFile)
    → Reading [] r
    → decode_one (node id internal f left right) r ≡ some (none, r)
unfolding decode_one
decode-end id f left right r v =
    rw (decode_one, read_bit-end r v)
      (ap (λ (o : Option ℕ × BitsIoFile). some (none, o.1)) (read_bit-end r v))

-- A code that `huffman_find` follows to a character is decoded to it, and the bits behind it stay.
pub decode_one_lem :
    (t : Tree) (code rest : List ℕ) (c : ℕ) (r : BitsIoFile)
    → IsCoding t
    → IsCode code
    → huffman_find t code ≡ some (some c)
    → Reading (code_bits code ++ rest) r
    → (r' : BitsIoFile) × (decode_one t r ≡ some (some c, r')) × Reading rest r'
decode_one_lem null code rest c r coding is_code found v = absurd coding
decode_one_lem (node id leaf f null null) [] rest c r coding is_code found v =
    let same : some (some f.c) ≡ some (some c) = sym (find-leaf id f) ∙ found in
    let eq : f.c ≡ c = cc in (r, decode-leaf id f r ∙ ap (λ (d : ℕ). some (some d, r)) eq, v)
decode_one_lem (node id leaf f null null) (x ∷ xs) rest c r coding is_code found v =
    let bad : some (some c) ≡ some none = sym found ∙ find-past id f x xs in cc
decode_one_lem (node id leaf f null (node _ _ _ _ _)) code rest c r coding is_code found v =
    absurd coding
decode_one_lem (node id leaf f (node _ _ _ _ _) _) code rest c r coding is_code found v =
    absurd coding
decode_one_lem (node id internal f left right) [] rest c r coding is_code found v =
    let bad : some (some c) ≡ none = sym found ∙ find-none id f left right in cc
decode_one_lem (node id internal f left right) (x ∷ xs) rest c r (cl, cr, sum)
      (inl zero_bit, is_code) found v =
    let here : huffman_find right xs ≡ some (some c) =
      sym (find-zero id f left right xs (IsCoding-null right cr)) ∙ (rw zero_bit at found) in
    let v' : Reading (0 ∷ code_bits xs ++ rest) r = rw zero_bit at v in
    let (r₁, e, v₁) = read_bit_lem 0 (code_bits xs ++ rest) r v' in
    let (r₂, run, v₂) = decode_one_lem right xs rest c r₁ cr is_code here v₁ in
    (r₂, decode-zero id f left right r r₁ e (IsCoding-null right cr) ∙ run, v₂)
decode_one_lem (node id internal f left right) (x ∷ xs) rest c r (cl, cr, sum)
      (inr one_bit, is_code) found v =
    let here : huffman_find left xs ≡ some (some c) =
      sym (find-one id f left right xs (IsCoding-null left cl)) ∙ (rw one_bit at found) in
    let v' : Reading (1 ∷ code_bits xs ++ rest) r = rw one_bit at v in
    let (r₁, e, v₁) = read_bit_lem 1 (code_bits xs ++ rest) r v' in
    let (r₂, run, v₂) = decode_one_lem left xs rest c r₁ cl is_code here v₁ in
    (r₂, decode-one id f left right r r₁ e (IsCoding-null left cl) ∙ run, v₂)
