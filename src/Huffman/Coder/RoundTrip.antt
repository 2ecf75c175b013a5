-- ===== src/Huffman/Coder/RoundTrip.antt =====
-- encoder.c and decoder.c: what is encoded is decoded again, with the same tree on both sides.
use projects_in_c.Base.{
  ℕ, suc, ◌+◌, ◌-◌, ◌≤◌, ◌<◌, ◌≡◌, ◌⊎◌, refl, ap, ◌∙◌, List, [], ◌∷◌, ◌++◌, some, true, false, ◌==◌,
  length, length-append, append-nil, append_assoc, arith,
}
use projects_in_c.Base.Stdio.{File}
use projects_in_c.Huffman.Tree.{Tree, Frequency, node, internal}
use projects_in_c.Huffman.Tree.Shape.{IsCoding}
use projects_in_c.Huffman.Build.{huffman_find}
use projects_in_c.Huffman.Table.{EncodeTable, table_bit_encode}
use projects_in_c.Huffman.Table.Codes.{IsCode}
use projects_in_c.Huffman.BitsIo.{
  BitsIoFile, bits_io_open, bits_io_close, no_bits_written, all_bits_read,
}
use projects_in_c.Huffman.BitsIo.Write.{Writing, write_bit_lem, close_lem, open-Writing}
use projects_in_c.Huffman.BitsIo.Read.{Reading, open-Reading}
use projects_in_c.Huffman.Coder.{write_code, encode_loop, decode_one, decode_loop}
use projects_in_c.Huffman.Coder.Decode.{code_bits, decode_one_lem, decode-end}

-- The table and the tree have the same code for `c`.
pub record HasCode (root : Tree) (etab : EncodeTable) (c : ℕ) : Type 0 where
  pub code : List ℕ
  pub entry : table_bit_encode etab c ≡ some code
  pub digits : IsCode code
  pub leads : huffman_find root code ≡ some (some c)

abbrev pub AllHaveCodes : Tree → EncodeTable → List ℕ → Type 0
AllHaveCodes root etab [] = Unit
AllHaveCodes root etab (c ∷ cs) = HasCode root etab c × AllHaveCodes root etab cs

-- The bits of the codes of the characters, in order.
abbrev pub all_bits :
    (root : Tree) (etab : EncodeTable) (cs : List ℕ) → AllHaveCodes root etab cs → List ℕ
all_bits root etab [] h = []
all_bits root etab (c ∷ cs) h = code_bits h.0.code ++ all_bits root etab cs h.1

-- None of the characters is the byte 255.
abbrev pub NoneIsEof : List ℕ → Type 0
NoneIsEof [] = Unit
NoneIsEof (c ∷ cs) = ((c == 255) ≡ false) × NoneIsEof cs

suc_add : (n : ℕ) → suc n + 1 ≡ suc (n + 1)
suc_add n = omega arith

bit-lt : (x : ℕ) → (x ≡ b'0') ⊎ (x ≡ b'1') → x - b'0' < 2
bit-lt x h = ground (arith, h)

write_code_lem :
    {front : List ℕ} (code before : List ℕ) (w : BitsIoFile)
    → IsCode code
    → Writing front before w
    → length (code_bits code) < w.fp.room
    → (w' : BitsIoFile) × (write_code code w ≡ some (true, w'))
      × Writing front (before ++ code_bits code) w'
      × (w.fp.room ≤ w'.fp.room + length (code_bits code))
unfolding write_code
write_code_lem [] before w h v room = (w, refl, rw (append-nil before) v, omega arith)
write_code_lem (c ∷ cs) before w h v room =
    let (w₁, e, v₁, left, input) = write_bit_lem w v (c - b'0') (bit-lt c h.0) (omega arith) in
    let (w₂, run, v₂, left₂) =
      write_code_lem cs (before ++ (c - b'0') ∷ []) w₁ h.1 v₁ (omega (arith, left)) in
    (
      w₂,
      rw e run,
      rw (append_assoc before ((c - b'0') ∷ []) (code_bits cs)) at v₂,
      omega (arith, left, left₂),
    )

module _ (root : Tree) (etab : EncodeTable) where
  pub encode_loop_lem :
      {front : List ℕ} (cs before : List ℕ) (w : BitsIoFile) (count : ℕ)
      (h : AllHaveCodes root etab cs)
      → Writing front before w
      → length (all_bits root etab cs h) < w.fp.room
      → (w' : BitsIoFile) × (encode_loop etab cs w count ≡ some (some (count + length cs), w'))
        × Writing front (before ++ all_bits root etab cs h) w'
        × (0 < w'.fp.room)
  unfolding encode_loop
  encode_loop_lem [] before w count h v room = (
    w,
    ap (λ (n : ℕ). some (some n, w)) (omega arith),
    rw (append-nil before) v,
    omega (arith, room),
  )
  encode_loop_lem (c ∷ cs) before w count h v room =
      let bits : List ℕ = code_bits h.0.code in
      let size = length-append bits (all_bits root etab cs h.1) in
      let (w₁, e, v₁, left) =
        write_code_lem h.0.code before w h.0.digits v (omega (arith, room, size)) in
      let (w₂, run, v₂, left₂) =
        encode_loop_lem cs (before ++ bits) w₁ (count + 1) h.1 v₁
          (omega (arith, room, size, left)) in
      (
        w₂,
        rw (h.0.entry, e) (run ∙ ap (λ (n : ℕ). some (some n, w₂)) (omega arith)),
        rw (append_assoc before bits (all_bits root etab cs h.1)) at v₂,
        left₂,
      )

  decode-stop :
      (id : ℕ) (f : Frequency) (l r : Tree) (out : List ℕ) (b : BitsIoFile)
      → root ≡ node id internal f l r
      → Reading [] b
      → decode_loop 1 root b out ≡ some (out, b)
  unfolding decode_loop
  decode-stop id f l r out b inner v = rw (inner, decode-end id f l r b v)

  decode-step :
      (fuel c : ℕ) (out : List ℕ) (b b' : BitsIoFile)
      → decode_one root b ≡ some (some c, b')
      → (c == 255) ≡ false
      → decode_loop (suc fuel) root b out ≡ decode_loop fuel root b' (out ++ c ∷ [])
  unfolding decode_loop
  decode-step fuel c out b b' e fine = rw (e, fine)

  pub decode_loop_lem :
      (id : ℕ) (f : Frequency) (l r : Tree)
      → root ≡ node id internal f l r
      → IsCoding root
      → (cs out : List ℕ) (b : BitsIoFile) (h : AllHaveCodes root etab cs) → NoneIsEof cs
      → Reading (all_bits root etab cs h) b
      → (b' : BitsIoFile) × (decode_loop (length cs + 1) root b out ≡ some (out ++ cs, b'))
  decode_loop_lem id f l r inner coding [] out b h fine v =
      (b, decode-stop id f l r out b inner v ∙ rw (append-nil out))
  decode_loop_lem id f l r inner coding (c ∷ cs) out b h fine v =
      let (b₁, e, v₁) =
        decode_one_lem root h.0.code (all_bits root etab cs h.1) c b coding h.0.digits h.0.leads
          v in
      let (b₂, run) = decode_loop_lem id f l r inner coding cs (out ++ c ∷ []) b₁ h.1 fine.1 v₁ in
      (
        b₂,
        ap (λ (n : ℕ). decode_loop n root b out) (suc_add (length cs))
            ∙ decode-step (length cs + 1) c out b b₁ e fine.0
            ∙ run
            ∙ ap (λ (o : List ℕ). some (o, b₂)) (append_assoc out (c ∷ []) cs),
      )

-- Characters are encoded into a file that has just been opened, behind what stands in it; the file is
-- closed, and what was added is opened as another file and decoded with the same tree, whose root is an
-- inner node of a tree of codes. When the tree and the table agree on a code for each character, none
-- of them is 255, and the file has more room than there are bits to write, nothing fails: `encode_loop`
-- counts every character, and `decode_loop` gives the characters, in order, in one round for each and
-- one for the end of the file.
pub decode_loop-encode_loop :
    (root : Tree) (etab : EncodeTable) (cs : List ℕ) (h : AllHaveCodes root etab cs) (id : ℕ)
    (f : Frequency) (left right : Tree) (fp back : File)
    → root ≡ node id internal f left right
    → IsCoding root
    → NoneIsEof cs
    → length (all_bits root etab cs h) < fp.room
    → (w w' closed r r' : BitsIoFile) × (body : List ℕ) × (bits_io_open (some fp) b'w' ≡ some w)
      × (encode_loop etab cs w 0 ≡ some (some (length cs), w'))
      × (bits_io_close w' ≡ (true, closed))
      × (closed.fp.output ≡ fp.output ++ body)
      × (bits_io_open (some (record back { input = body })) b'r' ≡ some r)
      × (decode_loop (length cs + 1) root r [] ≡ some (cs, r'))
unfolding bits_io_open
decode_loop-encode_loop root etab cs h id f left right fp back inner coding fine room =
    let w : BitsIoFile = record { fp = fp; count = 0; mode = b'w'; byte = no_bits_written } in
    let (w', run, v, some_room) = encode_loop_lem root etab cs [] w 0 h (open-Writing fp 0) room in
    let (closed, shut, written) = close_lem w' v some_room in
    let file : File = record back { input = written.body } in
    let r : BitsIoFile = record { fp = file; count = 0; mode = b'r'; byte = all_bits_read } in
    let reading : Reading (all_bits root etab cs h) r =
      rw written.holds at (open-Reading file 0 b'r' written.packed) in
    let (r', back_run) =
      decode_loop_lem root etab id f left right inner coding cs [] r h fine reading in
    (
      w,
      w',
      closed,
      r,
      r',
      written.body,
      refl,
      run ∙ ap (λ (n : ℕ). some (some n, w')) (omega arith),
      shut,
      written.output_eq,
      refl,
      back_run,
    )
