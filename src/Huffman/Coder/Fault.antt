-- ===== src/Huffman/Coder/Fault.antt =====
-- encoder.c: an input with a byte 255, which `compute_freq` takes for the end and the encoder does not.
use projects_in_c.Base.{
  ℕ, ◌+◌, ◌*◌, ◌≤◌, ◌<◌, ◌≡◌, ◌≢◌, refl, sym, ap, ap₂, ◌∙◌, List, [], ◌∷◌, ◌++◌, none, some, Bool,
  true, false, arith, length, >>=-eq-some,
}
use projects_in_c.Base.Stdio.{File}
use projects_in_c.Base.Words.{int_sign}
use projects_in_c.Huffman.Tree.Shape.{leaf_v-occurs}
use projects_in_c.Huffman.Pqueue.{Qsort}
use projects_in_c.Huffman.Build.Freq.{readable, count, Bytes}
use projects_in_c.Huffman.Build.Correct.{huffman_build_tree-IsTreeOf}
use projects_in_c.Huffman.Build.Numbers.{huffman_build_tree-IsNumbered}
use projects_in_c.Huffman.Build.Absent.{absent-occurs}
use projects_in_c.Huffman.Table.{EncodeTable, table_bit_encode}
use projects_in_c.Huffman.Table.Codes.{table_build-IsTableOf}
use projects_in_c.Huffman.Serial.Write.{wrote, tree_text, tree_serialize_lem, IsCoding-not_null}
use projects_in_c.Huffman.Serial.Size.{length-tree_text}
use projects_in_c.Huffman.BitsIo.{BitsIoFile, bits_io_open, bits_io_write_tree}
use projects_in_c.Huffman.BitsIo.Write.{open-Writing}
use projects_in_c.Huffman.Coder.{encoder_new, encoder_encode, encode_loop, write_code, huffc}
use projects_in_c.Huffman.Coder.Bits.{length-all_bits}
use projects_in_c.Huffman.Coder.Prepare.{AllHaveCodes_of}
use projects_in_c.Huffman.Coder.RoundTrip.{AllHaveCodes, encode_loop_lem, NoneIsEof}

encode-good :
    (etab : EncodeTable) (c : ℕ) (code cs : List ℕ) (w w₁ : BitsIoFile) (n : ℕ)
    → table_bit_encode etab c ≡ some code
    → write_code code w ≡ some (true, w₁)
    → encode_loop etab (c ∷ cs) w n ≡ encode_loop etab cs w₁ (n + 1)
unfolding encode_loop
encode-good etab c code cs w w₁ n entry written = rw (entry, written)

encode-failed :
    (etab : EncodeTable) (c : ℕ) (code cs : List ℕ) (w w₁ : BitsIoFile) (n : ℕ)
    → table_bit_encode etab c ≡ some code
    → write_code code w ≡ some (false, w₁)
    → encode_loop etab (c ∷ cs) w n ≡ some (none, w₁)
unfolding encode_loop
encode-failed etab c code cs w w₁ n entry written = rw (entry, written)

go_behind :
    (etab : EncodeTable) (c : ℕ) (code xs ys : List ℕ) (w w₁ w' : BitsIoFile) (n m : ℕ)
    (good : Bool)
    → table_bit_encode etab c ≡ some code
    → write_code code w ≡ some (good, w₁)
    → encode_loop etab (c ∷ xs) w n ≡ some (some m, w')
    → (encode_loop etab xs w₁ (n + 1) ≡ some (some m, w')
        → encode_loop etab (xs ++ ys) w₁ (n + 1) ≡ encode_loop etab ys w' m)
    → encode_loop etab (c ∷ (xs ++ ys)) w n ≡ encode_loop etab ys w' m
go_behind etab c code xs ys w w₁ w' n m true entry written e rest =
    encode-good etab c code (xs ++ ys) w w₁ n entry written
    ∙ rest (sym (encode-good etab c code xs w w₁ n entry written) ∙ e)
go_behind etab c code xs ys w w₁ w' n m false entry written e rest =
    let stopped = sym (encode-failed etab c code xs w w₁ n entry written) ∙ e in cc

-- The loop goes on behind a text that it has encoded.
encode_loop-append :
    (etab : EncodeTable) (xs ys : List ℕ) (w w' : BitsIoFile) (n m : ℕ)
    → encode_loop etab xs w n ≡ some (some m, w')
    → encode_loop etab (xs ++ ys) w n ≡ encode_loop etab ys w' m
unfolding encode_loop
encode_loop-append etab [] ys w w' n m e =
    let same_count : n ≡ m = cc in
    let same_file : w ≡ w' = cc in
    ap₂ (λ (b : BitsIoFile) (k : ℕ). encode_loop etab ys b k) same_file same_count
encode_loop-append etab (x ∷ xs) ys w w' n m e =
    let (code, entry, r) = >>=-eq-some (table_bit_encode etab x) _ e in
    let ((good, w₁), written, _) = >>=-eq-some (write_code code w) _ r in
    go_behind etab x code xs ys w w₁ w' n m good entry written e
      (encode_loop-append etab xs ys w₁ w' (n + 1) m)

encode_loop-no_code :
    (etab : EncodeTable) (c : ℕ) (cs : List ℕ) (w : BitsIoFile) (n : ℕ)
    → table_bit_encode etab c ≡ none
    → encode_loop etab (c ∷ cs) w n ≡ none
unfolding encode_loop
encode_loop-no_code etab c cs w n h = rw h

readable-front : (front back : List ℕ) → NoneIsEof front → readable (front ++ 255 ∷ back) ≡ front
readable-front [] back h = refl
readable-front (c ∷ cs) back (h, hs) = rw (h, readable-front cs back hs)

count-none : (front : List ℕ) → NoneIsEof front → count 255 front ≡ 0
count-none [] h = refl
count-none (c ∷ cs) (h, hs) = rw h (omega (arith, count-none cs hs))

-- A file of bytes that starts with some bytes other than 255, fewer than 2^31 of them, and then holds
-- a byte 255, cannot be compressed where the counter of ids is positive and at most 2^31 - 509: with room for what comes before that byte (36,650 bytes and 509 for each byte) `huffc`
-- ends in a fault, since the character has no code and the null pointer in the table is followed.
pub huffc-eof_byte :
    (Q : Qsort) (front back : List ℕ) (out : File) (ids : ℕ)
    → Bytes (front ++ 255 ∷ back)
    → front ≢ []
    → NoneIsEof front
    → length front < int_sign
    → 0 < ids
    → ids + 509 ≤ int_sign
    → 36650 + 509 * length front < out.room
    → huffc Q (some (front ++ 255 ∷ back)) out ids ≡ none
unfolding huffc encoder_new bits_io_open encoder_encode bits_io_write_tree
huffc-eof_byte Q front back out ids b some_front fine few_bytes start end room =
    let cs : List ℕ = front ++ 255 ∷ back in
    let read = readable-front front back fine in
    let short : length (readable cs) < int_sign = omega (arith, ap length read, few_bytes) in
    let ne : readable cs ≢ [] = λ e. some_front (sym read ∙ e) in
    let (root, ids', built, t) = huffman_build_tree-IsTreeOf Q cs ids b short ne in
    let numbers = huffman_build_tree-IsNumbered Q cs ids b short root ids' start end ne built in
    let (etab, made, table) = table_build-IsTableOf root t.shape t.below in
    let chars = λ (c : ℕ). t.chars c ∙ ap (count c) read in
    let codes : AllHaveCodes root etab front = AllHaveCodes_of root etab front (λ c h.
      let (code, entry, digits, leads) =
        table.codes c (leaf_v-occurs c root (omega (arith, h, chars c))) in
      record { code = code; entry = entry; digits = digits; leads = leads }) in
    let no_code = table.no_code 255 (
      absent-occurs Q cs ids 255 root ids' b short ne built
        (ap (count 255) read ∙ count-none front fine)) in
    let fp : File = wrote (tree_text root) out in
    let bits = length-all_bits root etab front 509 codes numbers.few in
    let text = length-tree_text root in
    let (w, run, v, left) =
      encode_loop_lem root etab front [] _ 0 codes (open-Writing fp 0)
        (omega (arith, room, numbers.few, bits, text)) in
    rw (
      built,
      IsCoding-not_null root t.shape,
      made,
      tree_serialize_lem root out t.shape (omega (arith, room, numbers.few, text)),
      encode_loop-append etab front (255 ∷ back) _ w 0 (0 + length front) run,
      encode_loop-no_code etab 255 back w (0 + length front) no_code,
    )
