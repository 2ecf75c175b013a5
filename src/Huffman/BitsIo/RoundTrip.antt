-- ===== src/Huffman/BitsIo/RoundTrip.antt =====
-- bits-io.c, whole files: bits written one by one are read back one by one.
use projects_in_c.Base.{
  ℕ, zero, suc, ◌+◌, ◌<◌, ◌≡◌, refl, ap, List, [], ◌∷◌, ◌++◌, Option, none, some, true, length,
  arith, append_assoc, append-nil, ◌>>=◌,
}
use projects_in_c.Base.Stdio.{File}
use projects_in_c.Huffman.BitsIo.{
  BitsIoFile, bits_io_open, bits_io_close, bits_io_read_bit, bits_io_write_bit, no_bits_written,
  all_bits_read,
}
use projects_in_c.Huffman.BitsIo.Write.{Writing, write_bit_lem, close_lem, open-Writing}
use projects_in_c.Huffman.BitsIo.Read.{Reading, read_bit_lem, read_bit-end, open-Reading}

-- A bit each.
abbrev pub AreBits : List ℕ → Type 0
AreBits [] = Unit
AreBits (b ∷ bs) = (b < 2) × AreBits bs

-- The bits are written in order; a fault or an `EOF` is `none`.
unfoldable pub write_bits : List ℕ → BitsIoFile → Option BitsIoFile
write_bits [] w = some w
write_bits (b ∷ bs) w = bits_io_write_bit w b >>= λ (r, w'). r >>= λ _. write_bits bs w'

-- The next `n` results of `bits_io_read_bit`.
unfoldable pub read_bits : ℕ → BitsIoFile → List (Option ℕ)
read_bits zero r = []
read_bits (suc n) r = let (b, r') = bits_io_read_bit r in b ∷ read_bits n r'

-- The results for the bits, and then one `EOF`.
abbrev pub results : List ℕ → List (Option ℕ)
results [] = none ∷ []
results (b ∷ bs) = some b ∷ results bs

write_bits-Writing :
    {front before : List ℕ} (bs : List ℕ) (w : BitsIoFile)
    → Writing front before w
    → AreBits bs
    → length bs < w.fp.room
    → (w' : BitsIoFile) × (write_bits bs w ≡ some w')
      × Writing front (before ++ bs) w'
      × (0 < w'.fp.room)
unfolding write_bits
write_bits-Writing {before} [] w v are room =
    (w, refl, rw (append-nil before) v, omega (arith, room))
write_bits-Writing {before} (b ∷ bs) w v are room =
    let (w₁, e, v₁, left, input) = write_bit_lem w v b are.0 (omega arith) in
    let (w₂, run, v₂, some_room) = write_bits-Writing bs w₁ v₁ are.1 (omega (arith, left)) in
    (w₂, rw e run, rw (append_assoc before (b ∷ []) bs) at v₂, some_room)

suc_add : (n : ℕ) → suc n + 1 ≡ suc (n + 1)
suc_add n = omega arith

read_bits-Reading :
    (bs : List ℕ) (r : BitsIoFile) → Reading bs r → read_bits (length bs + 1) r ≡ results bs
unfolding read_bits
read_bits-Reading [] r v = rw (read_bit-end r v)
read_bits-Reading (b ∷ bs) r v =
    let (r', e, v') = read_bit_lem b bs r v in
    rw (suc_add (length bs), e)
      (ap (λ (os : List (Option ℕ)). some b ∷ os) (read_bits-Reading bs r' v'))

-- Bits are written to a file that has just been opened, behind what stands in it and with room for
-- one byte per bit and one more; the file is closed, and what was added is opened as another file.
-- Nothing fails, reading gives the same bits in the same order, and the next result is `EOF`.
pub read_bits-write_bits :
    (bs : List ℕ) (fp back : File)
    → AreBits bs
    → length bs < fp.room
    → (w w' closed r : BitsIoFile) × (body : List ℕ) × (bits_io_open (some fp) b'w' ≡ some w)
      × (write_bits bs w ≡ some w')
      × (bits_io_close w' ≡ (true, closed))
      × (closed.fp.output ≡ fp.output ++ body)
      × (bits_io_open (some (record back { input = body })) b'r' ≡ some r)
      × (read_bits (length bs + 1) r ≡ results bs)
unfolding bits_io_open
read_bits-write_bits bs fp back are room =
    let w : BitsIoFile = record { fp = fp; count = 0; mode = b'w'; byte = no_bits_written } in
    let (w', run, v, left) = write_bits-Writing bs w (open-Writing fp 0) are room in
    let (closed, shut, written) = close_lem w' v left in
    let file : File = record back { input = written.body } in
    let r : BitsIoFile = record { fp = file; count = 0; mode = b'r'; byte = all_bits_read } in
    let reading : Reading bs r = rw written.holds at (open-Reading file 0 b'r' written.packed) in
    (
      w,
      w',
      closed,
      r,
      written.body,
      refl,
      run,
      shut,
      written.output_eq,
      refl,
      read_bits-Reading bs r reading,
    )
