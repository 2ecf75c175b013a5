-- ===== src/Huffman/BitsIo/Read.antt =====
-- bits-io.c, `bits_io_read_bit`: the bits of a packed file come back in order, and then `EOF`.
use Prim.Native.Nat.{bit_and}
use native.Mathlib.Decide.{ℕ_discrete}
use mathlib.Core.List.{cons≢nil}
use projects_in_c.Base.{
  ℕ, ◌+◌, ◌/◌, ◌^◌, ◌<◌, ◌≡◌, ◌≢◌, refl, List, [], ◌∷◌, ◌++◌, none, some, arith,
}
use projects_in_c.Base.Stdio.{File, fgetc}
use projects_in_c.Huffman.BitsIo.{
  BitsIoFile, all_bits_read, eof_value, mask, shl, load_byte, bits_io_read_bit,
}
use projects_in_c.Huffman.BitsIo.Format.{
  bits_of, bits_left, IsLeft, bits_of-load, bits_left-shift, bits_left-none, unpack, IsPacked,
}

-- The buffer and the rest of the file hold the bits `bs`.
pub record Reading (bs : List ℕ) (r : BitsIoFile) : Type 0 where
  pub packed : IsPacked r.fp.input
  pub left : IsLeft r.byte
  pub holds : bits_left r.byte ++ unpack r.fp.input ≡ bs

abbrev at_input : BitsIoFile → List ℕ → BitsIoFile
at_input r cs = record r { fp = record r.fp { input = cs } }

-- The buffer is empty: a byte is loaded, and its first bit is the result.
read_load :
    (r : BitsIoFile) (c : ℕ) (cs : List ℕ)
    → r.byte ≡ all_bits_read
    → r.fp.input ≡ c ∷ cs
    → c < 254
    → bits_io_read_bit r ≡ (
      some (bit_and (load_byte c) mask / 2 ^ 7),
      record (at_input r cs) { count = r.count + 1; byte = shl (load_byte c) },
    )
unfolding bits_io_read_bit fgetc
read_load r c cs empty e small = ground arith

-- The buffer holds a bit.
read_shift :
    (r : BitsIoFile)
    → r.byte ≢ all_bits_read
    → r.byte ≢ eof_value
    → bits_io_read_bit r ≡ (some (bit_and r.byte mask / 2 ^ 7), record r { byte = shl r.byte })
unfolding bits_io_read_bit
read_shift r ne ne' = ground arith

read_end :
    (r : BitsIoFile) → r.byte ≡ all_bits_read → r.fp.input ≡ [] → bits_io_read_bit r ≡ (none, r)
unfolding bits_io_read_bit fgetc
read_end r empty e = ground arith

buffer_empty : (r : BitsIoFile) → r.byte ≡ all_bits_read → bits_left r.byte ≡ []
buffer_empty r empty = rw empty bits_left-none

first_of_byte :
    (b : ℕ) (bs : List ℕ) (r : BitsIoFile)
    → Reading (b ∷ bs) r
    → r.byte ≡ all_bits_read
    → (cs : List ℕ) → r.fp.input ≡ cs
    → (r' : BitsIoFile) × (bits_io_read_bit r ≡ (some b, r')) × Reading bs r'
first_of_byte b bs r v empty [] e = ground (arith, v.holds, buffer_empty r empty)
first_of_byte b bs r v empty (c ∷ cs) e =
    let packed : IsPacked (c ∷ cs) = rw e at v.packed in
    let (same, still) = bits_of-load c packed.0 in
    let whole : bits_of c ++ unpack cs ≡ b ∷ bs = rw (buffer_empty r empty, e) at v.holds in
    let cut : bit_and (load_byte c) mask / 2 ^ 7 ∷ (bits_left (shl (load_byte c)) ++ unpack cs)
        ≡ b ∷ bs =
      rw same at whole in
    (
      record (at_input r cs) { count = r.count + 1; byte = shl (load_byte c) },
      rw (read_load r c cs empty e packed.0) (ground (arith, cut)),
      record { packed = packed.1; left = still; holds = ground (arith, cut) },
    )

-- A bit that is held is the result, and the others are held afterwards.
pub read_bit_lem :
    (b : ℕ) (bs : List ℕ) (r : BitsIoFile)
    → Reading (b ∷ bs) r
    → (r' : BitsIoFile) × (bits_io_read_bit r ≡ (some b, r')) × Reading bs r'
read_bit_lem b bs r v = elim (ℕ_discrete r.byte all_bits_read) [
  | yes empty ↦ first_of_byte b bs r v empty r.fp.input refl
  | no ne ↦
      let (same, still) = bits_left-shift r.byte v.left ne in
      let cut : bit_and r.byte mask / 2 ^ 7 ∷ (bits_left (shl r.byte) ++ unpack r.fp.input)
          ≡ b ∷ bs =
        rw same at v.holds in
      (
        record r { byte = shl r.byte },
        rw (read_shift r ne (omega (arith, v.left))) (ground (arith, cut)),
        record { packed = v.packed; left = still; holds = ground (arith, cut) },
      )
]

nothing_left : (cs : List ℕ) → IsPacked cs → unpack cs ≡ [] → cs ≡ []
nothing_left [] p e = refl
nothing_left (c ∷ cs) p e =
    let (same, still) = bits_of-load c p.0 in absurd (cons≢nil (rw same at e))

-- With no bit left the result is `EOF`, and the file is as before.
pub read_bit-end : (r : BitsIoFile) → Reading [] r → bits_io_read_bit r ≡ (none, r)
read_bit-end r v = elim (ℕ_discrete r.byte all_bits_read) [
  | yes empty ↦
      read_end r empty (nothing_left r.fp.input v.packed (rw (buffer_empty r empty) at v.holds))
  | no ne ↦
      let (same, still) = bits_left-shift r.byte v.left ne in absurd (cons≢nil (rw same at v.holds))
]

-- A file that has just been opened for reading holds the bits of its bytes.
pub open-Reading :
    (fp : File) (count mode : ℕ)
    → IsPacked fp.input
    → Reading
        (unpack fp.input)
        (record { fp = fp; count = count; mode = mode; byte = all_bits_read })
open-Reading fp count mode packed = record {
  packed = packed;
  left = omega arith;
  holds = rw bits_left-none;
}
