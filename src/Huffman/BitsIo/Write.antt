-- ===== src/Huffman/BitsIo/Write.antt =====
-- bits-io.c, `bits_io_write_bit` and `bits_io_close`: the bits end up in the file, in order.
use Prim.Native.Nat.{bit_and, bit_or}
use projects_in_c.Base.{
  ℕ, zero, suc, ◌+◌, ◌-◌, ◌*◌, ◌/◌, ◌%◌, ◌^◌, ◌<◌, ◌≤◌, ◌≡◌, refl, sym, List, [], ◌∷◌, ◌++◌, some,
  true, ◌==◌, arith, Bool-cases, inl, inr, append_assoc, append-nil,
}
use projects_in_c.Base.Stdio.{File, fputc}
use projects_in_c.Huffman.BitsIo.{BitsIoFile, no_bits_written, bits_io_write_bit, bits_io_close}
use projects_in_c.Huffman.BitsIo.Format.{
  bits_of, HasRoom, bits_of-write, bits_of-none, unpack, IsPacked, unpack-append, IsPacked-snoc,
}

-- Behind the bytes `front` the file and the buffer hold the bits `bs`.
pub record Writing (front bs : List ℕ) (w : BitsIoFile) : Type 0 where
  pub body : List ℕ
  pub output : w.fp.output ≡ front ++ body
  pub packed : IsPacked body
  pub held : unpack body ++ bits_of w.byte ≡ bs
  pub has_room : HasRoom w.byte
  pub mode : w.mode ≡ b'w'

-- The two outcomes of a write that does not fail.
is_bit : (bit : ℕ) → bit < 2 → (bit_and bit 1 == bit) ≡ true
is_bit zero h = refl
is_bit (suc zero) h = refl
is_bit (suc (suc n)) h = absurd (omega arith)

fputc_fits :
    (c : ℕ) (f : File)
    → 0 < f.room
    → fputc c f ≡ (some c, record f { output = f.output ++ c ∷ []; room = f.room - 1 })
unfolding fputc
fputc_fits c f h = ground arith

module _ {front bs : List ℕ} (w : BitsIoFile) (v : Writing front bs w) where
  -- A bit is written, and the device is at most one byte fuller.
  pub write_bit_lem :
      (bit : ℕ)
      → bit < 2
      → 0 < w.fp.room
      → (w' : BitsIoFile) × (bits_io_write_bit w bit ≡ some (some bit, w'))
        × Writing front (bs ++ bit ∷ []) w'
        × (w.fp.room ≤ w'.fp.room + 1)
        × (w'.fp.input ≡ w.fp.input)
  unfolding bits_io_write_bit
  write_bit_lem bit small room =
      let byte : ℕ = bit_or (w.byte * 2) bit % 256 in
      let (same, below) = bits_of-write bit w.byte v.has_room small in
      elim (Bool-cases (byte / 2 ^ 7 == 0)) [
        | inl full ↦ (
          record {
            fp = record w.fp { output = w.fp.output ++ byte ∷ []; room = w.fp.room - 1 };
            count = w.count + 1;
            mode = w.mode;
            byte = no_bits_written;
          },
          rw (is_bit bit small, full, fputc_fits byte w.fp room) (ground arith),
          record {
            body = v.body ++ byte ∷ [];
            output = rw v.output (append_assoc front v.body (byte ∷ []));
            packed = IsPacked-snoc v.body byte v.packed below;
            held =
                simp (unpack-append, bits_of-none, append-nil) (rw (same, ← append_assoc, v.held));
            has_room = omega arith;
            mode = v.mode;
          },
          omega arith,
          refl,
        )
        | inr more ↦ (
          record w { byte = byte },
          rw (is_bit bit small, more),
          record {
            body = v.body;
            output = v.output;
            packed = v.packed;
            held = rw (same, ← append_assoc, v.held);
            has_room = (ground arith, omega arith);
            mode = v.mode;
          },
          omega arith,
          refl,
        )
      ]

-- What a closed file holds behind `front`: the bits `bs`, packed.
pub record Written (front bs : List ℕ) (output : List ℕ) : Type 0 where
  pub body : List ℕ
  pub output_eq : output ≡ front ++ body
  pub packed : IsPacked body
  pub holds : unpack body ≡ bs

-- Closing succeeds if there is room for one more byte, and the file then holds all the bits.
pub close_lem :
    {front bs : List ℕ} (w : BitsIoFile)
    → Writing front bs w
    → 0 < w.fp.room
    → (w' : BitsIoFile) × (bits_io_close w ≡ (true, w')) × Written front bs w'.fp.output
unfolding bits_io_close
close_lem {front} {bs} w v room = elim (Bool-cases (w.byte == no_bits_written)) [
  | inl empty ↦ (
    w,
    rw (v.mode, empty),
    record {
      body = v.body;
      output_eq = v.output;
      packed = v.packed;
      holds =
          let nothing : bits_of w.byte ≡ [] = ground (arith, bits_of-none) in
          rw (nothing, append-nil) at v.held;
    },
  )
  | inr some_bits ↦ (
    record w {
      fp = record w.fp { output = w.fp.output ++ w.byte ∷ []; room = w.fp.room - 1 };
      count = w.count + 1;
    },
    rw (v.mode, some_bits, fputc_fits w.byte w.fp room) (ground (arith, v.has_room)),
    record {
      body = v.body ++ w.byte ∷ [];
      output_eq = rw v.output (append_assoc front v.body (w.byte ∷ []));
      packed = IsPacked-snoc v.body w.byte v.packed (ground (arith, v.has_room));
      holds = simp (unpack-append, append-nil) v.held;
    },
  )
]

-- A file that has just been opened for writing holds no bit behind what stands in it already.
pub open-Writing :
    (fp : File) (count : ℕ)
    → Writing fp.output [] (record { fp = fp; count = count; mode = b'w'; byte = no_bits_written })
open-Writing fp count = record {
  body = [];
  output = sym (append-nil fp.output);
  packed = tt;
  held = bits_of-none;
  has_room = omega arith;
  mode = refl;
}
