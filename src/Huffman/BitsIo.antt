-- ===== src/Huffman/BitsIo.antt =====
-- bits-io.h and bits-io.c: bits in and out of a file, packed into bytes that mark how many of
-- their bits are used. `FILE *` is an open file of the C library; the pointer is never null here.
pub mod Format
pub mod Write
pub mod Read
pub mod RoundTrip
use Prim.Native.Nat.{bit_and, bit_or}
use projects_in_c.Base.{
  ℕ, zero, suc, ◌+◌, ◌*◌, ◌/◌, ◌%◌, ◌^◌, Option, none, some, Bool, true, false, not, ◌&&◌, ltb,
  ◌==◌, if◌then◌else◌, ◌>>=◌,
}
use projects_in_c.Base.Stdio.{File, fgetc, fputc, to_uchar}
use projects_in_c.Huffman.Tree.{Tree, tree_size}
use projects_in_c.Huffman.Serial.{tree_serialize, tree_deserialize}

pub record BitsIoFile : Type 0 where
  pub fp : File
  pub count : ℕ
  pub mode : ℕ
  pub byte : ℕ

abbrev pub no_bits_written : ℕ
no_bits_written = 0b11111110

abbrev pub all_bits_read : ℕ
all_bits_read = 0b10000000

abbrev pub eof_value : ℕ
eof_value = 0b11111111

abbrev pub mask : ℕ
mask = 0b10000000

-- `x << 1`, stored in an `unsigned char`.
abbrev pub shl : ℕ → ℕ
shl x = x * 2 % 256

-- `fopen` has opened the file, or has failed; `mode` is the letter of the mode.
unfoldable pub bits_io_open : Option File → ℕ → Option BitsIoFile
bits_io_open none mode = none
bits_io_open (some fp) mode = some (record {
  fp = fp;
  count = 0;
  mode = mode;
  byte = if mode == b'w' then no_bits_written else all_bits_read;
})

unfoldable pub bits_io_num_bytes : BitsIoFile → ℕ
bits_io_num_bytes bfile = bfile.count

-- The file after the last byte is written, and whether the result is 0 and not `EOF`.
unfoldable pub bits_io_close : BitsIoFile → Bool × BitsIoFile
bits_io_close bfile =
    if bfile.mode == b'w' && not (bfile.byte == no_bits_written)
    then (let (r, fp) = fputc bfile.byte bfile.fp in
        (
          not (to_uchar r == eof_value),
          record bfile { fp = fp; count = bfile.count + 1; byte = to_uchar r },
        ))
    else (true, bfile)

-- The loop of `bits_io_read_bit` over the bits that were not written. Eight rounds are enough for
-- every byte but 255, for which it is not called.
unfoldable pub skip_unwritten : ℕ → ℕ → ℕ → ℕ
skip_unwritten zero shift c = c
skip_unwritten (suc rounds) shift c =
    let rest = skip_unwritten rounds 0 ((c * 2 + shift) % 256) in
    if bit_and c mask == 0 then c else rest

-- The buffer for a byte that has just been read.
unfoldable pub load_byte : ℕ → ℕ
unfolding skip_unwritten
load_byte c = if bit_and c mask == 0 then (c * 2 + 1) % 256 else shl (skip_unwritten 8 1 c)

-- The end of `bits_io_read_bit`: the high bit of the buffer, which is shifted.
unfoldable pub take_bit : BitsIoFile → Option ℕ × BitsIoFile
take_bit bfile = (some (bit_and bfile.byte mask / 2 ^ 7), record bfile { byte = shl bfile.byte })

-- The bit, where `none` is `EOF`, and the file after it.
unfoldable pub bits_io_read_bit : BitsIoFile → Option ℕ × BitsIoFile
unfolding take_bit
bits_io_read_bit bfile =
    if bfile.byte == eof_value
    then (none, bfile)
    else (if bfile.byte == all_bits_read
        then (let (r, fp) = fgetc bfile.fp in
            if to_uchar r == eof_value
            then (none, record bfile { fp = fp })
            else take_bit
                (record bfile { fp = fp; count = bfile.count + 1; byte = load_byte (to_uchar r) }))
        else take_bit bfile)

-- A fault is a failed assertion: the argument is no bit. Otherwise the result, where `none` is
-- `EOF`, and the file after the write.
unfoldable pub bits_io_write_bit : BitsIoFile → ℕ → Option (Option ℕ × BitsIoFile)
bits_io_write_bit bfile bit =
    if not (bit_and bit 1 == bit)
    then none
    else (let byte = bit_or (bfile.byte * 2) bit % 256 in
        if byte / 2 ^ 7 == 0
        then (let (r, fp) = fputc byte bfile.fp in
            if to_uchar r == eof_value
            then some (none, record bfile { fp = fp; count = bfile.count + 1; byte = eof_value })
            else some (
              some bit,
              record bfile { fp = fp; count = bfile.count + 1; byte = no_bits_written },
            ))
        else some (some bit, record bfile { byte = byte }))

-- The number of nodes, or `none` for -1. What `tree_serialize` reports is not looked at; its fault, a
-- null tree, is one here too.
unfoldable pub bits_io_write_tree : BitsIoFile → Tree → Option (Option ℕ × BitsIoFile)
bits_io_write_tree bfile tree =
    if not (bfile.mode == b'w')
    then some (none, bfile)
    else (tree_serialize tree bfile.fp >>= λ (done, fp).
        some (some (tree_size tree), record bfile { fp = fp }))

-- The tree and the file behind it, or `none` for `NULL`, and the counter of node ids.
unfoldable pub bits_io_read_tree : BitsIoFile → ℕ → Option (Option (Tree × BitsIoFile) × ℕ)
bits_io_read_tree bfile ids =
    if not (bfile.mode == b'r')
    then some (none, ids)
    else (tree_deserialize bfile.fp ids >>= λ (result, ids'). elim result [
      | none ↦ some (none, ids')
      | some (tree, fp) ↦ some (some (tree, record bfile { fp = fp }), ids')
    ])
