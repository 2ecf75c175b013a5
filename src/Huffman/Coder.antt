-- ===== src/Huffman/Coder.antt =====
-- encoder.c, decoder.c, huffc.c and huffd.c: a file is compressed to the text of its tree and the codes
-- of its characters, and decompressed again. Closing and freeing are modelled where they write.
pub mod Bits
pub mod Prepare
pub mod Files
pub mod Fault
pub mod Decode
pub mod RoundTrip
use projects_in_c.Base.{
  ℕ, zero, suc, ◌+◌, ◌-◌, List, [], ◌∷◌, ◌++◌, Option, none, some, Bool, true, false, ◌==◌,
  if◌then◌else◌, ◌>>=◌,
}
use projects_in_c.Base.Stdio.{File, put_text}
use projects_in_c.Huffman.Tree.{Tree, null, node, internal, leaf, is_null}
use projects_in_c.Huffman.Pqueue.{Qsort}
use projects_in_c.Huffman.Build.{huffman_build_tree}
use projects_in_c.Huffman.Table.{EncodeTable, table_bit_encode, table_build}
use projects_in_c.Huffman.BitsIo.{
  BitsIoFile, bits_io_open, bits_io_close, bits_io_read_bit, bits_io_write_bit, bits_io_write_tree,
  bits_io_read_tree,
}

-- The inner loop of `encoder_encode`, over a code: whether no write was `EOF`.
unfoldable pub write_code : List ℕ → BitsIoFile → Option (Bool × BitsIoFile)
write_code [] w = some (true, w)
write_code (c ∷ cs) w = bits_io_write_bit w (c - b'0') >>= λ (r, w'). elim r [
  | none ↦ some (false, w')
  | some _ ↦ write_code cs w'
]

-- The loop of `encoder_encode` over the input: the number of bytes, or `none` for -1.
unfoldable pub encode_loop : EncodeTable → List ℕ → BitsIoFile → ℕ → Option (Option ℕ × BitsIoFile)
unfolding write_code
encode_loop etab [] w count = some (some count, w)
encode_loop etab (ch ∷ chs) w count = table_bit_encode etab ch >>= λ code.
    write_code code w >>= λ (good, w'). elim good [
      | true ↦ encode_loop etab chs w' (count + 1)
      | false ↦ some (none, w')
    ]

-- `decode_one` from a node on; `none` inside is `EOF`, and a fault is a null tree.
unfoldable pub decode_one : Tree → BitsIoFile → Option (Option ℕ × BitsIoFile)
decode_one null r = none
decode_one (node _ leaf freq _ _) r = some (some freq.c, r)
decode_one (node _ internal _ left right) r =
    let (bit, r') = bits_io_read_bit r in
    let go_left = decode_one left r' in
    let go_right = decode_one right r' in
    elim bit [
      | none ↦ some (none, r')
      | some b ↦
          if b == 1
          then (if is_null left then some (none, r') else go_left)
          else (if is_null right then some (none, r') else go_right)
    ]

-- The loop of `decoder_decode`, with fuel for its rounds: what is written behind `out`. The character
-- 255 is the result -1, which is `EOF`.
unfoldable pub decode_loop : ℕ → Tree → BitsIoFile → List ℕ → Option (List ℕ × BitsIoFile)
decode_loop zero root r out = none
decode_loop (suc fuel) root r out = decode_one root r >>= λ (ch, r'). elim ch [
  | none ↦ some (out, r')
  | some c ↦ if c == 255 then some (out, r') else decode_loop fuel root r' (out ++ c ∷ [])
]

-- What is left to read of the input is `infile`.
pub record Encoder : Type 0 where
  pub infile : List ℕ
  pub tree : Tree
  pub etab : EncodeTable
  pub bfile : BitsIoFile

-- `encoder_new`: the input file and the output file are `none` where `fopen` fails. The encoder, or
-- `none` for `NULL`, and the counter of node ids.
unfoldable pub encoder_new : Qsort → Option (List ℕ) → Option File → ℕ → Option (Option Encoder × ℕ)
encoder_new Q none outfile ids = some (none, ids)
encoder_new Q (some infile) outfile ids = huffman_build_tree Q (some infile) ids >>= λ (tree, ids').
    if is_null tree
    then some (none, ids')
    else (table_build tree >>= λ etab. elim (bits_io_open outfile b'w') [
      | none ↦ some (none, ids')
      | some bfile ↦
          some (some (record { infile = infile; tree = tree; etab = etab; bfile = bfile }), ids')
    ])

-- `encoder_encode`: the number of characters, or `none` for -1.
unfoldable pub encoder_encode : Encoder → Option (Option ℕ × BitsIoFile)
encoder_encode encoder = bits_io_write_tree encoder.bfile encoder.tree >>= λ (r, bfile). elim r [
  | none ↦ some (none, bfile)
  | some _ ↦ encode_loop encoder.etab encoder.infile bfile 0
]

pub record Decoder : Type 0 where
  pub outfp : File
  pub bfile : BitsIoFile
  pub tree : Tree

-- `decoder_new`: the decoder, or `none` for `NULL`, and the counter of node ids.
unfoldable pub decoder_new : Option File → Option File → ℕ → Option (Option Decoder × ℕ)
decoder_new infile outfile ids = elim (bits_io_open infile b'r') [
  | none ↦ some (none, ids)
  | some bfile ↦ elim outfile [
    | none ↦ some (none, ids)
    | some outfp ↦ bits_io_read_tree bfile ids >>= λ (result, ids'). elim result [
      | none ↦ some (none, ids')
      | some (tree, bfile') ↦
          some (some (record { outfp = outfp; bfile = bfile'; tree = tree }), ids')
    ]
  ]
]

-- `decoder_decode`: the characters go to the output file; what `fprintf` reports is not looked at.
unfoldable pub decoder_decode : ℕ → Decoder → Option Decoder
decoder_decode fuel decoder = decode_loop fuel decoder.tree decoder.bfile [] >>= λ (out, bfile).
    some (record decoder { bfile = bfile; outfp = (put_text out decoder.outfp).1 })

-- `main` of huffc.c, given two arguments: the exit status and the output file. The output file is closed
-- in `encoder_free`, whose result does not change the status.
unfoldable pub huffc : Qsort → Option (List ℕ) → File → ℕ → Option (ℕ × File)
huffc Q infile outfile ids = encoder_new Q infile (some outfile) ids >>= λ (result, ids').
    elim result [
      | none ↦ some (1, outfile)
      | some encoder ↦ encoder_encode encoder >>= λ (count, bfile). elim count [
        | none ↦ some (1, bfile.fp)
        | some _ ↦ some (0, (bits_io_close bfile).1.fp)
      ]
    ]

-- `main` of huffd.c, given two arguments, with fuel for the rounds of `decoder_decode`.
unfoldable pub huffd : ℕ → Option File → File → ℕ → Option (ℕ × File)
huffd fuel infile outfile ids = decoder_new infile (some outfile) ids >>= λ (result, ids').
    elim result [
      | none ↦ some (1, outfile)
      | some decoder ↦ decoder_decode fuel decoder >>= λ decoder'. some (0, decoder'.outfp)
    ]
