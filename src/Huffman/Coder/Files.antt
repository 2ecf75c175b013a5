-- ===== src/Huffman/Coder/Files.antt =====
-- huffc.c and huffd.c: a file that is compressed and decompressed again.
use projects_in_c.Base.{
  ℕ, ◌+◌, ◌*◌, ◌≤◌, ◌<◌, ◌≡◌, refl, ap, ◌∙◌, List, [], ◌++◌, some, true, false, arith, length,
}
use projects_in_c.Base.Words.{int_sign}
use projects_in_c.Base.Stdio.{File, open_read}
use projects_in_c.Huffman.Tree.{Tree, Frequency, node, internal, tree_size, is_null}
use projects_in_c.Huffman.Pqueue.{Qsort}
use projects_in_c.Huffman.Serial.{tree_deserialize}
use projects_in_c.Huffman.Serial.Write.{wrote, tree_text, put_text_lem, tree_serialize_lem}
use projects_in_c.Huffman.Serial.RoundTrip.{tree_deserialize-tree_serialize}
use projects_in_c.Huffman.Serial.Size.{length-tree_text}
use projects_in_c.Huffman.Tree.Shape.{IsCoding}
use projects_in_c.Huffman.Serial.Nodes.{Fits, IdsDiffer}
use projects_in_c.Huffman.Table.{EncodeTable}
use projects_in_c.Huffman.BitsIo.{
  BitsIoFile, bits_io_open, bits_io_close, bits_io_write_tree, bits_io_read_tree, no_bits_written,
  all_bits_read,
}
use projects_in_c.Huffman.BitsIo.Write.{close_lem, open-Writing, Written}
use projects_in_c.Huffman.BitsIo.Format.{IsPacked, unpack}
use projects_in_c.Huffman.BitsIo.Read.{Reading, open-Reading}
use projects_in_c.Huffman.Coder.{
  encoder_new, encoder_encode, decoder_new, decoder_decode, huffc, huffd,
}
use projects_in_c.Huffman.Coder.Bits.{length-all_bits}
use projects_in_c.Huffman.Coder.RoundTrip.{all_bits, encode_loop_lem, decode_loop_lem, NoneIsEof}
use projects_in_c.Huffman.Coder.Prepare.{CanPack, Prepared, CanPack-Prepared}

deserialize_root :
    (root : Tree) (id : ℕ) (f : Frequency) (l r : Tree) (back : File) (ids : ℕ) (rest : List ℕ)
    → root ≡ node id internal f l r
    → IsCoding root
    → Fits root
    → IdsDiffer root
    → tree_deserialize (record back { input = tree_text root ++ rest }) ids
      ≡ some (some (root, record back { input = rest }), ids + tree_size root)
deserialize_root root id f l r back ids rest e coding fits differ =
    let t : Tree = node id internal f l r in
    let fp : File = record { input = []; output = []; room = length (tree_text t) } in
    let (w, _, _, read) =
      tree_deserialize-tree_serialize id f l r fp back ids rest (rw e at coding) (rw e at fits)
        (rw e at differ) (omega arith) in
    rw e read

module _ (cs : List ℕ) (root : Tree) (etab : EncodeTable) (p : Prepared cs root etab) where
  bits : List ℕ
  bits = all_bits root etab cs p.codes

  -- The encoder writes the tree and the codes, with room enough.
  encode_lem :
      (out : File)
      → length (tree_text root) + length bits < out.room
      → (b : BitsIoFile) × (closed : BitsIoFile) × (encoder_encode (record {
        infile = cs;
        tree = root;
        etab = etab;
        bfile = record { fp = out; count = 0; mode = b'w'; byte = no_bits_written };
      })
          ≡ some (some (length cs), b))
        × (bits_io_close b ≡ (true, closed))
        × Written (out.output ++ tree_text root) bits closed.fp.output
  unfolding encoder_encode bits_io_write_tree bits
  encode_lem out room =
      let fp : File = wrote (tree_text root) out in
      let w : BitsIoFile = record { fp = fp; count = 0; mode = b'w'; byte = no_bits_written } in
      let (b, run, v, some_room) =
        encode_loop_lem root etab cs [] w 0 p.codes (open-Writing fp 0) (omega (arith, room)) in
      let (closed, shut, written) = close_lem b v some_room in
      (
        b,
        closed,
        rw (tree_serialize_lem root out p.coding (omega (arith, room)))
            (run ∙ ap (λ (n : ℕ). some (some n, b)) (omega arith)),
        shut,
        written,
      )

  -- The decoder reads the tree and then the characters.
  decode_lem :
      (body : List ℕ) (dest : File) (ids : ℕ)
      → IsPacked body
      → unpack body ≡ bits
      → NoneIsEof cs
      → length cs ≤ dest.room
      → (restored : File) × (huffd
            (length cs + 1)
            (some (open_read (tree_text root ++ body)))
            dest
            ids
          ≡ some (0, restored))
        × (restored.output ≡ dest.output ++ cs)
  unfolding huffd decoder_new decoder_decode bits_io_open bits_io_read_tree bits
  decode_lem body dest ids packed holds fine room =
      let fp : File = open_read body in
      let r : BitsIoFile = record { fp = fp; count = 0; mode = b'r'; byte = all_bits_read } in
      let reading : Reading (all_bits root etab cs p.codes) r =
        rw holds at (open-Reading fp 0 b'r' packed) in
      let (r', run) =
        decode_loop_lem root etab p.id p.freq p.left p.right p.root_eq p.coding cs [] r p.codes fine
          reading in
      (
        wrote cs dest,
        rw (
          deserialize_root root p.id p.freq p.left p.right (open_read []) ids body p.root_eq
              p.coding p.fits p.differ,
          run,
          put_text_lem cs dest room,
        ),
        refl,
      )

-- A file of bytes other than 255, with two different bytes among them and shorter than 2^31, is
-- compressed into a new file that has room for 36,650 bytes and 509 for each byte of the input; the ids
-- of the nodes stay below 2^31. `huffc` ends with the status 0. When `huffd` is run on the compressed
-- file, with an output file that has room for the input, it ends with the status 0 after one round for
-- each byte and one for the end of the file, and what it writes is the input.
pub huffd-huffc :
    (Q : Qsort) (cs : List ℕ) (out dest : File) (ids ids' : ℕ)
    → CanPack cs
    → 0 < ids
    → ids + 509 ≤ int_sign
    → out.output ≡ []
    → 36650 + 509 * length cs < out.room
    → length cs ≤ dest.room
    → (packed restored : File) × (huffc Q (some cs) out ids ≡ some (0, packed))
      × (huffd (length cs + 1) (some (open_read packed.output)) dest ids' ≡ some (0, restored))
      × (restored.output ≡ dest.output ++ cs)
unfolding huffc encoder_new bits_io_open bits
huffd-huffc Q cs out dest ids ids' can start end new room room' =
    let (root, ids₁, etab, built, made, p) = CanPack-Prepared Q cs ids can start end in
    let (b, closed, run, shut, written) = encode_lem cs root etab p out (
      omega (
        arith,
        room,
        p.few,
        length-tree_text root,
        length-all_bits root etab cs 509 p.codes p.few,
      )) in
    let (restored, back, same) =
      decode_lem cs root etab p written.body dest ids' written.packed written.holds can.fine
        room' in
    let text : closed.fp.output ≡ tree_text root ++ written.body =
      written.output_eq ∙ ap (λ (front : List ℕ). front ++ tree_text root ++ written.body) new in
    let not_null : is_null root ≡ false = ap is_null p.root_eq in
    (closed.fp, restored, rw (built, not_null, made, run, shut), rw text back, same)
