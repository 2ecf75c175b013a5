-- ===== src/Huffman/Coder/Prepare.antt =====
-- encoder.c, `encoder_new`: what the tree and the table of a file give to the encoder.
use projects_in_c.Base.{
  ℕ, ◌+◌, ◌≤◌, ◌<◌, ◌≡◌, ◌≢◌, refl, sym, ap, ◌∙◌, List, [], ◌∷◌, some, arith, length,
}
use projects_in_c.Base.Words.{int_sign}
use projects_in_c.Huffman.Tree.{Tree, null, node, internal, leaf, Frequency, tree_size}
use projects_in_c.Huffman.Tree.Shape.{IsCoding, leaf_v, leaf_v-occurs}
use projects_in_c.Huffman.Pqueue.{Qsort}
use projects_in_c.Huffman.Build.{huffman_build_tree}
use projects_in_c.Huffman.Build.Freq.{readable, count, Bytes}
use projects_in_c.Huffman.Build.Correct.{huffman_build_tree-IsTreeOf}
use projects_in_c.Huffman.Build.Numbers.{huffman_build_tree-IsNumbered}
use projects_in_c.Huffman.Table.{EncodeTable, table_build}
use projects_in_c.Huffman.Table.Codes.{table_build-IsTableOf}
use projects_in_c.Huffman.Serial.Nodes.{Fits, IdsDiffer}
use projects_in_c.Huffman.Coder.RoundTrip.{HasCode, AllHaveCodes, NoneIsEof}

-- A tree with leaves for two characters is more than a leaf.
inner_root :
    (root : Tree) (c d : ℕ)
    → IsCoding root
    → c ≢ d
    → 0 < leaf_v c root
    → 0 < leaf_v d root
    → (id : ℕ) × (f : Frequency) × (l r : Tree) × (root ≡ node id internal f l r)
inner_root null c d coding other hc hd = absurd coding
inner_root (node id internal f l r) c d coding other hc hd = (id, f, l, r, refl)
inner_root (node id leaf f l r) c d coding other hc hd =
    let same_c : f.c ≡ c = ground arith in
    let same_d : f.c ≡ d = ground arith in absurd (other (sym same_c ∙ same_d))

readable-NoneIsEof : (cs : List ℕ) → NoneIsEof cs → readable cs ≡ cs
readable-NoneIsEof [] h = refl
readable-NoneIsEof (c ∷ cs) (h, hs) = rw (h, readable-NoneIsEof cs hs)

-- Codes for the characters that occur in a text are codes for the text.
pub AllHaveCodes_of :
    (root : Tree) (etab : EncodeTable) (cs : List ℕ)
    → ((c : ℕ) → 0 < count c cs → HasCode root etab c)
    → AllHaveCodes root etab cs
AllHaveCodes_of root etab [] h = tt
AllHaveCodes_of root etab (c ∷ cs) h =
    (h c (ground arith), AllHaveCodes_of root etab cs (λ d hd. h d (ground arith)))

-- A file that can be compressed: bytes other than 255, with two different ones among them, fewer than
-- an `int` can count.
pub record CanPack (cs : List ℕ) : Type 0 where
  pub bytes : Bytes cs
  pub fine : NoneIsEof cs
  pub one : ℕ
  pub another : ℕ
  pub other : one ≢ another
  pub has_one : 0 < count one cs
  pub has_another : 0 < count another cs
  pub short : length cs < int_sign

-- The tree and the table of such a file.
pub record Prepared (cs : List ℕ) (root : Tree) (etab : EncodeTable) : Type 0 where
  pub id : ℕ
  pub freq : Frequency
  pub left : Tree
  pub right : Tree
  pub root_eq : root ≡ node id internal freq left right
  pub coding : IsCoding root
  pub fits : Fits root
  pub differ : IdsDiffer root
  pub few : tree_size root ≤ 509
  pub codes : AllHaveCodes root etab cs

some_readable : (c : ℕ) (cs : List ℕ) → 0 < count c cs → cs ≢ []
some_readable c [] h = absurd (omega arith)
some_readable c (x ∷ xs) h = cc

pub CanPack-Prepared :
    (Q : Qsort) (cs : List ℕ) (ids : ℕ)
    → CanPack cs
    → 0 < ids
    → ids + 509 ≤ int_sign
    → (root : Tree) × (ids' : ℕ) × (etab : EncodeTable) × (huffman_build_tree Q (some cs) ids
        ≡ some (root, ids'))
      × (table_build root ≡ some etab)
      × Prepared cs root etab
CanPack-Prepared Q cs ids p start end =
    let same = readable-NoneIsEof cs p.fine in
    let ne : readable cs ≢ [] = rw same (some_readable p.one cs p.has_one) in
    let short : length (readable cs) < int_sign = omega (arith, ap length same, p.short) in
    let (root, ids', built, t) = huffman_build_tree-IsTreeOf Q cs ids p.bytes short ne in
    let numbers =
      huffman_build_tree-IsNumbered Q cs ids p.bytes short root ids' start end ne built in
    let (etab, made, table) = table_build-IsTableOf root t.shape t.below in
    let chars = λ (c : ℕ). t.chars c ∙ ap (count c) same in
    let (id, f, l, r, inner) =
      inner_root root p.one p.another t.shape p.other (omega (arith, chars p.one, p.has_one))
        (omega (arith, chars p.another, p.has_another)) in
    (
      root,
      ids',
      etab,
      built,
      made,
      record {
        id = id;
        freq = f;
        left = l;
        right = r;
        root_eq = inner;
        coding = t.shape;
        fits = numbers.fits;
        differ = numbers.differ;
        few = numbers.few;
        codes = AllHaveCodes_of root etab cs (λ c h.
            let (code, entry, digits, leads) =
              table.codes c (leaf_v-occurs c root (omega (arith, h, chars c))) in
            record { code = code; entry = entry; digits = digits; leads = leads });
      },
    )
