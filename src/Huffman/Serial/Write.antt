-- ===== src/Huffman/Serial/Write.antt =====
-- tree.c, `tree_serialize`: what it writes.
use projects_in_c.Base.{
  ℕ, ◌-◌, ◌≤◌, ◌<◌, ◌≡◌, refl, sym, ap, ◌∙◌, List, [], ◌∷◌, ◌++◌, Option, some, Bool, true, false,
  ◌==◌, arith, append_assoc, append-nil, length, length-append,
}
use projects_in_c.Base.Stdio.{File, fputc, put_text}
use projects_in_c.Huffman.Tree.{Tree, null, node, internal, leaf, is_null}
use projects_in_c.Huffman.Tree.Shape.{IsCoding}
use projects_in_c.Huffman.Serial.{values_of, print_values, tree_serialize_rec, tree_serialize}

-- The file after a text has been written.
abbrev pub wrote : List ℕ → File → File
wrote cs f = record f { output = f.output ++ cs; room = f.room - length cs }

-- The records of a tree, the children in front of their parent.
abbrev pub text_of : Tree → List ℕ
text_of null = []
text_of (node id leaf freq left right) = print_values (values_of leaf id freq left right)
text_of (node id internal freq left right) =
    text_of left ++ (text_of right ++ print_values (values_of internal id freq left right))

abbrev pub tree_text : Tree → List ℕ
tree_text t = b'#' ∷ (text_of t ++ b'#' ∷ [])

fputc_lem : (c : ℕ) (f : File) → 0 < f.room → fputc c f ≡ (some c, wrote (c ∷ []) f)
unfolding fputc
fputc_lem c f h = let room : (f.room == 0) ≡ false = ground arith in rw room

put_none : (f : File) → put_text [] f ≡ (true, f)
unfolding put_text
put_none f = refl

put_one :
    (c : ℕ) (cs : List ℕ) (f : File)
    → 0 < f.room
    → put_text (c ∷ cs) f ≡ put_text cs (wrote (c ∷ []) f)
unfolding put_text
put_one c cs f h =
    rw (put_text, fputc_lem c f h) (ap (λ (o : Option ℕ × File). put_text cs o.1) (fputc_lem c f h))

wrote_eq :
    (f : File) (xs ys : List ℕ) (m n : ℕ)
    → xs ≡ ys
    → m ≡ n
    → (record f { output = xs; room = m }) ≡ (record f { output = ys; room = n })
wrote_eq f xs ys m n e k = rw (e, k)

pub wrote-append : (cs ds : List ℕ) (f : File) → wrote ds (wrote cs f) ≡ wrote (cs ++ ds) f
wrote-append cs ds f =
    wrote_eq f _ _ _ _ (append_assoc f.output cs ds) (omega (arith, length-append cs ds))

wrote-nil : (f : File) → f ≡ wrote [] f
wrote-nil f =
    wrote_eq f f.output (f.output ++ []) f.room (f.room - 0) (sym (append-nil f.output))
      (omega arith)

pub put_text_lem :
    (cs : List ℕ) (f : File) → length cs ≤ f.room → put_text cs f ≡ (true, wrote cs f)
put_text_lem [] f h = put_none f ∙ ap (λ g. (true, g)) (wrote-nil f)
put_text_lem (c ∷ cs) f h =
    put_one c cs f (omega arith)
    ∙ put_text_lem cs (wrote (c ∷ []) f) (omega arith)
    ∙ ap (λ g. (true, g)) (wrote-append (c ∷ []) cs f)

pub IsCoding-not_null : (t : Tree) → IsCoding t → is_null t ≡ false
IsCoding-not_null null h = absurd h
IsCoding-not_null (node _ _ _ _ _) h = refl

serialize_rec_lem :
    (t : Tree) (f : File)
    → IsCoding t
    → length (text_of t) ≤ f.room
    → tree_serialize_rec t f ≡ some (true, wrote (text_of t) f)
unfolding tree_serialize_rec
serialize_rec_lem null f h room = absurd h
serialize_rec_lem (node id leaf freq null null) f h room =
    ap (λ (o : Bool × File). some o) (put_text_lem _ f room)
serialize_rec_lem (node id leaf freq null (node _ _ _ _ _)) f h room = absurd h
serialize_rec_lem (node id leaf freq (node _ _ _ _ _) r) f h room = absurd h
serialize_rec_lem (node id internal freq l r) f (cl, cr, sum) room =
    let own : List ℕ = print_values (values_of internal id freq l r) in
    let size = length-append (text_of l) (text_of r ++ own) in
    let size' = length-append (text_of r) own in
    let f₁ : File = wrote (text_of l) f in
    let f₂ : File = wrote (text_of r) f₁ in
    rw
      (
        IsCoding-not_null l cl,
        serialize_rec_lem l f cl (omega (arith, size)),
        IsCoding-not_null r cr,
        serialize_rec_lem r f₁ cr (omega (arith, size, size')),
        put_text_lem own f₂ (omega (arith, size, size')),
      )
      (ap (λ g. some (true, g))
        (ap (wrote own) (wrote-append (text_of l) (text_of r) f)
          ∙ wrote-append (text_of l ++ text_of r) own f
          ∙ ap (λ cs. wrote cs f) (append_assoc (text_of l) (text_of r) own)))

-- With room enough, a coding tree is written between two '#'.
pub tree_serialize_lem :
    (t : Tree) (f : File)
    → IsCoding t
    → length (tree_text t) ≤ f.room
    → tree_serialize t f ≡ some (true, wrote (tree_text t) f)
unfolding tree_serialize
tree_serialize_lem t f h room =
    let size = length-append (text_of t) (b'#' ∷ []) in
    let f₁ : File = wrote (b'#' ∷ []) f in
    let f₂ : File = wrote (text_of t) f₁ in
    rw
      (
        put_text_lem (b'#' ∷ []) f (omega (arith, size)),
        serialize_rec_lem t f₁ h (omega (arith, size)),
        put_text_lem (b'#' ∷ []) f₂ (omega (arith, size)),
      )
      (ap (λ g. some (true, g))
        (ap (wrote (b'#' ∷ [])) (wrote-append (b'#' ∷ []) (text_of t) f)
          ∙ wrote-append (b'#' ∷ text_of t) (b'#' ∷ []) f))
