-- ===== src/Huffman/Tests/Sorting.antt =====
-- A sort for the parameter `Qsort` of pqueue.c: insertion, which keeps equal frequencies in order.
use mathlib.Core.List.{Perm}
use mathlib.Core.List.Perm
use projects_in_c.Base.{List, [], ◌∷◌, ◌≡◌, true, false, if◌then◌else◌, arith, Bool-cases, inl, inr}
use projects_in_c.Base.Words.{slt, sub}
use projects_in_c.Huffman.Tree.{Tree}
use projects_in_c.Huffman.Pqueue.{comparator, IsOrdered, Qsort}

abbrev pub insert : Tree → List Tree → List Tree
insert x [] = x ∷ []
insert x (y ∷ ys) = if slt 0 (comparator y x) then x ∷ y ∷ ys else y ∷ insert x ys

abbrev pub insertion_sort : List Tree → List Tree
insertion_sort [] = []
insertion_sort (x ∷ xs) = insert x (insertion_sort xs)

insert-perm : (x : Tree) (ys : List Tree) → Perm (insert x ys) (x ∷ ys)
insert-perm x [] = Perm.refl (x ∷ [])
insert-perm x (y ∷ ys) = elim (Bool-cases (slt 0 (comparator y x))) [
  | inl lt ↦ rw lt (Perm.refl (x ∷ y ∷ ys))
  | inr ge ↦ rw ge (Perm.trans (Perm.cons y (insert-perm x ys)) (Perm.swap x y ys))
]

pub insertion_sort-perm : (ts : List Tree) → Perm (insertion_sort ts) ts
insertion_sort-perm [] = Perm.refl []
insertion_sort-perm (x ∷ xs) =
    Perm.trans (insert-perm x (insertion_sort xs)) (Perm.cons x (insertion_sort-perm xs))

comparator_total : (x y : Tree) → slt 0 (comparator x y) ≡ true → slt 0 (comparator y x) ≡ false
unfolding comparator slt sub
comparator_total x y h = ground arith

-- The place behind `y` keeps the order, wherever the insertion stops.
insert_behind :
    (x y z : Tree) (zs : List Tree)
    → slt 0 (comparator y x) ≡ false
    → slt 0 (comparator y z) ≡ false
    → IsOrdered (insert x (z ∷ zs))
    → IsOrdered (y ∷ insert x (z ∷ zs))
insert_behind x y z zs hx hz o = elim (Bool-cases (slt 0 (comparator z x))) [
  | inl less ↦ rw less (hx, rw less at o)
  | inr more ↦ rw more (hz, rw more at o)
]

insert-IsOrdered : (x : Tree) (ys : List Tree) → IsOrdered ys → IsOrdered (insert x ys)
insert-IsOrdered x [] o = tt
insert-IsOrdered x (y ∷ []) o = elim (Bool-cases (slt 0 (comparator y x))) [
  | inl less ↦ rw less (comparator_total y x less, tt)
  | inr more ↦ rw more (more, tt)
]
insert-IsOrdered x (y ∷ z ∷ zs) o = elim (Bool-cases (slt 0 (comparator y x))) [
  | inl less ↦ rw less (comparator_total y x less, o)
  | inr more ↦ rw more (insert_behind x y z zs more o.0 (insert-IsOrdered x (z ∷ zs) o.1))
]

pub insertion_sort-IsOrdered : (ts : List Tree) → IsOrdered (insertion_sort ts)
insertion_sort-IsOrdered [] = tt
insertion_sort-IsOrdered (x ∷ xs) =
    insert-IsOrdered x (insertion_sort xs) (insertion_sort-IsOrdered xs)

abbrev pub insertion : Qsort
insertion = record {
  qsort = insertion_sort;
  qsort-perm = insertion_sort-perm;
  qsort-IsOrdered = insertion_sort-IsOrdered;
}
