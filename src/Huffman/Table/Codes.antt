-- ===== src/Huffman/Table/Codes.antt =====
-- table.c and `huffman_find` of huffman.c: the code of a character leads back to the character.
use native.Mathlib.Decide.{ℕ_discrete}
use projects_in_c.Base.{
  ℕ, zero, suc, ◌+◌, ◌<◌, ◌≡◌, ◌⊎◌, refl, ap, sym, ◌∙◌, List, [], ◌∷◌, ◌++◌, Option, none, some,
  true, false, arith, lt→ltb, set, take, get_elem?, replicate, length, length-set,
  get_elem?-set_self, get_elem?-set_ne, append-nil, append_assoc, length-append, length-replicate,
  inl, inr, Bool-cases,
}
use projects_in_c.Huffman.Tree.{Tree, null, node, internal, leaf, Frequency, is_null}
use projects_in_c.Huffman.Tree.Shape.{IsCoding, occurs, CharsBelow}
use projects_in_c.Huffman.Build.{huffman_find}
use projects_in_c.Huffman.Table.{
  BitArray, EncodeTable, bit_array_new, bit_array_new_with, rec_gen_table, table_bit_encode,
  table_build,
}

-- A string of the characters '0' and '1'.
abbrev pub IsCode : List ℕ → Type 0
IsCode [] = Unit
IsCode (x ∷ xs) = ((x ≡ b'0') ⊎ (x ≡ b'1')) × IsCode xs

IsCode-snoc : (xs : List ℕ) (x : ℕ) → IsCode xs → (x ≡ b'0') ⊎ (x ≡ b'1') → IsCode (xs ++ x ∷ [])
IsCode-snoc [] x h e = (e, tt)
IsCode-snoc (y ∷ ys) x h e = (h.0, IsCode-snoc ys x h.1 e)

take-all : (xs : List ℕ) (n : ℕ) → n ≡ length xs → take n xs ≡ xs
take-all [] zero e = refl
take-all [] (suc n) e = refl
take-all (x ∷ xs) zero e = absurd (omega arith)
take-all (x ∷ xs) (suc n) e = ap (λ t. x ∷ t) (take-all xs n (omega arith))

-- The bit array of a node: its length is right, and its bits lead from the root to the node.
record Leads (root t : Tree) (b : BitArray) : Type 0 where
  len : b.len ≡ length b.bits
  code : IsCode b.bits
  path : (rest : List ℕ) → huffman_find root (b.bits ++ rest) ≡ huffman_find t rest

-- Every entry of the table leads to its character.
abbrev pub IsSound : Tree → EncodeTable → Type 0
IsSound root etab =
    (c : ℕ) (b : BitArray)
    → get_elem? etab c ≡ some (some b)
    → IsCode b.bits × (huffman_find root b.bits ≡ some (some c))

-- What the recursion over the node `t` does to the table.
record Generated (root t : Tree) (etab etab' : EncodeTable) : Type 0 where
  size : length etab' ≡ length etab
  sound : IsSound root etab'
  entered : (c : ℕ) → occurs c t ≡ true → (b : BitArray) × (get_elem? etab' c ≡ some (some b))
  kept : (c : ℕ) → occurs c t ≡ false → get_elem? etab' c ≡ get_elem? etab c

IsCoding-not_null : (t : Tree) → IsCoding t → is_null t ≡ false
IsCoding-not_null null h = absurd h
IsCoding-not_null (node _ _ _ _ _) h = refl

find-left :
    (id : ℕ) (f : Frequency) (l r : Tree) (rest : List ℕ)
    → is_null l ≡ false
    → huffman_find (node id internal f l r) (b'1' ∷ rest) ≡ huffman_find l rest
unfolding huffman_find
find-left id f l r rest h = rw h

find-right :
    (id : ℕ) (f : Frequency) (l r : Tree) (rest : List ℕ)
    → is_null r ≡ false
    → huffman_find (node id internal f l r) (b'0' ∷ rest) ≡ huffman_find r rest
unfolding huffman_find
find-right id f l r rest h = rw h

module _ {root : Tree} where
  -- One step further down: to the left by a '1', to the right by a '0'.
  step_down :
      (t u : Tree) (b : BitArray) (bit : ℕ)
      → Leads root t b
      → bit < 2
      → ((rest : List ℕ) → huffman_find t ((b'0' + bit) ∷ rest) ≡ huffman_find u rest)
      → (b' : BitArray) × (bit_array_new_with b bit ≡ some b') × Leads root u b'
  unfolding bit_array_new_with
  step_down t u b bit at small next = (
    record { len = b.len + 1; bits = b.bits ++ (b'0' + bit) ∷ [] },
    rw (lt→ltb bit 2 small, take-all b.bits b.len at.len),
    record {
      len = omega (arith, length-append b.bits ((b'0' + bit) ∷ []), at.len);
      code = IsCode-snoc b.bits (b'0' + bit) at.code (omega arith);
      path = λ rest. rw append_assoc (at.path ((b'0' + bit) ∷ rest) ∙ next rest);
    },
  )

  enter :
      (etab : EncodeTable) (id : ℕ) (f : Frequency) (b : BitArray)
      → IsSound root etab
      → Leads root (node id leaf f null null) b
      → f.c < length etab
      → Generated root (node id leaf f null null) etab (set etab f.c (some b))
  unfolding huffman_find
  enter etab id f b sound at small = record {
    size = length-set etab f.c (some b);
    sound = λ c b' e. elim (ℕ_discrete f.c c) [
      | yes same ↦
          let self : get_elem? (set etab f.c (some b)) c ≡ some (some b) =
            rw (← same) (get_elem?-set_self etab f.c (some b) small) in
          let eq : b ≡ b' = ground (arith, self) in
          rw (← eq, ← same) (at.code, rw (append-nil) at (at.path []))
      | no other ↦ sound c b' (sym (get_elem?-set_ne etab (some b) other) ∙ e)
    ];
    entered = λ c e.
        let same : f.c ≡ c = ground arith in
        (b, rw (← same) (get_elem?-set_self etab f.c (some b) small));
    kept = λ c e. get_elem?-set_ne etab (some b) (ground arith);
  }

  -- Two recursions, one after the other, do what the recursion over both children does.
  join :
      (id : ℕ) (f : Frequency) (l r : Tree) (e₀ e₁ e₂ : EncodeTable)
      → Generated root l e₀ e₁
      → Generated root r e₁ e₂
      → Generated root (node id internal f l r) e₀ e₂
  join id f l r e₀ e₁ e₂ g h = record {
    size = h.size ∙ g.size;
    sound = h.sound;
    entered = λ c e. elim (Bool-cases (occurs c r)) [
      | inl right ↦ h.entered c right
      | inr not_right ↦
          let (b, found) = g.entered c (ground arith) in (b, h.kept c not_right ∙ found)
    ];
    kept = λ c e. h.kept c (ground arith) ∙ g.kept c (ground arith);
  }

  generate :
      (t : Tree) (etab : EncodeTable) (b : BitArray)
      → IsCoding t
      → CharsBelow (length etab) t
      → IsSound root etab
      → Leads root t b
      → (etab' : EncodeTable) × (rec_gen_table etab t b ≡ some etab') × Generated root t etab etab'
  unfolding rec_gen_table
  generate null etab b coding below sound at = absurd coding
  generate (node id leaf f null null) etab b coding below sound at =
      (set etab f.c (some b), refl, enter etab id f b sound at below)
  generate (node id leaf f null (node _ _ _ _ _)) etab b coding below sound at = absurd coding
  generate (node id leaf f (node _ _ _ _ _) r) etab b coding below sound at = absurd coding
  generate (node id internal f l r) etab b (cl, cr, sum) below sound at =
      let nl = IsCoding-not_null l cl in
      let nr = IsCoding-not_null r cr in
      let t : Tree = node id internal f l r in
      let (lb, el, atl) = step_down t l b 1 at (omega arith) (λ rest. find-left id f l r rest nl) in
      let (rb, er, atr) =
        step_down t r b 0 at (omega arith) (λ rest. find-right id f l r rest nr) in
      let (e₁, g₁, gen₁) = generate l etab lb cl below.0 sound atl in
      let (e₂, g₂, gen₂) = generate r e₁ rb cr (rw gen₁.size below.1) gen₁.sound atr in
      (e₂, rw (nl, el, g₁, nr, er, g₂), join id f l r etab e₁ e₂ gen₁ gen₂)

-- The table of a coding tree.
pub record IsTableOf (root : Tree) (etab : EncodeTable) : Type 0 where
  pub codes :
      (c : ℕ)
      → occurs c root ≡ true
      → (code : List ℕ) × (table_bit_encode etab c ≡ some code)
        × IsCode code
        × (huffman_find root code ≡ some (some c))
  pub no_code : (c : ℕ) → occurs c root ≡ false → table_bit_encode etab c ≡ none

fresh_entry : (n c : ℕ) → table_bit_encode (replicate n none) c ≡ none
unfolding table_bit_encode
fresh_entry zero c = refl
fresh_entry (suc n) zero = refl
fresh_entry (suc n) (suc c) = fresh_entry n c

fresh-IsSound : (root : Tree) (n : ℕ) → IsSound root (replicate n none)
unfolding table_bit_encode
fresh-IsSound root n c b e = ground (arith, fresh_entry n c)

-- `table_build` succeeds on a coding tree whose characters are bytes; each character of the tree
-- then has a code of '0' and '1' that `huffman_find` follows back to it, and no other character
-- has a code.
pub table_build-IsTableOf :
    (root : Tree)
    → IsCoding root
    → CharsBelow 256 root
    → (etab : EncodeTable) × (table_build root ≡ some etab) × IsTableOf root etab
unfolding table_build bit_array_new table_bit_encode
table_build-IsTableOf root coding below =
    let empty : EncodeTable = replicate 256 none in
    let start : BitArray = record { len = 0; bits = [] } in
    let at : Leads root root start = record { len = refl; code = tt; path = λ rest. refl } in
    let len : length empty ≡ 256 = length-replicate {A = Option BitArray} 256 none in
    let (etab, e, g) =
      generate root empty start coding (rw len below) (fresh-IsSound root 256) at in
    (
      etab,
      e,
      record {
        codes = λ c o.
            let (b, found) = g.entered c o in
            let (code, leads) = g.sound c b found in (b.bits, rw found, code, leads);
        no_code = λ c o. rw (g.kept c o) (fresh_entry 256 c);
      },
    )
