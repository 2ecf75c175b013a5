-- ===== src/Bank/Server/Ledger/Money.antt =====
-- What a transaction of the ledger does to the money: nothing is lost, no other account moves, and
-- no account is overdrawn.
use projects_in_c.Base.{
  ℕ, zero, suc, ◌+◌, ◌%◌, ◌≤◌, ◌<◌, ◌≡◌, ◌≢◌, sym, ◌∙◌, List, [], ◌∷◌, some, false, ◌&&◌, ◌==◌,
  if◌then◌else◌, get_elem?, set, get_elem?-set_ne, arith,
}
use projects_in_c.Base.Words.{add, sub, slt, word, int_sign, IsNat}
use projects_in_c.Bank.Command.{Command, Parts, cmd_ok, cmd_pack, cmd_deposit, cmd_withdraw}
use projects_in_c.Bank.Server.Ledger.{
  Step, greeted, deposited, withdrawn, transferred, no_funds, no_target, no_source, no_account,
  told,
}

abbrev pub sum : List ℕ → ℕ
sum [] = 0
sum (x ∷ xs) = x + sum xs

-- Every balance satisfies `x < n`.
abbrev pub AllBelow : ℕ → List ℕ → Type 0
AllBelow n [] = Unit
AllBelow n (x ∷ xs) = (x < n) × AllBelow n xs

-- What a transaction that is answered by OK brings in, and takes out.
abbrev pub paid_in : Parts → Command → ℕ
paid_in p m = if p.c == cmd_deposit && m.cmd == cmd_ok then p.a else 0

abbrev pub paid_out : Parts → Command → ℕ
paid_out p m = if p.c == cmd_withdraw && m.cmd == cmd_ok then p.a else 0

sum-set : (xs : List ℕ) (i x v : ℕ) → get_elem? xs i ≡ some x → sum (set xs i v) + x ≡ sum xs + v
sum-set [] i x v e = cc
sum-set (y ∷ ys) zero x v e = ground arith
sum-set (y ∷ ys) (suc i) x v e = omega (arith, sum-set ys i x v e)

AllBelow-get : (n : ℕ) (xs : List ℕ) (i x : ℕ) → AllBelow n xs → get_elem? xs i ≡ some x → x < n
AllBelow-get n [] i x h e = cc
AllBelow-get n (y ∷ ys) zero x h e = ground arith
AllBelow-get n (y ∷ ys) (suc i) x h e = AllBelow-get n ys i x h.1 e

AllBelow-set : (n : ℕ) (xs : List ℕ) (i v : ℕ) → AllBelow n xs → v < n → AllBelow n (set xs i v)
AllBelow-set n [] i v h l = tt
AllBelow-set n (y ∷ ys) zero v h l = (l, h.1)
AllBelow-set n (y ∷ ys) (suc i) v h l = (h.0, AllBelow-set n ys i v h.1 l)

get-le-sum : (xs : List ℕ) (i x : ℕ) → get_elem? xs i ≡ some x → x ≤ sum xs
get-le-sum [] i x e = cc
get-le-sum (y ∷ ys) zero x e = ground arith
get-le-sum (y ∷ ys) (suc i) x e = omega (arith, get-le-sum ys i x e)

wrap_add : (s s' x a : ℕ) → s' + x ≡ s + add x a → s' % word ≡ (s + a) % word
unfolding add
wrap_add s s' x a e = omega arith

wrap_sub : (s s' x a : ℕ) → a < word → s' + x ≡ s + sub x a → (s' + a) % word ≡ s % word
unfolding sub
wrap_sub s s' x a ha e = omega arith

add-nat : (x a : ℕ) → x + a < int_sign → add x a < int_sign
unfolding add
add-nat x a h = omega arith

-- What may be withdrawn is there.
sub-nat :
    (x a : ℕ)
    → x < int_sign
    → a < int_sign
    → slt x a ≡ false
    → (sub x a < int_sign) × (sub x a + a ≡ x)
unfolding sub slt
sub-nat x a hx ha rich = ground arith

module _ {n : ℕ} {p : Parts} {xs ys : List ℕ} {m : Command} where
  -- The sum of the balances, as a word, changes by what is paid in and out; a transfer keeps it.
  pub Step-sum :
      p.a < word → Step n p xs ys m → (sum ys + paid_out p m) % word ≡ (sum xs + paid_in p m) % word
  unfolding cmd_pack
  Step-sum ha (greeted k e em) = ground arith
  Step-sum ha (deposited x k h ex e em) =
      ground (arith, wrap_add (sum xs) (sum ys) x p.a, sum-set xs p.t x (add x p.a) ex)
  Step-sum ha (withdrawn x k h ex rich e em) =
      ground (arith, wrap_sub (sum xs) (sum ys) x p.a ha, sum-set xs p.f x (sub x p.a) ex)
  Step-sum ha (transferred x y k hf ht ex rich ey e em) =
      let mid = set xs p.f (sub x p.a) in
      let one = wrap_sub (sum xs) (sum mid) x p.a ha (sum-set xs p.f x (sub x p.a) ex) in
      let two =
        wrap_add (sum mid) (sum (set mid p.t (add y p.a))) y p.a
          (sum-set mid p.t y (add y p.a) ey) in
      rw (e, em, k) (ground (arith, one, two))
  Step-sum ha (no_funds x k h ex poor e em) = ground arith
  Step-sum ha (no_target k h e em) = ground arith
  Step-sum ha (no_source k h e em) = ground arith
  Step-sum ha (no_account k h e em) = ground arith
  Step-sum ha (told x k h ex e em) = ground arith

  -- Only the accounts that a message names can change.
  pub Step-frame : (j : ℕ) → j ≢ p.f → j ≢ p.t → Step n p xs ys m → get_elem? ys j ≡ get_elem? xs j
  Step-frame j jf jt (greeted k e em) = cc
  Step-frame j jf jt (deposited x k h ex e em) =
      rw e (get_elem?-set_ne xs (add x p.a) (λ s. jt (sym s)))
  Step-frame j jf jt (withdrawn x k h ex rich e em) =
      rw e (get_elem?-set_ne xs (sub x p.a) (λ s. jf (sym s)))
  Step-frame j jf jt (transferred x y k hf ht ex rich ey e em) = rw e (
      get_elem?-set_ne (set xs p.f (sub x p.a)) (add y p.a) (λ s. jt (sym s))
      ∙ get_elem?-set_ne xs (sub x p.a) (λ s. jf (sym s)))
  Step-frame j jf jt (no_funds x k h ex poor e em) = cc
  Step-frame j jf jt (no_target k h e em) = cc
  Step-frame j jf jt (no_source k h e em) = cc
  Step-frame j jf jt (no_account k h e em) = cc
  Step-frame j jf jt (told x k h ex e em) = cc

  -- Where no balance and no amount is negative, and the money together with the amount fits an
  -- `int`, no transaction makes a balance negative.
  pub Step-no_overdraft :
      AllBelow int_sign xs
      → IsNat p.a
      → sum xs + p.a < int_sign
      → Step n p xs ys m
      → AllBelow int_sign ys
  Step-no_overdraft hx ha fits (greeted k e em) = rw e hx
  Step-no_overdraft hx ha fits (deposited x k h ex e em) = rw e (
      AllBelow-set int_sign xs p.t (add x p.a) hx
        (add-nat x p.a (omega (arith, get-le-sum xs p.t x ex))))
  Step-no_overdraft hx ha fits (withdrawn x k h ex rich e em) = rw e (
      AllBelow-set int_sign xs p.f (sub x p.a) hx
        (sub-nat x p.a (AllBelow-get int_sign xs p.f x hx ex) ha rich).0)
  Step-no_overdraft hx ha fits (transferred x y k hf ht ex rich ey e em) =
      let mid = set xs p.f (sub x p.a) in
      let (small, less) = sub-nat x p.a (AllBelow-get int_sign xs p.f x hx ex) ha rich in
      let hm = AllBelow-set int_sign xs p.f (sub x p.a) hx small in
      rw e (
        AllBelow-set int_sign mid p.t (add y p.a) hm
          (add-nat y p.a (omega (arith, get-le-sum mid p.t y ey, sum-set xs p.f x (sub x p.a) ex))))
  Step-no_overdraft hx ha fits (no_funds x k h ex poor e em) = rw e hx
  Step-no_overdraft hx ha fits (no_target k h e em) = rw e hx
  Step-no_overdraft hx ha fits (no_source k h e em) = rw e hx
  Step-no_overdraft hx ha fits (no_account k h e em) = rw e hx
  Step-no_overdraft hx ha fits (told x k h ex e em) = rw e hx
