-- ===== src/Bank/Server/Ledger/Operations.antt =====
-- bank.c: each operation of the server is a step of the ledger.
use native.Mathlib.Decide.{dec_lt}
use projects_in_c.Base.{
  ℕ, ◌≤◌, ◌<◌, ◌≡◌, ◌≢◌, ◌⊎◌, inl, inr, refl, List, [], ◌∷◌, Option, some, ltb, if◌then◌else◌,
  get_elem?, set, length, length-set, arith, Bool-cases,
}
use projects_in_c.Base.Words.{add, sub, slt, sge, word}
use projects_in_c.Bank.Command.{
  Command, Parts, message_size, cmd_connect, cmd_exit, cmd_deposit, cmd_withdraw, cmd_transfer,
  cmd_balance, msg_ok, msg_nofunds, msg_accunkn,
}
use projects_in_c.Bank.Errors.{success, err_pipe_write_err}
use projects_in_c.Bank.Server.{
  Bank, check_pipe_write, check_valid_account, reply, deposit, withdraw, transfer, balance,
}
use projects_in_c.Bank.Server.Checks.{IsOpen, check_valid_account-yes, check_valid_account-no}
use projects_in_c.Bank.Server.Ledger.{
  Step, deposited, withdrawn, transferred, no_funds, no_target, no_source, no_account, told,
  AreWords, Answered,
}

-- The status that the result of a `write` stands for.
abbrev pub write_status : ℕ → ℕ
write_status wrote =
    if slt wrote 0
    then err_pipe_write_err
    else (if ltb wrote message_size then err_pipe_write_err else success)

get-some : (xs : List ℕ) (i : ℕ) → i < length xs → (x : ℕ) × (get_elem? xs i ≡ some x)
get-some [] i h = absurd (omega arith)
get-some (x ∷ xs) ℕ.zero h = (x, refl)
get-some (x ∷ xs) (ℕ.suc i) h = get-some xs i (omega arith)

-- The outcome of an operation: a reply was sent, and the accounts are those of a ledger step.
abbrev pub Done : (wrote : ℕ) → Parts → Bank → Option (ℕ × Bank) → Type 0
Done wrote p b o =
    (b' : Bank) × (m : Command) × (o ≡ some (write_status wrote, b'))
    × Answered b b' p.i b'.accounts m
    × Step b.account_count p b.accounts b'.accounts m

reply_lem :
    (wrote i : ℕ) (m : Command) (b₀ b : Bank)
    → b.account_count ≡ b₀.account_count
    → b.atm_count ≡ b₀.atm_count
    → b.outbox ≡ b₀.outbox
    → let (r, b') = reply wrote i m b in
      (r ≡ write_status wrote) × (b'.accounts ≡ b.accounts) × Answered b₀ b' i b'.accounts m
unfolding reply check_pipe_write
reply_lem wrote i m b₀ b e₁ e₂ e₃ = ground arith

-- An operation that ends with a reply from the bank `b₁`, whose accounts are those of a step.
pub finish :
    (wrote : ℕ) (p : Parts) (b b₁ : Bank) (m : Command) (o : Option (ℕ × Bank))
    → b₁.account_count ≡ b.account_count
    → b₁.atm_count ≡ b.atm_count
    → b₁.outbox ≡ b.outbox
    → o ≡ some (reply wrote p.i m b₁)
    → Step b.account_count p b.accounts b₁.accounts m
    → Done wrote p b o
finish wrote p b b₁ m o e₁ e₂ e₃ e step =
    let (r, acc, ans) = reply_lem wrote p.i m b b₁ e₁ e₂ e₃ in
    ((reply wrote p.i m b₁).1, m, ground (arith, e, r), ans, rw acc step)

module _ (wrote : ℕ) (p : Parts) (b : Bank) (open_b : IsOpen b) (w : AreWords p) where
  pub account : (x : ℕ) → x < b.account_count → (v : ℕ) × (get_elem? b.accounts x ≡ some v)
  account x h = get-some b.accounts x (omega (arith, open_b.size))

  pub known : (x : ℕ) → x < word → x < b.account_count → check_valid_account x b ≡ (success, b)
  known x hx h = check_valid_account-yes b x hx open_b.accounts_fit h

  -- An account is unknown: the reply says so, and no account changes.
  refuse :
      (x y : ℕ) (o : Option (ℕ × Bank))
      → x < word
      → b.account_count ≤ x
      → ((check_valid_account x b).0 ≢ success
          → o ≡ some (reply wrote p.i (msg_accunkn 0 y) (check_valid_account x b).1))
      → ((ys : List ℕ) → ys ≡ b.accounts → Step b.account_count p b.accounts ys (msg_accunkn 0 y))
      → Done wrote p b o
  refuse x y o hx h e step =
      let (c, same) = check_valid_account-no b x hx open_b.accounts_fit h in
      finish wrote p b (check_valid_account x b).1 (msg_accunkn 0 y) o same.account_count
        same.atm_count same.outbox (e (ground (arith, c))) (step _ same.accounts)

  pub deposit-Done : p.c ≡ cmd_deposit → Done wrote p b (deposit wrote p b)
  unfolding deposit
  deposit-Done e = elim (dec_lt p.t b.account_count) [
    | yes h ↦
        let (x, ex) = account p.t h in
        finish wrote p b (record b { accounts = set b.accounts p.t (add x p.a) })
          (msg_ok 0 p.f p.t p.a) _ refl refl refl (rw (known p.t w.t h, ex))
          (deposited x e h ex refl refl)
    | no h ↦
        refuse p.t p.t _ w.t (omega arith) (λ bad. ground arith)
          (λ ys same. no_target (inl e) (omega arith) same refl)
  ]

  pub withdraw-Done : p.c ≡ cmd_withdraw → Done wrote p b (withdraw wrote p b)
  unfolding withdraw sge
  withdraw-Done e = elim (dec_lt p.f b.account_count) [
    | yes h ↦
        let (x, ex) = account p.f h in
        elim (Bool-cases (slt x p.a)) [
          | inl poor ↦
              finish wrote p b b (msg_nofunds 0 p.f p.a) _ refl refl refl
                (rw (known p.f w.f h, ex, poor)) (no_funds x (inl e) h ex poor refl refl)
          | inr rich ↦
              finish wrote p b (record b { accounts = set b.accounts p.f (sub x p.a) })
                (msg_ok 0 p.f p.t p.a) _ refl refl refl (rw (known p.f w.f h, ex, rich))
                (withdrawn x e h ex rich refl refl)
        ]
    | no h ↦
        refuse p.f p.t _ w.f (omega arith) (λ bad. ground arith)
          (λ ys same. no_account (inl e) (omega arith) same refl)
  ]

  transfer_known :
      p.c ≡ cmd_transfer
      → p.f < b.account_count
      → p.t < b.account_count
      → Done wrote p b (transfer wrote p b)
  unfolding transfer
  transfer_known e hf ht =
      let (x, ex) = account p.f hf in
      let after = set b.accounts p.f (sub x p.a) in
      let (y, ey) =
        get-some after p.t (omega (arith, open_b.size, length-set b.accounts p.f (sub x p.a))) in
      elim (Bool-cases (slt x p.a)) [
        | inl poor ↦
            finish wrote p b b (msg_nofunds 0 p.f p.a) _ refl refl refl
              (rw (known p.f w.f hf, known p.t w.t ht, ex, poor))
              (no_funds x (inr (e, ht)) hf ex poor refl refl)
        | inr rich ↦
            finish wrote p b (record b { accounts = set after p.t (add y p.a) })
              (msg_ok 0 p.f p.t p.a) _ refl refl refl
              (rw (known p.f w.f hf, known p.t w.t ht, ex, rich, ey))
              (transferred x y e hf ht ex rich ey refl refl)
      ]

  pub transfer-Done : p.c ≡ cmd_transfer → Done wrote p b (transfer wrote p b)
  unfolding transfer
  transfer-Done e = elim (dec_lt p.f b.account_count) [
    | no h ↦
        refuse p.f p.f _ w.f (omega arith) (λ bad. ground arith)
          (λ ys same. no_source e (omega arith) same refl)
    | yes hf ↦ elim (dec_lt p.t b.account_count) [
      | yes ht ↦ transfer_known e hf ht
      | no h ↦
          refuse p.t p.t _ w.t (omega arith) (λ bad. ground (arith, known p.f w.f hf))
            (λ ys same. no_target (inr (e, hf)) (omega arith) same refl)
    ]
  ]

  -- The account that is read is the one with the number of the ATM.
  pub balance-Done :
      p.c ≡ cmd_balance
      → (p.f < b.account_count → p.i < b.account_count)
      → Done wrote p b (balance wrote p b)
  unfolding balance
  balance-Done e hi = elim (dec_lt p.f b.account_count) [
    | yes h ↦
        let (x, ex) = account p.i (hi h) in
        finish wrote p b b (msg_ok 0 p.f p.t x) _ refl refl refl (rw (known p.f w.f h, ex))
          (told x e h ex refl refl)
    | no h ↦
        refuse p.f p.t _ w.f (omega arith) (λ bad. ground arith)
          (λ ys same. no_account (inr e) (omega arith) same refl)
  ]

-- The command bytes that the server knows.
abbrev pub IsKnown : ℕ → Type 0
IsKnown c =
    (c ≡ cmd_connect)
    ⊎ (c ≡ cmd_exit)
    ⊎ (c ≡ cmd_deposit)
    ⊎ (c ≡ cmd_withdraw)
    ⊎ (c ≡ cmd_transfer)
    ⊎ (c ≡ cmd_balance)
