-- ===== src/Bank/Sim/History.antt =====
-- banksim.c, the bank's process: the messages that are served one after the other are steps of the
-- ledger, and each ATM gets a reply for each of its messages.
use projects_in_c.Base.{
  ℕ, zero, suc, ◌<◌, ◌≡◌, ◌⊎◌, inl, inr, refl, sym, ap, ◌∙◌, List, [], ◌∷◌, ◌++◌, some, ◌==◌,
  length, append_assoc, append-nil, Bool-cases, arith,
}
use projects_in_c.Base.Words.{word}
use projects_in_c.Bank.Command.{
  Command, Parts, cmd_unpack, cmd_pack, cmd_ok, cmd_nofunds, cmd_accunkn,
}
use projects_in_c.Bank.Errors.{success}
use projects_in_c.Bank.Atm.Laws.{own, AllComplete}
use projects_in_c.Bank.Server.{Bank, Round, run_bank}
use projects_in_c.Bank.Server.Checks.{IsOpen, check_pipe_read-full}
use projects_in_c.Bank.Server.Ledger.{
  Step, greeted, deposited, withdrawn, transferred, no_funds, no_target, no_source, no_account,
  told,
}
use projects_in_c.Bank.Server.Ledger.Steps.{bank-Transacted}
use projects_in_c.Bank.Server.Run.{
  AllGood, write_status-full, after_exit, active-after_exit, after_exit-lt, stays_open,
}
use projects_in_c.Bank.Sim.{replies_to, exchanges_of}

-- The messages of the rounds take a ledger of `n` accounts from the balances `xs` to `ys` step by
-- step, with these replies, each to the ATM of the message.
pub data History (n : ℕ) : List Round → List ℕ → List ℕ → List (ℕ × Command) → Type 0 where
  start : (xs : List ℕ) → History n [] xs xs []
  next :
      (r : Round) (rs : List Round) (xs ys zs : List ℕ) (m : Command) (ms : List (ℕ × Command))
      → Step n (cmd_unpack r.cmd) xs ys m
      → History n rs ys zs ms
      → History n (r ∷ rs) xs zs (((cmd_unpack r.cmd).i, m) ∷ ms)

-- The last of the rounds is the one in which the last of `n` ATMs leaves.
abbrev pub EndsIn : ℕ → List Round → Type 0
EndsIn zero [] = Unit
EndsIn zero (r ∷ rs) = ⊥
EndsIn (suc n) [] = ⊥
EndsIn (suc n) (r ∷ rs) = EndsIn (after_exit (cmd_unpack r.cmd) n) rs

abbrev pub messages : List Round → List Command
messages [] = []
messages (r ∷ rs) = r.cmd ∷ messages rs

-- The bank serves all the rounds and ends with success.
pub run_bank-History :
    (rs : List Round) (b : Bank) (n : ℕ)
    → IsOpen b
    → n < word
    → AllGood b.account_count b.atm_count rs
    → EndsIn n rs
    → (b' : Bank) × (ms : List (ℕ × Command)) × (run_bank rs b n ≡ some (some success, b', 0))
      × (b'.outbox ≡ b.outbox ++ ms)
      × History b.account_count rs b.accounts b'.accounts ms
unfolding run_bank
run_bank-History [] b zero o hn g h = (b, [], refl, sym (append-nil b.outbox), start b.accounts)
run_bank-History (r ∷ rs) b zero o hn g h = absurd h
run_bank-History [] b (suc n) o hn g h = absurd h
run_bank-History (r ∷ rs) b (suc n) o hn (good, rest) h =
    let (b', m, e, ans, step) =
      bank-Transacted r.wrote r.cmd b (suc n) o good.words good.atm good.known good.own in
    let (b'', ms, run, out, history) =
      run_bank-History rs b' (after_exit (cmd_unpack r.cmd) n) (stays_open b b' r m o ans step)
        (after_exit-lt (cmd_unpack r.cmd) n hn) (rw (ans.account_count, ans.atm_count) rest) h in
    (
      b'',
      ((cmd_unpack r.cmd).i, m) ∷ ms,
      rw
          (
            check_pipe_read-full r.result b.errors good.read_all good.read_nat,
            e,
            write_status-full r.wrote good.wrote_all good.wrote_nat,
            active-after_exit (cmd_unpack r.cmd) n hn,
          )
          run,
      out
          ∙ ap (λ o. o ++ ms) ans.outbox
          ∙ append_assoc b.outbox (((cmd_unpack r.cmd).i, m) ∷ []) ms,
      next r rs b.accounts b'.accounts b''.accounts m ms step (rw ans.account_count at history),
    )

packed_c : (c i f t a : ℕ) → (cmd_unpack (cmd_pack c i f t a)).c ≡ c
unfolding cmd_unpack cmd_pack
packed_c c i f t a = refl

-- What the ledger answers is a reply that an ATM knows.
Step-reply :
    {n : ℕ} {p : Parts} {xs ys : List ℕ} {m : Command}
    → Step n p xs ys m
    → ((cmd_unpack m).c ≡ cmd_ok)
      ⊎ ((cmd_unpack m).c ≡ cmd_nofunds)
      ⊎ ((cmd_unpack m).c ≡ cmd_accunkn)
Step-reply (greeted k e em) = rw em (inl (packed_c cmd_ok _ _ _ _))
Step-reply (deposited x k h ex e em) = rw em (inl (packed_c cmd_ok _ _ _ _))
Step-reply (withdrawn x k h ex rich e em) = rw em (inl (packed_c cmd_ok _ _ _ _))
Step-reply (transferred x y k hf ht ex rich ey e em) = rw em (inl (packed_c cmd_ok _ _ _ _))
Step-reply (no_funds x k h ex poor e em) = rw em (inr (inl (packed_c cmd_nofunds _ _ _ _)))
Step-reply (no_target k h e em) = rw em (inr (inr (packed_c cmd_accunkn _ _ _ _)))
Step-reply (no_source k h e em) = rw em (inr (inr (packed_c cmd_accunkn _ _ _ _)))
Step-reply (no_account k h e em) = rw em (inr (inr (packed_c cmd_accunkn _ _ _ _)))
Step-reply (told x k h ex e em) = rw em (inl (packed_c cmd_ok _ _ _ _))

-- The exchanges of an ATM are complete, and there is one for each of its messages.
pub History-exchanges :
    {n : ℕ} {rs : List Round} {xs ys : List ℕ} {ms : List (ℕ × Command)} (i : ℕ)
    → History n rs xs ys ms
    → AllComplete (exchanges_of (replies_to i ms))
      × (length (exchanges_of (replies_to i ms)) ≡ length (own i (messages rs)))
unfolding exchanges_of replies_to
History-exchanges i (start xs) = (tt, refl)
History-exchanges i (next r rs xs ys zs m ms step history) =
    let (complete, same) = History-exchanges i history in
    elim (Bool-cases (i == (cmd_unpack r.cmd).i)) [
      | inr other ↦ rw other (complete, same)
      | inl mine ↦ rw mine (
        (
          record {
            wrote_all = omega arith;
            wrote_nat = omega arith;
            got_all = omega arith;
            got_nat = omega arith;
            answer = Step-reply step;
          },
          complete,
        ),
        ap suc same,
      )
    ]
