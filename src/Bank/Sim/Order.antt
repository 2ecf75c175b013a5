-- ===== src/Bank/Sim/Order.antt =====
-- banksim.c: whatever the order in which the messages of the ATMs reach the bank, the simulation ends.
use projects_in_c.Base.{
  ℕ, zero, suc, ◌+◌, ◌≤◌, ◌<◌, ◌≡◌, refl, ap, ap₂, List, [], ◌∷◌, Option, some, true, false, ◌==◌,
  length, replicate, length-replicate, Bool-cases, inl, inr, arith,
}
use projects_in_c.Base.Words.{rounds_to_nat, slt, IsNat}
use projects_in_c.Bank.Command.{Command, cmd_unpack}
use projects_in_c.Bank.Errors.{Errors, success}
use projects_in_c.Bank.Trace.Format.{trace_bytes, trace_open_lem}
use projects_in_c.Bank.Atm.{AtmState, is_request}
use projects_in_c.Bank.Atm.Laws.{own, AllRequests, atm_run-own}
use projects_in_c.Bank.Server.{Bank, Round, bank_open}
use projects_in_c.Bank.Server.Checks.{IsOpen}
use projects_in_c.Bank.Server.Ledger.Operations.{IsKnown}
use projects_in_c.Bank.Server.Run.{AllGood}
use projects_in_c.Bank.Sim.{
  replies_to, exchanges_of, written, run_atm, run_atms, no_bank, simulated, banksim,
}
use projects_in_c.Bank.Sim.History.{History, EndsIn, messages, run_bank-History, History-exchanges}

known-is_request : (c : ℕ) → IsKnown c → is_request c ≡ true
unfolding is_request
known-is_request c h = ground arith

-- An ATM's messages that the bank is given are requests.
good-AllRequests :
    (accounts atms i : ℕ) (rs : List Round)
    → AllGood accounts atms rs
    → AllRequests (own i (messages rs))
good-AllRequests accounts atms i [] h = tt
good-AllRequests accounts atms i (r ∷ rs) (good, h) =
    let rest = good-AllRequests accounts atms i rs h in
    elim (Bool-cases (i == (cmd_unpack r.cmd).i)) [
      | inr other ↦ rw other rest
      | inl mine ↦ rw mine (known-is_request (cmd_unpack r.cmd).c good.known, rest)
    ]

no_length {ℓ} : {A : Type ℓ} (xs : List A) → length xs ≡ 0 → xs ≡ []
no_length [] h = refl
no_length (x ∷ xs) h = absurd (omega arith)

-- The ATMs with a success, from the states that they end in.
abbrev pub all_successful : List AtmState → List (Option ℕ × AtmState)
all_successful [] = []
all_successful (s ∷ ss) = (some success, s) ∷ all_successful ss

-- The ATMs from `i` on have sent their messages of the trace, and have got a reply to each.
abbrev pub AllSent : List Command → ℕ → List AtmState → Type 0
AllSent cmds i [] = Unit
AllSent cmds i (s ∷ ss) = (s.outbox ≡ own i cmds) × (s.exchanges ≡ []) × AllSent cmds (suc i) ss

bank_open-IsOpen :
    (atms accounts : ℕ) (e : Errors)
    → IsNat atms
    → IsNat accounts
    → IsOpen (bank_open atms accounts (no_bank e))
unfolding bank_open
bank_open-IsOpen atms accounts e ha hc = record {
  size = rw (rounds_to_nat accounts hc) (length-replicate accounts 0);
  accounts_fit = hc;
  atms_fit = ha;
}

same_requests : (xs ys : List Command) → xs ≡ ys → AllRequests xs → AllRequests ys
same_requests xs ys e h = rw e at h

not_negative : (n : ℕ) → IsNat n → slt n 0 ≡ false
unfolding slt
not_negative n h = ground arith

module _ (atms accounts fuel : ℕ) (cmds : List Command) (buffer : Command) (e : Errors)
    (rs : List Round) (ha : IsNat atms) (hc : IsNat accounts) (enough : length cmds < fuel)
    (good : AllGood accounts atms rs)
    (order : (i : ℕ) → i < atms → own i (messages rs) ≡ own i cmds) where
  abbrev file : Option (List ℕ)
  file = some (trace_bytes atms accounts cmds)

  run_atm-Sent :
      (i : ℕ) (xs ys : List ℕ) (ms : List (ℕ × Command))
      → i < atms
      → History accounts rs xs ys ms
      → (s : AtmState) × (run_atm fuel file buffer e ms i ≡ (some success, s))
        × (s.outbox ≡ own i cmds)
        × (s.exchanges ≡ [])
  unfolding run_atm
  run_atm-Sent i xs ys ms lt history =
      let (complete, same) = History-exchanges i history in
      let (s, run, sent) =
        atm_run-own atms accounts i fuel cmds buffer
          (record {
            exchanges = exchanges_of (replies_to i ms);
            errors = e;
            outbox = [];
            notices = [];
          })
          (omega arith) (omega arith) enough complete
          (same_requests (own i (messages rs)) (own i cmds) (order i lt)
            (good-AllRequests accounts atms i rs good))
          (omega (arith, same, ap length (order i lt))) in
      (
        s,
        run,
        sent.outbox,
        no_length s.exchanges (omega (arith, sent.used, same, ap length (order i lt))),
      )

  run_atms-Sent :
      (count i : ℕ) (xs ys : List ℕ) (ms : List (ℕ × Command))
      → i + count ≤ atms
      → History accounts rs xs ys ms
      → (ss : List AtmState) × (run_atms fuel file buffer e ms count i ≡ all_successful ss)
        × (length ss ≡ count)
        × AllSent cmds i ss
  unfolding run_atms
  run_atms-Sent zero i xs ys ms le history = ([], refl, refl, tt)
  run_atms-Sent (suc count) i xs ys ms le history =
      let (s, run, sent, none_left) = run_atm-Sent i xs ys ms (omega arith) history in
      let (ss, runs, size, all) = run_atms-Sent count (suc i) xs ys ms (omega arith) history in
      (
        s ∷ ss,
        ap₂ (λ (x : Option ℕ × AtmState) (xs : List (Option ℕ × AtmState)). x ∷ xs) run runs,
        ap suc size,
        (sent, none_left, all),
      )

  -- banksim is run on a whole trace file, whose counts fit an `int`, with fuel for one round more
  -- than there are messages. The messages reach the bank in any order that keeps each ATM's own as
  -- in the trace: every message is whole, of a known kind and from an ATM of the trace, an ATM that
  -- asks for the balance of an account that there is has an account with its own number, and the
  -- last message is the one with which the last ATM leaves. Then the bank and every ATM end with
  -- success. The messages take the balances from 0 to those at the end as the steps of the ledger
  -- do, in that order, the bank has written the replies of these steps and no others, each to the
  -- ATM of the message, and every ATM has sent its messages of the trace and has no reply left.
  pub banksim-History :
      EndsIn atms rs
      → (b' : Bank) × (ss : List AtmState) × (banksim fuel file buffer e rs
          ≡ simulated (all_successful ss) (some (some success, b', 0)))
        × History accounts rs (replicate accounts 0) b'.accounts b'.outbox
        × (length ss ≡ atms)
        × AllSent cmds 0 ss
  unfolding banksim bank_open written
  banksim-History last =
      let (b', ms, run, out, history) =
        run_bank-History rs (bank_open atms accounts (no_bank e)) atms
          (bank_open-IsOpen atms accounts e ha hc) (omega arith) good last in
      let kept : History accounts rs (replicate accounts 0) b'.accounts b'.outbox =
        rw out (rw (rounds_to_nat accounts hc) at history) in
      let (ss, runs, size, all) =
        run_atms-Sent atms 0 (replicate accounts 0) b'.accounts b'.outbox (omega arith) kept in
      (
        b',
        ss,
        rw
            (
              trace_open_lem atms accounts cmds (omega arith) (omega arith),
              run,
              not_negative atms ha,
              runs,
            )
            refl,
        kept,
        size,
        all,
      )
