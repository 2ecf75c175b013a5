-- ===== src/Bank/Atm/Laws.antt =====
-- atm.c: an ATM sends its own messages of a trace, in order, and no others.
use projects_in_c.Base.{
  ℕ, zero, suc, ◌+◌, ◌≤◌, ◌<◌, ◌≡◌, ◌⊎◌, inl, inr, refl, sym, ap, ◌∙◌, List, [], ◌∷◌, ◌++◌, some,
  true, false, ◌==◌, if◌then◌else◌, length, arith, append_assoc, append-nil, Bool-cases,
}
use projects_in_c.Base.Words.{word, slt, IsNat}
use projects_in_c.Bank.Command.{Command, message_size, cmd_unpack, cmd_ok, cmd_nofunds, cmd_accunkn}
use projects_in_c.Bank.Errors.{Errors, success}
use projects_in_c.Bank.Trace.{Trace, trace_read_cmd}
use projects_in_c.Bank.Trace.Format.{body, trace_bytes, read_cmd-cons, read_cmd-nil, trace_open_lem}
use projects_in_c.Bank.Atm.{
  Exchange, AtmState, continue, check_pipe_write, check_pipe_read, reply_status, is_request, send,
  atm, after_status, round, atm_loop, atm_run,
}

-- The pipes carried both messages whole, and the reply is one that the server gives.
pub record IsComplete (x : Exchange) : Type 0 where
  pub wrote_all : message_size ≤ x.wrote
  pub wrote_nat : IsNat x.wrote
  pub got_all : message_size ≤ x.got
  pub got_nat : IsNat x.got
  pub answer :
      ((cmd_unpack x.answer).c ≡ cmd_ok)
      ⊎ ((cmd_unpack x.answer).c ≡ cmd_nofunds)
      ⊎ ((cmd_unpack x.answer).c ≡ cmd_accunkn)

abbrev pub AllComplete : List Exchange → Type 0
AllComplete [] = Unit
AllComplete (x ∷ xs) = IsComplete x × AllComplete xs

-- The messages of a trace that are for the ATM.
abbrev pub own : ℕ → List Command → List Command
own atm_id [] = []
own atm_id (m ∷ ms) = if atm_id == (cmd_unpack m).i then m ∷ own atm_id ms else own atm_id ms

abbrev pub AllRequests : List Command → Type 0
AllRequests [] = Unit
AllRequests (m ∷ ms) = (is_request (cmd_unpack m).c ≡ true) × AllRequests ms

write_full : (n : ℕ) (e : Errors) → message_size ≤ n → IsNat n → check_pipe_write n e ≡ (success, e)
unfolding check_pipe_write slt
write_full n e h s = ground arith

read_full : (n : ℕ) (e : Errors) → message_size ≤ n → IsNat n → check_pipe_read n e ≡ (success, e)
unfolding check_pipe_read slt
read_full n e h s = ground arith

-- A message for another ATM is passed over.
round-other :
    (atm_id : ℕ) (m : Command) (s : AtmState)
    → (atm_id == (cmd_unpack m).i) ≡ false
    → round atm_id m s ≡ (continue, s)
unfolding round atm after_status
round-other atm_id m s e = rw e

-- After a complete exchange the loop goes on.
round-own :
    (atm_id : ℕ) (m : Command) (s : AtmState) (x : Exchange) (xs : List Exchange)
    → (atm_id == (cmd_unpack m).i) ≡ true
    → is_request (cmd_unpack m).c ≡ true
    → s.exchanges ≡ x ∷ xs
    → IsComplete x
    → let (next, s') = round atm_id m s in
      (next ≡ continue) × (s'.exchanges ≡ xs) × (s'.outbox ≡ s.outbox ++ m ∷ [])
unfolding round atm send after_status reply_status
round-own atm_id m s x xs e r ex c =
    rw
      (
        e,
        r,
        ex,
        write_full x.wrote s.errors c.wrote_all c.wrote_nat,
        read_full x.got s.errors c.got_all c.got_nat,
      )
      (ground (arith, c.answer))

-- What a run leaves: the ATM's messages were sent in order, each with an exchange.
pub record Sent (atm_id : ℕ) (cmds : List Command) (s s' : AtmState) : Type 0 where
  pub outbox : s'.outbox ≡ s.outbox ++ own atm_id cmds
  pub used : length s'.exchanges + length (own atm_id cmds) ≡ length s.exchanges

loop_end :
    (fuel atm_id : ℕ) (cmd : Command) (t : Trace) (s : AtmState)
    → t.tracefd ≡ some []
    → atm_loop (suc fuel) atm_id cmd t s ≡ (some success, s)
unfolding atm_loop
loop_end fuel atm_id cmd t s e = let (n, en, end) = read_cmd-nil cmd t e in ground (arith, en, end)

loop_step :
    (fuel atm_id : ℕ) (cmd m : Command) (t t' : Trace) (s : AtmState)
    → trace_read_cmd cmd t ≡ (some message_size, m, t')
    → (round atm_id m s).0 ≡ continue
    → atm_loop (suc fuel) atm_id cmd t s ≡ atm_loop fuel atm_id m t' (round atm_id m s).1
unfolding atm_loop
loop_step fuel atm_id cmd m t t' s e c = ground (arith, e, c)

-- The loop ends with success, and has sent the ATM's messages among `cmds`.
abbrev Runs : ℕ → ℕ → Command → Trace → AtmState → List Command → Type 0
Runs fuel atm_id cmd t s cmds =
    (s' : AtmState) × (atm_loop fuel atm_id cmd t s ≡ (some success, s')) × Sent atm_id cmds s s'

abbrev behind : Trace → List Command → Trace
behind t ms = record t { tracefd = some (body ms) }

-- One round in front of a run.
module _ (fuel atm_id : ℕ) (cmd m : Command) (ms : List Command) (t : Trace) (s : AtmState)
    (e : t.tracefd ≡ some (body (m ∷ ms))) where
  pass_over :
      (atm_id == (cmd_unpack m).i) ≡ false
      → Runs fuel atm_id m (behind t ms) s ms
      → Runs (suc fuel) atm_id cmd t s (m ∷ ms)
  pass_over other (s', run, sent) =
      let same = round-other atm_id m s other in
      (
        s',
        loop_step fuel atm_id cmd m t (behind t ms) s (read_cmd-cons m cmd (body ms) t e)
              (ap (λ z. z.0) same)
            ∙ ap (λ z. atm_loop fuel atm_id m (behind t ms) z.1) same
            ∙ run,
        record { outbox = rw other sent.outbox; used = rw other sent.used },
      )

  serve :
      (x : Exchange) (xs : List Exchange)
      → (atm_id == (cmd_unpack m).i) ≡ true
      → is_request (cmd_unpack m).c ≡ true
      → s.exchanges ≡ x ∷ xs
      → IsComplete x
      → (((round atm_id m s).1.exchanges ≡ xs)
          → Runs fuel atm_id m (behind t ms) (round atm_id m s).1 ms)
      → Runs (suc fuel) atm_id cmd t s (m ∷ ms)
  serve x xs mine r ex c rest_runs =
      let (go, rest, out) = round-own atm_id m s x xs mine r ex c in
      let (s', run, sent) = rest_runs rest in
      (
        s',
        loop_step fuel atm_id cmd m t (behind t ms) s (read_cmd-cons m cmd (body ms) t e) go ∙ run,
        record {
          outbox = rw mine (
              sent.outbox
              ∙ ap (λ o. o ++ own atm_id ms) out
              ∙ append_assoc s.outbox (m ∷ []) (own atm_id ms));
          used = rw mine (omega (arith, sent.used, ap length rest, ap length ex));
        },
      )

atm_loop-Sent :
    (cmds : List Command) (xs : List Exchange) (fuel atm_id : ℕ) (cmd : Command) (t : Trace)
    (s : AtmState)
    → length cmds < fuel
    → t.tracefd ≡ some (body cmds)
    → s.exchanges ≡ xs
    → AllComplete xs
    → AllRequests (own atm_id cmds)
    → length (own atm_id cmds) ≤ length xs
    → Runs fuel atm_id cmd t s cmds
atm_loop-Sent cmds xs zero atm_id cmd t s h e ex c r enough = absurd (omega arith)
atm_loop-Sent [] xs (suc fuel) atm_id cmd t s h e ex c r enough = (
  s,
  loop_end fuel atm_id cmd t s e,
  record { outbox = sym (append-nil s.outbox); used = omega arith },
)
atm_loop-Sent (m ∷ ms) [] (suc fuel) atm_id cmd t s h e ex c r enough =
    elim (Bool-cases (atm_id == (cmd_unpack m).i)) [
      | inr other ↦ pass_over fuel atm_id cmd m ms t s e other (
          atm_loop-Sent ms [] fuel atm_id m (behind t ms) s (omega arith) refl ex c (rw other at r)
            (rw other at enough))
      | inl mine ↦
          let none_left : length (m ∷ own atm_id ms) ≤ 0 = rw mine at enough in absurd (omega arith)
    ]
atm_loop-Sent (m ∷ ms) (x ∷ xs) (suc fuel) atm_id cmd t s h e ex c r enough =
    elim (Bool-cases (atm_id == (cmd_unpack m).i)) [
      | inr other ↦ pass_over fuel atm_id cmd m ms t s e other (
          atm_loop-Sent ms (x ∷ xs) fuel atm_id m (behind t ms) s (omega arith) refl ex c
            (rw other at r) (rw other at enough))
      | inl mine ↦
          let (request, others) : (is_request (cmd_unpack m).c ≡ true)
              × AllRequests (own atm_id ms) =
            rw mine at r in
          let left : length (m ∷ own atm_id ms) ≤ length (x ∷ xs) = rw mine at enough in
          serve fuel atm_id cmd m ms t s e x xs mine request ex c.0 (λ rest.
            atm_loop-Sent ms xs fuel atm_id m (behind t ms) (round atm_id m s).1 (omega arith) refl
              rest c.1 others (omega arith))
    ]

-- On a whole trace file whose messages for the ATM are all requests, with a complete exchange for
-- each of them and fuel for one round more than there are messages, the ATM ends with success,
-- and has sent exactly its own messages, in the order of the trace.
pub atm_run-own :
    (atms accounts atm_id fuel : ℕ) (cmds : List Command) (cmd : Command) (s : AtmState)
    → atms < word
    → accounts < word
    → length cmds < fuel
    → AllComplete s.exchanges
    → AllRequests (own atm_id cmds)
    → length (own atm_id cmds) ≤ length s.exchanges
    → (s' : AtmState) × (atm_run fuel (some (trace_bytes atms accounts cmds)) atm_id cmd s
        ≡ (some success, s'))
      × Sent atm_id cmds s s'
unfolding atm_run
atm_run-own atms accounts atm_id fuel cmds cmd s ha hc h c r enough =
    let t : Trace = record { tracefd = some (body cmds); atm_cnt = atms; account_cnt = accounts } in
    let (s', run, sent) =
      atm_loop-Sent cmds s.exchanges fuel atm_id cmd t s h refl refl c r enough in
    (s', ground (arith, trace_open_lem atms accounts cmds ha hc, run), sent)
