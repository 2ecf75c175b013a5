-- ===== src/Bank/Twriter/Written.antt =====
-- twriter.c: what the trace file holds.
use projects_in_c.Base.{
  ℕ, zero, suc, ◌+◌, ◌-◌, ◌*◌, ◌%◌, ◌≤◌, ◌<◌, ◌≡◌, ◌⊎◌, inl, inr, refl, ap, List, [], ◌∷◌, ◌++◌,
  some, true, lt→ltb, arith, length,
}
use projects_in_c.Base.Words.{int_sign, sub}
use projects_in_c.Bank.Command.{Command, msg_deposit, msg_withdraw, msg_transfer, msg_balance}
use projects_in_c.Bank.Trace.{trace_start, trace_open}
use projects_in_c.Bank.Trace.Format.{body, trace_bytes, trace_open_lem}
use projects_in_c.Bank.Twriter.{
  long_of_int, random_at_most, connects, exits, deposits, choose, transaction, transactions,
  last_of, write_all, twriter,
}
use projects_in_c.Bank.Twriter.Random.{good, random_at_most_lem}

-- A request that the writer makes up: an ATM, accounts and an amount that there are.
pub record IsTransaction (atms accounts : ℕ) (m : Command) : Type 0 where
  pub atm : ℕ
  pub from : ℕ
  pub to : ℕ
  pub amount : ℕ
  pub atm-lt : atm < atms
  pub from-lt : from < accounts
  pub to-lt : to < accounts
  pub amount-le : amount ≤ 200
  pub made :
      (m ≡ msg_withdraw atm from amount)
      ⊎ ((m ≡ msg_transfer atm from to amount) ⊎ (m ≡ msg_balance atm from))

abbrev pub AreTransactions : ℕ → ℕ → List Command → Type 0
AreTransactions atms accounts [] = Unit
AreTransactions atms accounts (m ∷ ms) =
    IsTransaction atms accounts m × AreTransactions atms accounts ms

-- From account `i` on, each account gets 5000 from some ATM.
abbrev pub AreDeposits : ℕ → ℕ → List Command → Type 0
AreDeposits atms i [] = Unit
AreDeposits atms i (m ∷ ms) =
    ((atm : ℕ) × (atm < atms) × (m ≡ msg_deposit atm i 5000)) × AreDeposits atms (i + 1) ms

one_less : (n : ℕ) → 0 < n → n < int_sign → long_of_int (sub n 1) ≡ n - 1
unfolding sub
one_less n pos small = ground arith

choose_lem :
    (kind : ℕ) (cmd : Command) (atm from to amount : ℕ)
    → kind ≤ 2
    → (choose (kind % 256 + 4) cmd atm from to amount ≡ msg_withdraw atm from amount)
      ⊎ ((choose (kind % 256 + 4) cmd atm from to amount ≡ msg_transfer atm from to amount)
          ⊎ (choose (kind % 256 + 4) cmd atm from to amount ≡ msg_balance atm from))
unfolding choose
choose_lem zero cmd atm from to amount h = inl refl
choose_lem (suc zero) cmd atm from to amount h = inr (inl refl)
choose_lem (suc (suc zero)) cmd atm from to amount h = inr (inr refl)
choose_lem (suc (suc (suc n))) cmd atm from to amount h = absurd (omega arith)

module _ (rand_max atms accounts most : ℕ) (some_atm : 0 < atms) (atms-lt : atms < int_sign)
    (accounts-lt : accounts < int_sign) (few_atms : atms ≤ most) (few_accounts : accounts ≤ most)
    (amounts : 201 ≤ most) (high : most ≤ rand_max + 1) where
  left : List ℕ → ℕ
  left = good (rand_max + 1 - most)

  random_below :
      (n k : ℕ) (rs : List ℕ)
      → 0 < n
      → n < int_sign
      → n ≤ most
      → k < left rs
      → (x : ℕ) × (rs' : List ℕ) × (random_at_most rand_max (long_of_int (sub n 1)) rs
          ≡ some (x, rs'))
        × (x < n)
        × (k ≤ left rs')
  unfolding left
  random_below n k rs pos small few enough =
      let (x, rs', e, range, rest) =
        random_at_most_lem rand_max (n - 1) most k rs (omega (arith, small))
          (omega (arith, few, pos)) high enough in
      (x, rs', rw (one_less n pos small) e, omega (arith, range, pos), rest)

  transaction_lem :
      (k : ℕ) (cmd : Command) (rs : List ℕ)
      → 0 < accounts
      → k + 5 ≤ left rs
      → (m : Command) × (rs' : List ℕ) × (transaction rand_max atms accounts cmd rs ≡ some (m, rs'))
        × IsTransaction atms accounts m
        × (k ≤ left rs')
  unfolding transaction left
  transaction_lem k cmd rs some_account enough =
      let (atm, rs₁, e₁, h₁, g₁) =
        random_below atms (k + 4) rs some_atm atms-lt few_atms (omega arith) in
      let (from, rs₂, e₂, h₂, g₂) =
        random_below accounts (k + 3) rs₁ some_account accounts-lt few_accounts
          (omega (arith, g₁)) in
      let (to, rs₃, e₃, h₃, g₃) =
        random_below accounts (k + 2) rs₂ some_account accounts-lt few_accounts
          (omega (arith, g₂)) in
      let (amount, rs₄, e₄, h₄, g₄) =
        random_at_most_lem rand_max 200 most (k + 1) rs₃ (omega arith) (omega (arith, amounts)) high
          (omega (arith, g₃)) in
      let (kind, rs₅, e₅, h₅, g₅) =
        random_at_most_lem rand_max 2 most k rs₄ (omega arith) (omega (arith, amounts)) high
          (omega (arith, g₄)) in
      (
        choose (kind % 256 + 4) cmd atm from to amount,
        rs₅,
        rw (e₁, e₂, e₃, e₄, e₅),
        record {
          atm = atm;
          from = from;
          to = to;
          amount = amount;
          atm-lt = h₁;
          from-lt = h₂;
          to-lt = h₃;
          amount-le = h₄;
          made = choose_lem kind cmd atm from to amount h₅;
        },
        g₅,
      )

  transactions_lem :
      (n k : ℕ) (cmd : Command) (rs : List ℕ)
      → 0 < accounts
      → k + 5 * n ≤ left rs
      → (ms : List Command) × (rs' : List ℕ) × (transactions rand_max atms accounts n cmd rs
          ≡ some (ms, rs'))
        × (length ms ≡ n)
        × AreTransactions atms accounts ms
  unfolding transactions
  transactions_lem zero k cmd rs some_account enough = ([], rs, refl, refl, tt)
  transactions_lem (suc n) k cmd rs some_account enough =
      let (m, rs₁, e, made, g) = transaction_lem (k + 5 * n) cmd rs some_account (omega arith) in
      let (ms, rs₂, es, len, all) = transactions_lem n k m rs₁ some_account g in
      (m ∷ ms, rs₂, rw (e, es), ap suc len, (made, all))

  deposits_lem :
      (n k i : ℕ) (rs : List ℕ)
      → k + n ≤ left rs
      → (ms : List Command) × (rs' : List ℕ) × (deposits rand_max atms n i rs ≡ some (ms, rs'))
        × (length ms ≡ n)
        × AreDeposits atms i ms
        × (k ≤ left rs')
  unfolding deposits
  deposits_lem zero k i rs enough = ([], rs, refl, refl, tt, omega arith)
  deposits_lem (suc n) k i rs enough =
      let (atm, rs₁, e, h, g) =
        random_below atms (k + n) rs some_atm atms-lt few_atms (omega arith) in
      let (ms, rs₂, es, len, all, rest) = deposits_lem n k (i + 1) rs₁ g in
      (msg_deposit atm i 5000 ∷ ms, rs₂, rw (e, es), ap suc len, ((atm, h, refl), all), rest)

write_all-body : (cs : List Command) → write_all cs ≡ body cs
unfolding write_all
write_all-body [] = refl
write_all-body (c ∷ cs) = rw (write_all-body cs)

-- With at least one ATM and one account, and with enough results of `rand` that are not among the `most`
-- highest (one for each account and five for each transaction, where `most` is at least 201 and no fewer
-- than the ATMs or the accounts), the writer ends. The server's `trace_open` reads from its file the two
-- counts and these messages: every ATM connects, every account in turn gets 5000 from an ATM that there
-- is, then come the transactions, as many as were asked for, each a withdrawal, a transfer or a question
-- for a balance with an ATM and accounts that there are and an amount of at most 200, and every ATM
-- leaves.
pub twriter_lem :
    (rand_max atms accounts count most : ℕ) (cmd : Command) (rs : List ℕ)
    → 0 < atms
    → atms < int_sign
    → 0 < accounts
    → accounts < int_sign
    → count < int_sign
    → atms ≤ most
    → accounts ≤ most
    → 201 ≤ most
    → most ≤ rand_max + 1
    → accounts + 5 * count ≤ good (rand_max + 1 - most) rs
    → (file : List ℕ) × (ds ts : List Command) × (twriter rand_max atms accounts count cmd rs
        ≡ some file)
      × (trace_open (some file) trace_start ≡ (
        true,
        record {
          tracefd = some (body (connects atms 0 ++ (ds ++ (ts ++ exits atms 0))));
          atm_cnt = atms;
          account_cnt = accounts;
        },
      ))
      × (length ds ≡ accounts)
      × AreDeposits atms 0 ds
      × (length ts ≡ count)
      × AreTransactions atms accounts ts
unfolding twriter left
twriter_lem rand_max atms accounts count most cmd rs pos small pos' small' small'' few few' amounts
      high enough =
    let cs = connects atms 0 in
    let (ds, rs₁, e₁, len₁, all₁, g₁) =
      deposits_lem rand_max atms accounts most pos small small' few few' amounts high accounts
        (5 * count) 0 rs (omega (arith, enough)) in
    let (ts, rs₂, e₂, len₂, all₂) =
      transactions_lem rand_max atms accounts most pos small small' few few' amounts high count 0
        (last_of (cs ++ ds) cmd) rs₁ pos' (omega (arith, g₁)) in
    let cmds = cs ++ (ds ++ (ts ++ exits atms 0)) in
    (
      trace_bytes atms accounts cmds,
      ds,
      ts,
      rw (
        lt→ltb atms int_sign small,
        lt→ltb accounts int_sign small',
        lt→ltb count int_sign small'',
        e₁,
        e₂,
        write_all-body cmds,
      ),
      trace_open_lem atms accounts cmds (omega (arith, small)) (omega (arith, small')),
      len₁,
      all₁,
      len₂,
      all₂,
    )
