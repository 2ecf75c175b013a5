-- ===== src/Bank/Treader/Lines.antt =====
-- treader.c: what is printed for a trace file that was written whole.
use projects_in_c.Base.{
  ℕ, zero, suc, ◌<◌, ◌≡◌, refl, ap, ◌∙◌, List, [], ◌∷◌, ◌++◌, some, Bool, true, false, length, drop,
  get_elem?, get_or, append_assoc, append-nil, arith,
}
use projects_in_c.Base.Words.{word}
use projects_in_c.Base.Text.{codes}
use projects_in_c.Base.Decimal.{digits, print_int}
use projects_in_c.Bank.Command.{Command, Parts, message_size, cmd_pack, cmd_unpack-cmd_pack}
use projects_in_c.Bank.Server.Ledger.{AreWords}
use projects_in_c.Bank.Trace.{
  Trace, trace_atm_count, trace_account_count, trace_close, trace_read_cmd, command_of,
  command_bytes,
}
use projects_in_c.Bank.Trace.Format.{body, trace_bytes, read_cmd-cons, trace_open_lem}
use projects_in_c.Bank.Treader.{cmd_strings, cmd_dump, dump_loop, print_counts, treader}

-- A message of a kind that has a name, with its parts.
pub record IsNamed (p : Parts) : Type 0 where
  pub words : AreWords p
  pub kind : p.c < 10

abbrev pub AllNamed : List Parts → Type 0
AllNamed [] = Unit
AllNamed (p ∷ ps) = IsNamed p × AllNamed ps

abbrev pub packed : List Parts → List Command
packed [] = []
packed (p ∷ ps) = cmd_pack p.c p.i p.f p.t p.a ∷ packed ps

-- The numbers of a message, a space in front of each.
abbrev pub spaced : List ℕ → List ℕ
spaced [] = []
spaced (x ∷ xs) = b' ' ∷ print_int x ++ spaced xs

-- One line for each message: its kind and its numbers.
abbrev pub lines : List Parts → List ℕ
lines [] = []
lines (p ∷ ps) =
    codes "TREADER[0] "
    ++ get_or cmd_strings p.c []
    ++ spaced (p.i ∷ p.f ∷ p.t ∷ p.a ∷ [])
    ++ b'\n' ∷ lines ps

found {ℓ} :
    {A : Type ℓ} (xs : List A) (i : ℕ) (d : A)
    → i < length xs
    → get_elem? xs i ≡ some (get_or xs i d)
found [] i d h = absurd (omega arith)
found (x ∷ xs) zero d h = refl
found (x ∷ xs) (suc i) d h = found xs i d (omega arith)

-- A line, as `cmd_dump` puts it together.
abbrev line_of : Parts → List ℕ
line_of p =
    codes "TREADER[0] "
    ++ get_or cmd_strings p.c []
    ++ b' ' ∷ print_int p.i
    ++ b' ' ∷ print_int p.f
    ++ b' ' ∷ print_int p.t
    ++ b' ' ∷ print_int p.a
    ++ b'\n' ∷ []

dumped :
    (p : Parts)
    → IsNamed p
    → cmd_dump true (codes "TREADER") 0 (cmd_pack p.c p.i p.f p.t p.a) ≡ some (line_of p)
unfolding cmd_dump print_int digits
dumped p h =
    rw
      (
        cmd_unpack-cmd_pack p.c p.i p.f p.t p.a h.words.i h.words.f h.words.t h.words.a,
        found cmd_strings p.c [] h.kind,
      )
      refl

lines-step : (p : Parts) (ps : List Parts) → line_of p ++ lines ps ≡ lines (p ∷ ps)
lines-step p ps = simp (append_assoc, append-nil)

hidden : (p : Command) → cmd_dump false (codes "TREADER") 0 p ≡ some []
unfolding cmd_dump
hidden p = refl

read_end :
    (cmd : Command) (t : Trace)
    → t.tracefd ≡ some []
    → (m : Command) × (trace_read_cmd cmd t ≡ (some 0, m, record t { tracefd = some [] }))
unfolding trace_read_cmd
read_end cmd t e = (command_of (drop 0 (command_bytes cmd)), rw e refl)

module _ (fuel : ℕ) (cmd : Command) (t : Trace) (debug : Bool) where
  dump_loop-end :
      t.tracefd ≡ some []
      → dump_loop (suc fuel) debug cmd t ≡ some ([], record t { tracefd = some [] })
  unfolding dump_loop
  dump_loop-end e = let (m, at_end) = read_end cmd t e in rw (dump_loop, at_end) refl

  dump_loop-step :
      (m : Command) (t' t'' : Trace) (text texts : List ℕ)
      → trace_read_cmd cmd t ≡ (some message_size, m, t')
      → cmd_dump debug (codes "TREADER") 0 m ≡ some text
      → dump_loop fuel debug m t' ≡ some (texts, t'')
      → dump_loop (suc fuel) debug cmd t ≡ some (text ++ texts, t'')
  unfolding dump_loop
  dump_loop-step m t' t'' text texts e shown rest = rw (dump_loop, e, shown, rest) refl

-- What the loop prints: a line for each message, or nothing where BANKSIM_DEBUG is not set.
abbrev pub shown : Bool → List Parts → List ℕ
shown true ps = lines ps
shown false ps = []

dump_loop-shown :
    (ps : List Parts) (fuel : ℕ) (cmd : Command) (t : Trace) (debug : Bool)
    → length ps < fuel
    → t.tracefd ≡ some (body (packed ps))
    → AllNamed ps
    → dump_loop fuel debug cmd t ≡ some (shown debug ps, record t { tracefd = some [] })
dump_loop-shown ps zero cmd t debug h e named = absurd (omega arith)
dump_loop-shown [] (suc fuel) cmd t true h e named = dump_loop-end fuel cmd t true e
dump_loop-shown [] (suc fuel) cmd t false h e named = dump_loop-end fuel cmd t false e
dump_loop-shown (p ∷ ps) (suc fuel) cmd t true h e (n, ns) =
    let m : Command = cmd_pack p.c p.i p.f p.t p.a in
    let t' : Trace = record t { tracefd = some (body (packed ps)) } in
    dump_loop-step fuel cmd t true m t' (record t { tracefd = some [] }) (line_of p) (lines ps)
      (read_cmd-cons m cmd (body (packed ps)) t e) (dumped p n)
      (dump_loop-shown ps fuel m t' true (omega arith) refl ns)
    ∙ ap (λ (cs : List ℕ). some (cs, record t { tracefd = some [] })) (lines-step p ps)
dump_loop-shown (p ∷ ps) (suc fuel) cmd t false h e (n, ns) =
    let m : Command = cmd_pack p.c p.i p.f p.t p.a in
    let t' : Trace = record t { tracefd = some (body (packed ps)) } in
    dump_loop-step fuel cmd t false m t' (record t { tracefd = some [] }) [] []
      (read_cmd-cons m cmd (body (packed ps)) t e) (hidden m)
      (dump_loop-shown ps fuel m t' false (omega arith) refl ns)

-- For a whole trace file, whose messages are of kinds that have a name and carry words, and with
-- fuel for one round more than there are messages, treader ends with the status 0. It prints the
-- two counts, and then, where BANKSIM_DEBUG is set, a line for each message in their order, with
-- the name of its kind and its four numbers, and nothing where it is not set.
pub treader-shown :
    (atms accounts fuel : ℕ) (ps : List Parts) (program path : List ℕ) (cmd : Command)
    (debug : Bool)
    → atms < word
    → accounts < word
    → length ps < fuel
    → AllNamed ps
    → treader fuel debug program path (some (trace_bytes atms accounts (packed ps))) cmd
      ≡ some (
        0,
        (codes "number of ATMs: " ++ print_int atms ++ b'\n' ∷ [])
            ++ (codes "number of accounts: " ++ print_int accounts ++ b'\n' ∷ [])
            ++ shown debug ps,
      )
unfolding treader print_counts trace_close trace_atm_count trace_account_count
treader-shown atms accounts fuel ps program path cmd debug ha hc h named =
    let t : Trace = record {
      tracefd = some (body (packed ps));
      atm_cnt = atms;
      account_cnt = accounts;
    } in
    rw
      (
        trace_open_lem atms accounts (packed ps) ha hc,
        dump_loop-shown ps fuel cmd t debug h refl named,
      )
      (simp (append_assoc, append-nil))
