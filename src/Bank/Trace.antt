-- ===== src/Bank/Trace.antt =====
-- trace.h and trace.c: a trace file is two counts and then the messages, 17 bytes each.
pub mod Format
use projects_in_c.Base.{
  ℕ, zero, suc, ◌+◌, ◌-◌, ◌*◌, ◌^◌, List, [], ◌∷◌, ◌++◌, Option, none, some, Bool, true, false, ltb,
  if◌then◌else◌, length, take, drop, get_or,
}
use projects_in_c.Bank.Command.{Bytes4, Command, message_size, unpack_int}
use Prim.Native.Nat.{bit_or}

-- `tracefd` is `none` for -1; an open descriptor is the bytes that are left in the file.
pub record Trace : Type 0 where
  pub tracefd : Option (List ℕ)
  pub atm_cnt : ℕ
  pub account_cnt : ℕ

abbrev pub trace_start : Trace
trace_start = record { tracefd = none; atm_cnt = 0; account_cnt = 0 }

-- The word of the first four bytes of a list.
unfoldable pub word_of : List ℕ → ℕ
word_of bs =
    unpack_int
      (record { b0 = get_or bs 0 0; b1 = get_or bs 1 0; b2 = get_or bs 2 0; b3 = get_or bs 3 0 })

-- `trace_open`: whether the result is 1 and not -1. The counts are `|=`-ed into what the variables
-- hold already. `open` has given the file's bytes, or has failed.
unfoldable pub trace_open : Option (List ℕ) → Trace → Bool × Trace
unfolding word_of
trace_open none t = (false, record t { tracefd = none })
trace_open (some bs) t =
    if ltb (length bs) 4
    then (false, record t { tracefd = some [] })
    else (let t₁ : Trace = record t {
      tracefd = some (drop 4 bs);
      atm_cnt = bit_or t.atm_cnt (word_of bs);
    } in
        if ltb (length (drop 4 bs)) 4 then (false, record t₁ { tracefd = some [] }) else (
          true,
          record t₁ {
            tracefd = some (drop 4 (drop 4 bs));
            account_cnt = bit_or t.account_cnt (word_of (drop 4 bs));
          },
        ))

-- A fault is the failed assertion that a trace is open.
unfoldable pub trace_close : Trace → Option Trace
trace_close t = elim t.tracefd [ none ↦ none | some bs ↦ some trace_start ]

unfoldable pub trace_atm_count : Trace → ℕ
trace_atm_count t = t.atm_cnt

unfoldable pub trace_account_count : Trace → ℕ
trace_account_count t = t.account_cnt

abbrev pub bytes_of4 : Bytes4 → List ℕ
bytes_of4 b = b.b0 ∷ b.b1 ∷ b.b2 ∷ b.b3 ∷ []

-- The bytes of a message in memory.
unfoldable pub command_bytes : Command → List ℕ
command_bytes m = m.cmd ∷ bytes_of4 m.id ++ bytes_of4 m.from ++ bytes_of4 m.to ++ bytes_of4 m.amt

abbrev pub four : List ℕ → ℕ → Bytes4
four bs i = record {
  b0 = get_or bs i 0;
  b1 = get_or bs (i + 1) 0;
  b2 = get_or bs (i + 2) 0;
  b3 = get_or bs (i + 3) 0;
}

-- The message with the given bytes.
unfoldable pub command_of : List ℕ → Command
command_of bs = record {
  cmd = get_or bs 0 0;
  id = four bs 1;
  from = four bs 5;
  to = four bs 9;
  amt = four bs 13;
}

-- `trace_read_cmd`: the result of `read`, the buffer, of which a short read fills only the front,
-- and the trace afterwards. With no open file the result is -1, here `none`.
unfoldable pub trace_read_cmd : Command → Trace → Option ℕ × Command × Trace
unfolding command_bytes command_of
trace_read_cmd cmd t = elim t.tracefd [
  | none ↦ (none, cmd, t)
  | some bs ↦
      let got = take message_size bs in
      (
        some (length got),
        command_of (got ++ drop (length got) (command_bytes cmd)),
        record t { tracefd = some (drop message_size bs) },
      )
]
