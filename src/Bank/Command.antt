-- ===== src/Bank/Command.antt =====
-- command.h and command.c: a message is a command byte and four `int`s of four bytes each.
use projects_in_c.Base.{ℕ, ◌+◌, ◌*◌, ◌/◌, ◌%◌, ◌^◌, ◌<◌, ◌≡◌, arith}
use projects_in_c.Base.Words.{word, minus_one}

pub record Bytes4 : Type 0 where
  pub b0 : ℕ
  pub b1 : ℕ
  pub b2 : ℕ
  pub b3 : ℕ

pub record Command : Type 0 where
  pub cmd : ℕ
  pub id : Bytes4
  pub from : Bytes4
  pub to : Bytes4
  pub amt : Bytes4

abbrev pub message_size : ℕ
message_size = 17

abbrev pub cmd_ok : ℕ
cmd_ok = 0

abbrev pub cmd_connect : ℕ
cmd_connect = 1

abbrev pub cmd_exit : ℕ
cmd_exit = 2

abbrev pub cmd_deposit : ℕ
cmd_deposit = 3

abbrev pub cmd_withdraw : ℕ
cmd_withdraw = 4

abbrev pub cmd_transfer : ℕ
cmd_transfer = 5

abbrev pub cmd_balance : ℕ
cmd_balance = 6

abbrev pub cmd_nofunds : ℕ
cmd_nofunds = 7

abbrev pub cmd_accunkn : ℕ
cmd_accunkn = 9

-- `pack_int`: the bytes of a word, the highest first.
unfoldable pub pack_int : ℕ → Bytes4
pack_int x = record {
  b0 = x / 2 ^ 24 % 256;
  b1 = x / 2 ^ 16 % 256;
  b2 = x / 2 ^ 8 % 256;
  b3 = x % 256;
}

-- `unpack_int`. The shifted bytes share no bit, so that `|` is a sum.
unfoldable pub unpack_int : Bytes4 → ℕ
unpack_int b = b.b0 * 2 ^ 24 + b.b1 * 2 ^ 16 + b.b2 * 2 ^ 8 + b.b3

unfoldable pub cmd_pack : (c id from to amt : ℕ) → Command
cmd_pack c id from to amt = record {
  cmd = c;
  id = pack_int id;
  from = pack_int from;
  to = pack_int to;
  amt = pack_int amt;
}

-- The parts of a message.
pub record Parts : Type 0 where
  pub c : ℕ
  pub i : ℕ
  pub f : ℕ
  pub t : ℕ
  pub a : ℕ

unfoldable pub cmd_unpack : Command → Parts
cmd_unpack cmd = record {
  c = cmd.cmd;
  i = unpack_int cmd.id;
  f = unpack_int cmd.from;
  t = unpack_int cmd.to;
  a = unpack_int cmd.amt;
}

-- The macros that build the bank's messages.
abbrev pub msg_ok : (id f t a : ℕ) → Command
msg_ok id f t a = cmd_pack cmd_ok id f t a

abbrev pub msg_nofunds : (id f a : ℕ) → Command
msg_nofunds id f a = cmd_pack cmd_nofunds id f minus_one a

abbrev pub msg_accunkn : (id t : ℕ) → Command
msg_accunkn id t = cmd_pack cmd_accunkn id minus_one t minus_one

-- The macros that build the messages of a trace.
abbrev pub msg_connect : (id : ℕ) → Command
msg_connect id = cmd_pack cmd_connect id minus_one minus_one minus_one

abbrev pub msg_exit : (id : ℕ) → Command
msg_exit id = cmd_pack cmd_exit id minus_one minus_one minus_one

abbrev pub msg_deposit : (id t a : ℕ) → Command
msg_deposit id t a = cmd_pack cmd_deposit id minus_one t a

abbrev pub msg_withdraw : (id f a : ℕ) → Command
msg_withdraw id f a = cmd_pack cmd_withdraw id f minus_one a

abbrev pub msg_transfer : (id f t a : ℕ) → Command
msg_transfer id f t a = cmd_pack cmd_transfer id f t a

abbrev pub msg_balance : (id f : ℕ) → Command
msg_balance id f = cmd_pack cmd_balance id f minus_one minus_one

pub unpack_int-pack_int : (x : ℕ) → x < word → unpack_int (pack_int x) ≡ x
unfolding unpack_int pack_int
unpack_int-pack_int x h = omega arith

-- A byte each.
pub record IsBytes (b : Bytes4) : Type 0 where
  pub h0 : b.b0 < 256
  pub h1 : b.b1 < 256
  pub h2 : b.b2 < 256
  pub h3 : b.b3 < 256

-- Four bytes that are unpacked to a word and packed again are the same bytes.
pub pack_int-unpack_int : (b : Bytes4) → IsBytes b → pack_int (unpack_int b) ≡ b
unfolding unpack_int pack_int
pack_int-unpack_int b h = ground arith

-- The parts of a packed message are those that were packed, for a command byte and any four words.
pub cmd_unpack-cmd_pack :
    (c i f t a : ℕ)
    → i < word
    → f < word
    → t < word
    → a < word
    → cmd_unpack (cmd_pack c i f t a) ≡ record { c = c; i = i; f = f; t = t; a = a }
unfolding cmd_unpack cmd_pack
cmd_unpack-cmd_pack c i f t a hi hf ht ha = ground (
  arith,
  unpack_int-pack_int i hi,
  unpack_int-pack_int f hf,
  unpack_int-pack_int t ht,
  unpack_int-pack_int a ha,
)
