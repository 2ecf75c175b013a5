-- ===== src/Bank/Server/Checks.antt =====
-- bank.c: what the checks of ids, reads and writes decide.
use projects_in_c.Base.{ℕ, ◌≤◌, ◌<◌, ◌≡◌, not, ◌&&◌, ltb, arith, length}
use projects_in_c.Base.Words.{word, slt, IsNat}
use projects_in_c.Bank.Command.{message_size}
use projects_in_c.Bank.Errors.{Errors, success, err_unknown_account, err_unknown_atm}
use projects_in_c.Bank.Server.{
  Bank, check_pipe_write, check_pipe_read, check_valid_atm, check_valid_account,
}

-- The counts fit an `int`, and there are as many accounts as they say.
pub record IsOpen (b : Bank) : Type 0 where
  pub size : length b.accounts ≡ b.account_count
  pub accounts_fit : IsNat b.account_count
  pub atms_fit : IsNat b.atm_count

-- The two banks differ at most in the last error.
pub record SameBut (b b' : Bank) : Type 0 where
  pub accounts : b'.accounts ≡ b.accounts
  pub account_count : b'.account_count ≡ b.account_count
  pub atm_count : b'.atm_count ≡ b.atm_count
  pub outbox : b'.outbox ≡ b.outbox

-- `0 <= x && x < n` on `int`, for a word `x` and a count `n`.
pub in_range : (x n : ℕ) → x < word → IsNat n → (not (slt x 0) && slt x n) ≡ ltb x n
unfolding slt
in_range x n hx hn = ground arith

module _ (b : Bank) (x : ℕ) (hx : x < word) where
  pub check_valid_account-yes :
      IsNat b.account_count → x < b.account_count → check_valid_account x b ≡ (success, b)
  unfolding check_valid_account
  check_valid_account-yes hn h = rw (in_range x b.account_count hx hn) (ground arith)

  pub check_valid_account-no :
      IsNat b.account_count
      → b.account_count ≤ x
      → ((check_valid_account x b).0 ≡ err_unknown_account) × SameBut b (check_valid_account x b).1
  unfolding check_valid_account
  check_valid_account-no hn h = rw (in_range x b.account_count hx hn) (ground arith)

  pub check_valid_atm-yes : IsNat b.atm_count → x < b.atm_count → check_valid_atm x b ≡ (success, b)
  unfolding check_valid_atm
  check_valid_atm-yes hn h = rw (in_range x b.atm_count hx hn) (ground arith)

  pub check_valid_atm-no :
      IsNat b.atm_count
      → b.atm_count ≤ x
      → ((check_valid_atm x b).0 ≡ err_unknown_atm) × SameBut b (check_valid_atm x b).1
  unfolding check_valid_atm
  check_valid_atm-no hn h = rw (in_range x b.atm_count hx hn) (ground arith)

-- A complete message has been read, or written.
pub check_pipe_read-full :
    (n : ℕ) (e : Errors) → message_size ≤ n → IsNat n → check_pipe_read n e ≡ (success, e)
unfolding check_pipe_read slt
check_pipe_read-full n e h s = ground arith

pub check_pipe_write-full :
    (n : ℕ) (e : Errors) → message_size ≤ n → IsNat n → check_pipe_write n e ≡ (success, e)
unfolding check_pipe_write slt
check_pipe_write-full n e h s = ground arith
