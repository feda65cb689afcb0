-- ===== src/Ledger/State.antt =====
-- The state that the accounts live in: go-ethereum's StateDB and the store, which the ledger only
-- calls, as a record of operations with the laws that it relies on; and the ledger's errors.
use korthochain.Common.{ℕ, ◌≡◌, Option, if◌then◌else◌}
use korthochain.Common.Bytes.{Bytes, bytes_eq}
use korthochain.Common.Action.{Action}
use korthochain.Address.{AddressError, Network}

-- `S` is the state of a StateDB; accounts are the twenty bytes of a `common.Address`, balances are
-- the numbers that a `big.Int` holds. `sha1` is the digest, `lookup` a read of the store.
pub record Env (S : Type 0) : Type 0 where
  pub balance_of : S → Bytes → ℕ
  pub put_balance : S → Bytes → ℕ → S
  pub nonce_of : S → Bytes → ℕ
  pub put_nonce : S → Bytes → ℕ → S
  pub sha1 : Bytes → Bytes
  pub lookup : Bytes → Option Bytes
  pub network : Network

-- What a StateDB does: a balance or a nonce is what was last written, and writing one account
-- leaves the other accounts alone.
pub record IsStateDb {S : Type 0} (env : Env S) : Type 0 where
  pub balance-put :
      (s : S) (a : Bytes) (v : ℕ) (b : Bytes)
      → env.balance_of (env.put_balance s a v) b ≡ (if bytes_eq a b then v else env.balance_of s b)
  pub nonce-put :
      (s : S) (a : Bytes) (v : ℕ) (b : Bytes)
      → env.nonce_of (env.put_nonce s a v) b ≡ (if bytes_eq a b then v else env.nonce_of s b)
  pub balance-put_nonce :
      (s : S) (a : Bytes) (v : ℕ) (b : Bytes)
      → env.balance_of (env.put_nonce s a v) b ≡ env.balance_of s b
  pub nonce-put_balance :
      (s : S) (a : Bytes) (v : ℕ) (b : Bytes)
      → env.nonce_of (env.put_balance s a v) b ≡ env.nonce_of s b

pub data LedgerError : Type 0 where
  bad_address : AddressError → LedgerError
  wrong_nonce insufficient too_large too_much_thawed nonzero_amount not_exist : LedgerError
  panicked : LedgerError

abbrev pub LedgerAction : Type 0 → Type 0 → Type 0
LedgerAction S A = Action S LedgerError A
