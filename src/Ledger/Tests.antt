-- ===== src/Ledger/Tests.antt =====
-- Runs of the ledger on a concrete StateDB: two functions from accounts to numbers.
use korthochain.Common.{
  ℕ, ◌+◌, ◌^◌, ◌<◌, ◌≡◌, ◌≢◌, refl, ap, [], ◌∷◌, ◌++◌, none, arith, take, if◌then◌else◌,
}
use korthochain.Common.Bytes.{Bytes, bytes_eq}
use korthochain.Common.Digits.{replicate}
use korthochain.Common.Outcome.{ok, err}
use korthochain.Address.{Address, mainnet, new_common_addr}
use korthochain.Transaction.{FinishedTransaction, transfer_transaction}
use korthochain.Ledger.State.{Env, IsStateDb, LedgerError}
use korthochain.Ledger.{set_account, common_addr, default_nonce, store_addr}
use korthochain.Ledger.Laws.{IsTransfer, set_account-refused}
use korthochain.Ledger.Branches.{IsSender}
use korthochain.Ledger.Supply.{total}
use korthochain.Ledger.Fees.{transfer_balances, transfer_total}

abbrev pub Accounts : Type 0
Accounts = (Bytes → ℕ) × (Bytes → ℕ)

-- The digest keeps the first twenty bytes.
abbrev pub plain_env : Env Accounts
plain_env = record {
  balance_of = λ s a. s.0 a;
  put_balance = λ s a v. ((λ b. if bytes_eq a b then v else s.0 b), s.1);
  nonce_of = λ s a. s.1 a;
  put_nonce = λ s a v. (s.0, (λ b. if bytes_eq a b then v else s.1 b));
  sha1 = λ b. take 20 (b ++ replicate 20 0);
  lookup = λ b. none;
  network = mainnet;
}

pub plain_env-IsStateDb : IsStateDb plain_env
plain_env-IsStateDb = record {
  balance-put = λ s a v b. refl;
  nonce-put = λ s a v b. refl;
  balance-put_nonce = λ s a v b. refl;
  nonce-put_balance = λ s a v b. refl;
}

abbrev pub account : ℕ → Bytes
account n = replicate 20 n

abbrev pub address : ℕ → Address
address n = record { payload = 0 ∷ account n }

-- Account 1 has 100, account 2 has 5, all others have nothing.
abbrev pub start : Accounts
start = (
  (λ a. if bytes_eq a (account 1) then 100 else if bytes_eq a (account 2) then 5 else 0),
  (λ a. 0),
)

abbrev pub payment : ℕ → FinishedTransaction
payment amount = record {
  signed = record {
    transaction = record {
      version = 1;
      kind = transfer_transaction;
      from = address 1;
      to = address 2;
      amount = amount;
      nonce = 2;
      gas_limit = 10;
      gas_fee_cap = 10;
      gas_price = 1;
      input = [];
    };
    signature = record { sig_type = 0; data_ = [] };
  };
  gas_used = 10;
  block_num = 1;
}

pub account-injective : (m n : ℕ) → account m ≡ account n → m ≡ n
unfolding replicate
account-injective m n e = ap (λ a. elim a [ [] ↦ 0 | x ∷ xs ↦ x ]) e

distinct : (m n : ℕ) → m ≢ n → account m ≢ account n
distinct m n h e = h (account-injective m n e)

pub payment-IsTransfer :
    (amount : ℕ)
    → amount < 2 ^ 64
    → IsTransfer plain_env start (payment amount) (account 1) (account 2)
unfolding common_addr new_common_addr bytes_eq replicate store_addr default_nonce
payment-IsTransfer amount h = record {
  plain = refl;
  from_addr = refl;
  to_addr = refl;
  parties = refl;
  from_fits = omega arith;
  frozen_fits = omega arith;
  amount_fits = h;
  gas_room = omega arith;
}

set_account-refused_example :
    (e : LedgerError) × (set_account plain_env (payment 91) [] start ≡ (err e, start))
unfolding common_addr new_common_addr bytes_eq replicate store_addr default_nonce
set_account-refused_example =
    set_account-refused plain_env start (payment 91) (payment-IsTransfer 91 (omega arith))
      (λ c. omega (arith, c.0))

transfer_balances_example :
    let (r, s') = set_account plain_env (payment 90) [] start in
    (r ≡ ok tt)
    × (plain_env.balance_of s' (account 1) + 90 + 10 ≡ 100)
    × (plain_env.balance_of s' (account 2) ≡ 5 + 90)
    × (plain_env.balance_of s' (account 3) ≡ 0)
unfolding common_addr new_common_addr bytes_eq replicate store_addr default_nonce
transfer_balances_example =
    transfer_balances plain_env plain_env-IsStateDb start (payment 90)
      (payment-IsTransfer 90 (omega arith)) (distinct 1 2 (λ e. omega arith)) (account 3)
      (distinct 3 1 (λ e. omega arith)) (distinct 3 2 (λ e. omega arith)) (omega arith, omega arith)

transfer_total_example :
    total plain_env (set_account plain_env (payment 90) [] start).1 (account 1 ∷ account 2 ∷ [])
      + 10
    ≡ total plain_env start (account 1 ∷ account 2 ∷ [])
unfolding common_addr new_common_addr bytes_eq replicate store_addr default_nonce
transfer_total_example =
    transfer_total plain_env plain_env-IsStateDb start (payment 90)
      (payment-IsTransfer 90 (omega arith)) (distinct 1 2 (λ e. omega arith))
      (account 1 ∷ account 2 ∷ []) (refl, (refl, tt)) refl refl (omega arith, omega arith)

-- The payment's sender pledges, or breaks a pledge.
abbrev of_kind : ℕ → ℕ → FinishedTransaction
of_kind kind amount = record (payment amount) {
  signed = record ((payment amount).signed) {
    transaction = record ((payment amount).signed.transaction) { kind = kind };
  };
}

of_kind-IsSender : (kind amount : ℕ) → IsSender plain_env start (of_kind kind amount) (account 1)
unfolding common_addr new_common_addr bytes_eq replicate store_addr
of_kind-IsSender kind amount = record {
  from_addr = refl;
  from_fits = omega arith;
  covered = omega arith;
  gas_fits = omega arith;
}
