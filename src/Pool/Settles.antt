-- ===== src/Pool/Settles.antt =====
-- The ledger as the chain that the pool asks, and what the pool's acceptance means to the ledger.
use korthochain.Common.{
  ℕ, ◌+◌, ◌-◌, ◌^◌, ◌<◌, ◌≤◌, ◌≡◌, refl, ap, [], ◌∷◌, false, none, ltb, if◌then◌else◌, arith,
  Bool-cases, inl, inr,
}
use korthochain.Common.Word.{IsU64}
use korthochain.Common.Bytes.{Bytes}
use korthochain.Common.Outcome.{Result, ok, err}
use korthochain.Common.Action.{query, >>=-inv}
use korthochain.Transaction.{Transaction, FinishedTransaction, gas_cap}
use korthochain.Ledger.State.{Env, LedgerError}
use korthochain.Ledger.{
  available_balance, all_freeze_balance, single_freeze_balance, get_nonce, set_account,
  default_nonce,
}
use korthochain.Ledger.Laws.{IsTransfer, frozen, available_balance_lem, set_account-covered}
use korthochain.Pool.Overflow.{
  PoolError, chain_error, add_uint64_overflow_lem, sub_uint64_overflow_lem,
}
use korthochain.Pool.Figures.{TraderInfo, after_transfer}
use korthochain.Pool.{
  Chain, TraderBuf, find_trader, key_of, get_trader_info, load_trader, load_single, complete_trader,
  transfer_pre_calculated,
}

abbrev of_ledger : Result LedgerError ℕ → Result PoolError ℕ
of_ledger (ok n) = ok n
of_ledger (err e) = err chain_error

-- The chain's answers in a state of the accounts: `GetAvailableBalance` and its kin.
abbrev pub chain_of : {S : Type 0} → Env S → S → Chain
chain_of env s = record {
  get_available_balance = λ a. of_ledger (available_balance env a s);
  get_all_freeze_balance = λ a. of_ledger (all_freeze_balance env a s);
  get_nonce = λ a. of_ledger (get_nonce env a s);
  get_single_freeze_balance = λ a to. of_ledger (single_freeze_balance env a to s);
  network = env.network;
}

-- A transfer whose figures could be calculated is covered with its gas cap.
accepted-covered :
    (caller receiver : TraderInfo) (tx : Transaction) (p : TraderInfo × TraderInfo)
    → IsU64 caller.available_balance
    → IsU64 tx.amount
    → after_transfer caller receiver tx ≡ ok p
    → tx.amount + gas_cap tx ≤ caller.available_balance
unfolding after_transfer
accepted-covered caller receiver tx p hc ha h =
    let cost = add_uint64_overflow_lem tx.amount (gas_cap tx ∷ []) ha in
    let paid =
      sub_uint64_overflow_lem caller.available_balance ((tx.amount + gas_cap tx) ∷ []) hc in
    elim (Bool-cases (ltb (tx.amount + gas_cap tx) (2 ^ 64))) [
      | inl fits ↦ elim (Bool-cases (ltb caller.available_balance (tx.amount + gas_cap tx))) [
        | inl short ↦ absurd (ground (arith, cost, paid, h))
        | inr enough ↦ ground arith
      ]
      | inr over ↦ absurd (ground (arith, cost, h))
    ]

-- An accepted transfer found its caller's figures, and could be calculated from them.
transfer_found :
    (chain : Chain) (tx : Transaction) (buf buf' : TraderBuf)
    → transfer_pre_calculated chain tx buf ≡ (ok tt, buf')
    → (caller : TraderInfo) × (buf1 : TraderBuf) × (receiver : TraderInfo) × (p : TraderInfo
        × TraderInfo)
      × (get_trader_info chain tx.from none buf ≡ (ok caller, buf1))
      × (after_transfer caller receiver tx ≡ ok p)
unfolding transfer_pre_calculated
transfer_found chain tx buf buf' accepted =
    let (caller, buf1, first, rest) = >>=-inv (get_trader_info chain tx.from none) _ buf accepted in
    let (receiver, buf2, second, rest2) = >>=-inv (get_trader_info chain tx.to none) _ buf1 rest in
    let (p, buf3, third, rest3) =
      >>=-inv (query (λ _. after_transfer caller receiver tx)) _ buf2 rest2 in
    (caller, buf1, receiver, p, first, ap (λ r. r.0) third)

module _ {S : Type 0} (env : Env S) (s : S) (tx : FinishedTransaction) {f t : Bytes}
    (h : IsTransfer env s tx f t) (key : Bytes)
    (key_ok : key_of (chain_of env s) tx.signed.transaction.from ≡ ok key) where
  frozen_lem : all_freeze_balance env tx.signed.transaction.from s ≡ ok (frozen env s f)
  unfolding all_freeze_balance
  frozen_lem = rw (h.from_addr, all_freeze_balance) (ap ok (omega (arith, h.frozen_fits)))

  nonce_lem : get_nonce env tx.signed.transaction.from s ≡ ok (default_nonce (env.nonce_of s f))
  unfolding get_nonce
  nonce_lem = rw (h.from_addr, get_nonce) refl

  abbrev fresh : TraderInfo
  fresh = record {
    available_balance = env.balance_of s f - frozen env s f;
    lock_balance = frozen env s f;
    next_nonce = default_nonce (env.nonce_of s f);
    single_lock_balance = 0;
    single_exist = false;
  }

  fresh_lem : get_trader_info (chain_of env s) tx.signed.transaction.from none [] ≡ (
      if ltb (env.balance_of s f) (frozen env s f)
      then (err chain_error, [])
      else (ok fresh, (key, fresh) ∷ []))
  unfolding get_trader_info load_trader load_single complete_trader find_trader
  fresh_lem =
      rw
        (
          key_ok,
          available_balance_lem env s tx.signed.transaction.from f h.from_addr h.from_fits
              h.frozen_fits,
          frozen_lem,
          nonce_lem,
          get_trader_info,
          load_trader,
        )
        (elim (Bool-cases (ltb (env.balance_of s f) (frozen env s f))) [
          | inl over ↦ rw over refl
          | inr free ↦ rw free refl
        ])

  -- A plain transfer between two different addresses, whose figures fit machine words, by a sender
  -- whose address has a text, that the pool accepts with no figures read before, is settled by the
  -- ledger in the state that the pool asked, where the gas used is within the gas cap and the
  -- receiver has room.
  pub transfer-settles :
      (buf : TraderBuf)
      → transfer_pre_calculated (chain_of env s) tx.signed.transaction [] ≡ (ok tt, buf)
      → tx.gas_used ≤ gas_cap tx.signed.transaction
      → env.balance_of s t + tx.gas_used + tx.signed.transaction.amount < 2 ^ 64
      → (set_account env tx [] s).0 ≡ ok tt
  transfer-settles buf accepted gas room =
      let (caller, buf1, receiver, p, found, calculated) =
        transfer_found (chain_of env s) tx.signed.transaction [] buf accepted in
      elim (Bool-cases (ltb (env.balance_of s f) (frozen env s f))) [
        | inl over ↦ absurd (cc (fresh_lem, over, found))
        | inr free ↦
            let same : fresh ≡ caller = cc (fresh_lem, free, found) in
            let cover =
              accepted-covered fresh receiver tx.signed.transaction p (omega (arith, h.from_fits))
                h.amount_fits (rw (← same) at calculated) in
            rw (set_account-covered env s tx h (ground (arith, cover, gas), room)) refl
      ]
