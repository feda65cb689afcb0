-- ===== src/Ledger/Laws.antt =====
-- What a transaction does to the accounts of its two parties.
use korthochain.Common.{
  ℕ, ◌+◌, ◌-◌, ◌^◌, ◌<◌, ◌≤◌, ◌≡◌, ◌∙◌, ap, [], false, ltb, if◌then◌else◌, arith, inl, inr,
  Bool-cases,
}
use korthochain.Common.Word.{◌+64◌, IsU64}
use korthochain.Common.Bytes.{Bytes, bytes_eq}
use korthochain.Common.Outcome.{ok, err}
use korthochain.Common.Action.{◌>>◌, >>=-ok, >>=-err}
use korthochain.Address.{Address}
use korthochain.Transaction.{FinishedTransaction, transfer_transaction}
use korthochain.Ledger.State.{Env, LedgerError, insufficient, too_large}
use korthochain.Ledger.{
  move_amount, transfer, set_account, check_available, common_addr, get_balance, available_balance,
  store_addr, freeze_key,
}

module _ {S : Type 0} (env : Env S) (s : S) where
  -- The amount of an account that is frozen.
  abbrev pub frozen : Bytes → ℕ
  frozen a = env.balance_of s (store_addr env a freeze_key)

  -- For an address that names an account whose balance and frozen amount are in uint64: what is
  -- available is the balance less what is frozen, and there is an error exactly where more is
  -- frozen than there is.
  pub available_balance_lem :
      (addr : Address) (a : Bytes)
      → common_addr env addr ≡ ok a
      → IsU64 (env.balance_of s a)
      → IsU64 (frozen a)
      → available_balance env addr s ≡ (
          if ltb (env.balance_of s a) (frozen a)
          then err insufficient
          else ok (env.balance_of s a - frozen a))
  unfolding available_balance
  available_balance_lem addr a e hb hf = rw (e, available_balance) (ground arith)

  pub get_balance_lem :
      (addr : Address) (a : Bytes)
      → common_addr env addr ≡ ok a
      → IsU64 (env.balance_of s a)
      → get_balance env addr s ≡ ok (env.balance_of s a)
  unfolding get_balance
  get_balance_lem addr a e h = rw (e, get_balance) (ap ok (omega arith))

  move_amount-refused :
      (from to : Address) (f t : Bytes) (amount gas : ℕ)
      → IsU64 (env.balance_of s f)
      → IsU64 amount
      → env.balance_of s t + gas < 2 ^ 64
      → ¬ ((amount + gas ≤ env.balance_of s f) × (env.balance_of s t + gas + amount < 2 ^ 64))
      → (e : LedgerError) × (move_amount env from to amount gas
            (env.balance_of s f)
            (env.balance_of s t)
            s
          ≡ (err e, s))
  unfolding move_amount
  move_amount-refused from to f t amount gas hf ha ht c =
      elim (Bool-cases (ltb (env.balance_of s f) (amount +64 gas))) [
        | inl short ↦ (insufficient, ground arith)
        | inr enough ↦ (too_large, ground arith)
      ]

  pub move_amount_lem :
      (from to : Address) (f t : Bytes) (amount gas : ℕ)
      → common_addr env from ≡ ok f
      → common_addr env to ≡ ok t
      → IsU64 (env.balance_of s f)
      → IsU64 amount
      → env.balance_of s t + gas < 2 ^ 64
      → amount + gas ≤ env.balance_of s f
      → env.balance_of s t + gas + amount < 2 ^ 64
      → move_amount env from to amount gas (env.balance_of s f) (env.balance_of s t) s ≡ (
        ok tt,
        env.put_balance
            (env.put_balance s f (env.balance_of s f - (amount + gas)))
            t
            (env.balance_of s t + amount),
      )
  unfolding move_amount
  move_amount_lem from to f t amount gas ef et hf ha ht cover fits =
      rw (ef, et, move_amount) (ground arith)

-- A plain transfer between two accounts whose figures fit machine words. The gas that the sender
-- pays must fit on top of the receiver's balance: the code subtracts both from MAXUINT64.
pub record IsTransfer {S : Type 0} (env : Env S) (s : S) (tx : FinishedTransaction) (f t : Bytes)
    : Type 0 where
  pub plain : tx.signed.transaction.kind ≡ transfer_transaction
  pub from_addr : common_addr env tx.signed.transaction.from ≡ ok f
  pub to_addr : common_addr env tx.signed.transaction.to ≡ ok t
  pub parties : bytes_eq tx.signed.transaction.from.payload tx.signed.transaction.to.payload ≡ false
  pub from_fits : IsU64 (env.balance_of s f)
  pub frozen_fits : IsU64 (frozen env s f)
  pub amount_fits : IsU64 tx.signed.transaction.amount
  pub gas_room : env.balance_of s t + tx.gas_used < 2 ^ 64

-- The sender's free balance covers the amount and the gas, and the receiver's balance has room.
abbrev pub IsCovered : {S : Type 0} → Env S → S → FinishedTransaction → Bytes → Bytes → Type 0
IsCovered env s tx f t =
    (tx.signed.transaction.amount + tx.gas_used + frozen env s f ≤ env.balance_of s f)
    × (env.balance_of s t + tx.gas_used + tx.signed.transaction.amount < 2 ^ 64)

module _ {S : Type 0} (env : Env S) (s : S) (tx : FinishedTransaction) {f t : Bytes}
    (h : IsTransfer env s tx f t) where
  check_available_lem : check_available env tx s ≡ (
      if ltb (env.balance_of s f) (frozen env s f)
      then (err insufficient, s)
      else (if ltb
            (env.balance_of s f - frozen env s f)
            (tx.signed.transaction.amount +64 tx.gas_used)
          then (err insufficient, s)
          else (ok tt, s)))
  unfolding check_available
  check_available_lem =
      let free =
        available_balance_lem env s tx.signed.transaction.from f h.from_addr h.from_fits
          h.frozen_fits in
      ground (arith, free, h.plain)

  transfer_lem :
      transfer env tx s
      ≡ move_amount env tx.signed.transaction.from tx.signed.transaction.to
          tx.signed.transaction.amount tx.gas_used
          (env.balance_of s f)
          (env.balance_of s t)
          s
  unfolding transfer
  transfer_lem = ground (
    arith,
    get_balance_lem env s tx.signed.transaction.from f h.from_addr h.from_fits,
    get_balance_lem env s tx.signed.transaction.to t h.to_addr (omega (arith, h.gas_room)),
  )

  set_account_lem : set_account env tx [] s ≡ (check_available env tx >> transfer env tx) s
  unfolding set_account
  set_account_lem = ground (arith, h.plain, h.parties)

  -- A covered transfer takes the amount and the gas from the sender and gives the amount to the
  -- receiver.
  pub set_account-covered :
      IsCovered env s tx f t
      → set_account env tx [] s ≡ (
        ok tt,
        env.put_balance
            (env.put_balance s f
              (env.balance_of s f - (tx.signed.transaction.amount + tx.gas_used)))
            t
            (env.balance_of s t + tx.signed.transaction.amount),
      )
  set_account-covered c =
      let moved =
        move_amount_lem env s tx.signed.transaction.from tx.signed.transaction.to f t
          tx.signed.transaction.amount tx.gas_used h.from_addr h.to_addr h.from_fits h.amount_fits
          h.gas_room (omega (arith, c.0)) c.1 in
      let free : check_available env tx s ≡ (ok tt, s) =
        check_available_lem ∙ ground (arith, h.amount_fits, h.from_fits) in
      set_account_lem
      ∙ >>=-ok (check_available env tx) (λ _. transfer env tx) s free
      ∙ transfer_lem
      ∙ moved

  -- A plain transfer between two different addresses, whose figures fit machine words, and where
  -- the gas fits on top of the receiver's balance, is refused with the state as it was if the
  -- sender's free balance does not cover amount and gas or the receiver has no room.
  pub set_account-refused :
      ¬ (IsCovered env s tx f t) → (e : LedgerError) × (set_account env tx [] s ≡ (err e, s))
  set_account-refused c = elim (Bool-cases (ltb (env.balance_of s f) (frozen env s f))) [
    | inl over ↦ (
      insufficient,
      set_account_lem
          ∙ >>=-err (check_available env tx) (λ _. transfer env tx) s
              (check_available_lem ∙ rw over),
    )
    | inr free ↦
        elim (Bool-cases (
          ltb (env.balance_of s f - frozen env s f)
            (tx.signed.transaction.amount +64 tx.gas_used))) [
              | inl short ↦ (
                insufficient,
                set_account_lem
                    ∙ >>=-err (check_available env tx) (λ _. transfer env tx) s
                        (check_available_lem ∙ rw (free, short)),
              )
              | inr enough ↦
                  let (e, stopped) =
                    move_amount-refused env s tx.signed.transaction.from tx.signed.transaction.to f
                      t tx.signed.transaction.amount tx.gas_used h.from_fits h.amount_fits
                      h.gas_room
                      (λ r. c (ground (arith, h.amount_fits, h.from_fits, h.frozen_fits))) in
                  (
                    e,
                    set_account_lem
                        ∙ >>=-ok (check_available env tx) (λ _. transfer env tx) s
                            (check_available_lem ∙ rw (free, enough))
                        ∙ transfer_lem
                        ∙ stopped,
                  )
            ]
  ]
