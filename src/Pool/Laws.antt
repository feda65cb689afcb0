-- ===== src/Pool/Laws.antt =====
-- What each kind of transaction makes of a trader's figures, on every branch.
use korthochain.Common.{ℕ, ◌+◌, ◌-◌, ◌^◌, ◌≡◌, ◌∙◌, [], ◌∷◌, ltb, if◌then◌else◌, arith}
use korthochain.Common.Word.{IsU64, ◌+64◌}
use korthochain.Common.Outcome.{ok, err}
use korthochain.Transaction.{Transaction, gas_cap}
use korthochain.Pool.Overflow.{
  insufficient, add_overflow, sub_overflow, add_uint64_overflow, sub_uint64_overflow,
  add_uint64_overflow_lem, sub_uint64_overflow_lem,
}
use korthochain.Pool.Figures.{TraderInfo, after_transfer, after_lock, after_unlock, after_pledge}

-- The figures and the amount are in uint64.
abbrev pub IsInfo : TraderInfo → Type 0
IsInfo info =
    IsU64 info.available_balance × IsU64 info.lock_balance × IsU64 info.single_lock_balance

module _ (caller : TraderInfo) (tx : Transaction) (h : IsInfo caller)
    (amount : IsU64 tx.amount) where
  add :
      (a b : ℕ)
      → IsU64 a
      → add_uint64_overflow a (b ∷ [])
        ≡ (if ltb (a + b) (2 ^ 64) then ok (a + b) else err add_overflow)
  add a b ha = add_uint64_overflow_lem a (b ∷ []) ha ∙ ground arith

  sub :
      (a b : ℕ)
      → IsU64 a
      → sub_uint64_overflow a (b ∷ []) ≡ (if ltb a b then err sub_overflow else ok (a - b))
  sub a b ha = sub_uint64_overflow_lem a (b ∷ []) ha ∙ ground arith

  -- Of a trader and an amount in uint64, a lock moves the amount from the available to the locked
  -- balance, takes the gas cap off the available one and counts the nonce up, where the available
  -- balance covers amount and gas cap and the locked one has room; on each other branch it fails
  -- with the error given.
  pub after_lock_lem : after_lock caller tx ≡ (
      if ltb caller.available_balance tx.amount
      then err insufficient
      else if ltb (caller.lock_balance + tx.amount) (2 ^ 64)
      then (if ltb caller.available_balance (tx.amount + gas_cap tx)
          then err sub_overflow
          else ok (record caller {
            next_nonce = caller.next_nonce +64 1;
            lock_balance = caller.lock_balance + tx.amount;
            available_balance = caller.available_balance - (tx.amount + gas_cap tx);
          }))
      else err add_overflow)
  unfolding after_lock
  after_lock_lem =
      let left = sub caller.available_balance tx.amount h.0 in
      let paid = sub (caller.available_balance - tx.amount) (gas_cap tx) (omega (arith, h.0)) in
      let locked = add caller.lock_balance tx.amount h.1 in rw (locked, left) (grind (arith, paid))

  -- Of a trader and an amount in uint64, an unlock moves the amount from the locked to the
  -- available balance, takes it off the figure of the notary too, takes the gas cap off the
  -- available balance, which must cover it before the amount arrives, and counts the nonce up; on
  -- each other branch it fails with the error given.
  pub after_unlock_lem : after_unlock caller tx ≡ (
      if ltb caller.single_lock_balance tx.amount
      then err insufficient
      else if ltb caller.lock_balance tx.amount
      then err sub_overflow
      else if ltb caller.available_balance (gas_cap tx)
      then err sub_overflow
      else if ltb (caller.available_balance - gas_cap tx + tx.amount) (2 ^ 64)
      then ok (record caller {
        next_nonce = caller.next_nonce +64 1;
        lock_balance = caller.lock_balance - tx.amount;
        available_balance = caller.available_balance - gas_cap tx + tx.amount;
        single_lock_balance = caller.single_lock_balance - tx.amount;
      })
      else err add_overflow)
  unfolding after_unlock
  after_unlock_lem =
      let locked = sub caller.lock_balance tx.amount h.1 in
      let single = sub caller.single_lock_balance tx.amount h.2 in
      let paid = sub caller.available_balance (gas_cap tx) h.0 in
      let back = add (caller.available_balance - gas_cap tx) tx.amount (omega (arith, h.0)) in
      rw (locked, single, paid) (grind (arith, back))

  -- Of a trader and an amount in uint64, a pledge takes the amount and the gas cap off the
  -- available balance and counts the nonce up, and fails with the error given where the balance
  -- does not cover them.
  pub after_pledge_lem : after_pledge caller tx ≡ (
      if ltb caller.available_balance tx.amount
      then err insufficient
      else if ltb caller.available_balance (tx.amount + gas_cap tx)
      then err sub_overflow
      else ok (record caller {
        next_nonce = caller.next_nonce +64 1;
        available_balance = caller.available_balance - (tx.amount + gas_cap tx);
      }))
  unfolding after_pledge
  after_pledge_lem =
      let left = sub caller.available_balance tx.amount h.0 in
      let paid = sub (caller.available_balance - tx.amount) (gas_cap tx) (omega (arith, h.0)) in
      rw left (grind (arith, paid))

  -- Of two traders and an amount in uint64, a transfer takes the amount and the gas cap off the
  -- caller's available balance, adds the amount to the receiver's and counts the caller's nonce up,
  -- where the caller is covered and the receiver has room, and fails with the error given
  -- everywhere else.
  pub after_transfer_lem :
      (receiver : TraderInfo)
      → IsU64 receiver.available_balance
      → after_transfer caller receiver tx ≡ (
          if ltb (tx.amount + gas_cap tx) (2 ^ 64)
          then (if ltb caller.available_balance (tx.amount + gas_cap tx)
              then err sub_overflow
              else if ltb (receiver.available_balance + tx.amount) (2 ^ 64)
              then ok (
                record caller {
                  available_balance = caller.available_balance - (tx.amount + gas_cap tx);
                  next_nonce = caller.next_nonce +64 1;
                },
                record receiver { available_balance = receiver.available_balance + tx.amount },
              )
              else err add_overflow)
          else err add_overflow)
  unfolding after_transfer
  after_transfer_lem receiver hr =
      let cost = add tx.amount (gas_cap tx) amount in
      let paid = sub caller.available_balance (tx.amount + gas_cap tx) h.0 in
      let got = add receiver.available_balance tx.amount hr in rw (cost, got) (grind (arith, paid))
