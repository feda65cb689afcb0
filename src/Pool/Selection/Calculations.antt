-- ===== src/Pool/Selection/Calculations.antt =====
-- Which nonces the calculations ahead of `Pending` leave.
use korthochain.Common.{
  ℕ, ◌≡◌, ◌≢◌, refl, sym, ◌∙◌, ap, subst, ◌∷◌, false, not, ◌==◌, Option, none, some, arith, inl,
  inr, ◌⊎◌,
}
use korthochain.Common.Word.{◌+64◌}
use korthochain.Common.Bytes.{Bytes, bytes_eq, bytes_eq_ne}
use korthochain.Common.Outcome.{Result, ok, err, Result-cases}
use korthochain.Common.Action.{query, raise_if, ◌>>=◌, ◌>>◌}
use korthochain.Common.Runs.{
  Ended, Runs, Runs->>=, Runs-query, Runs-modify, Runs-weaken, Runs-if, Runs-raise, Runs-given,
  Runs-raise_if,
}
use korthochain.Address.{Address, AddressError}
use korthochain.Transaction.{Transaction}
use korthochain.Pool.Overflow.{PoolError, panicked, nonzero_amount, unknown_type}
use korthochain.Pool.Figures.{
  TraderInfo, after_transfer, after_lock, after_unlock, after_pledge, after_redeem,
}
use korthochain.Pool.{
  Chain, TraderBuf, put_trader, key_of, get_trader_info, calculate, transfer_pre_calculated,
  transaction_pre_calculated, string_of, lock_pre_calculated, unlock_pre_calculated,
  pledge_pre_calculated, redeem_pre_calculated,
}
use korthochain.Pool.Selection.Nonces.{Starts, bump, Expect, Expect-put, Expect-bump, Runs-get}

module _ (chain : Chain) (start : Bytes → ℕ) (starts : Starts chain start) where
  -- The figures after a transaction of the caller: the next nonce is one above.
  abbrev Steps : (TraderInfo → Transaction → Result PoolError TraderInfo) → Type 0
  Steps after =
      (info : TraderInfo) (tx : Transaction) (info' : TraderInfo)
      → after info tx ≡ ok info'
      → info'.next_nonce ≡ info.next_nonce +64 1

  after_lock-Steps : Steps after_lock
  unfolding after_lock
  after_lock-Steps info tx info' h = ground arith

  after_unlock-Steps : Steps after_unlock
  unfolding after_unlock
  after_unlock-Steps info tx info' h = ground arith

  after_pledge-Steps : Steps after_pledge
  unfolding after_pledge
  after_pledge-Steps info tx info' h = ground arith

  after_redeem-Steps : Steps after_redeem
  unfolding after_redeem
  after_redeem-Steps info tx info' h = ground arith

  after_transfer-Steps :
      (caller receiver : TraderInfo) (tx : Transaction) (p : TraderInfo × TraderInfo)
      → after_transfer caller receiver tx ≡ ok p
      → (p.0.next_nonce ≡ caller.next_nonce +64 1) × (p.1.next_nonce ≡ receiver.next_nonce)
  unfolding after_transfer
  after_transfer-Steps caller receiver tx p h = ground arith

  -- After an error the expected nonces are those from before, or it was a panic.
  abbrev pub Stays : (Bytes → ℕ) → PoolError → TraderBuf → Type 0
  Stays f e buf = (e ≡ panicked) ⊎ Expect chain start starts f buf

  Runs-calculate :
      (f : Bytes → ℕ) (r : Option Address)
      (after : TraderInfo → Transaction → Result PoolError TraderInfo) (tx : Transaction)
      (key : Bytes)
      → Steps after
      → key_of chain tx.from ≡ ok key
      → Runs
          (Expect chain start starts f)
          (calculate chain r after tx)
          (λ _. Expect chain start starts (bump key f))
          (Stays f)
  unfolding calculate
  Runs-calculate f r after tx key steps named =
      Runs->>= (get_trader_info chain tx.from r) _
        (Runs-weaken _ (Runs-get chain start starts f tx.from r key named) (λ s h. h) (λ a s h. h)
          (λ e s h. inr h))
        (λ caller.
          Runs->>= (query (λ _. after caller tx)) _
            (Runs-query
              {Q = λ info buf. Expect chain start starts f buf × (info.next_nonce ≡ f key +64 1)} _
              (λ s info h e. (h.0, steps caller tx info e ∙ ap (λ n. n +64 1) h.1))
              (λ s e h q. inr h.0))
            (λ info.
              Runs->>= (query (λ _. key_of chain tx.from)) _
                (Runs-query
                  {Q = λ k buf.
                    (Expect chain start starts f buf × (info.next_nonce ≡ f key +64 1)) × (k ≡ key)}
                  _ (λ s k h e. (h, cc (e, named))) (λ s e h q. inr h.0))
                (λ k. Runs-given _ (λ same.
                  rw same
                    (Runs-modify _ (λ s h. Expect-bump chain start starts f key info s h.0 h.1))))))

  string_of-panics :
      (r : Result AddressError Bytes) (e : PoolError) → string_of r ≡ err e → e ≡ panicked
  string_of-panics (ok b) e h = absurd (cc h)
  string_of-panics (err x) e h = cc h

  key_of-panics : (a : Address) (e : PoolError) → key_of chain a ≡ err e → e ≡ panicked
  unfolding key_of
  key_of-panics a e h = string_of-panics _ e h

  no_text :
      (a : Address) (r : Option Address) (s : TraderBuf) (x : PoolError)
      → key_of chain a ≡ err x
      → get_trader_info chain a r s ≡ (err x, s)
  unfolding get_trader_info
  no_text a r s x fails = rw fails refl

  -- A read whose address may have no text.
  Runs-get_any :
      (f : Bytes → ℕ) (a : Address) (r : Option Address)
      → Runs
          (Expect chain start starts f)
          (get_trader_info chain a r)
          (λ info buf.
            Expect chain start starts f buf
            × ((k : Bytes) × (key_of chain a ≡ ok k) × (info.next_nonce ≡ f k)))
          (Stays f)
  Runs-get_any f a r = elim (Result-cases (key_of chain a)) [
    | inl (k, named) ↦
        Runs-weaken _ (Runs-get chain start starts f a r k named) (λ s h. h)
          (λ info s h. (h.0, (k, named, h.1))) (λ e s h. inr h)
    | inr (x, fails) ↦ record {
      at = λ s h. subst (Ended _ (Stays f)) (sym (no_text a r s x fails)) (inr h);
    }
  ]

  -- The writes of a transfer.
  Runs-paid :
      (f : Bytes → ℕ) (tx : Transaction) (key to_key : Bytes)
      → key_of chain tx.from ≡ ok key
      → key_of chain tx.to ≡ ok to_key
      → key_of chain tx.to ≢ ok key
      → (caller receiver : TraderInfo) → caller.next_nonce ≡ f key +64 1
      → receiver.next_nonce ≡ f to_key
      → Runs
          (Expect chain start starts f)
          (query (λ _. key_of chain tx.from) >>= λ caller_key.
            put_trader caller_key caller
            >> (query (λ _. key_of chain tx.to) >>= λ receiver_key.
                put_trader receiver_key receiver))
          (λ _. Expect chain start starts (bump key f))
          (Stays f)
  Runs-paid f tx key to_key named to_named apart caller receiver n to_n =
      Runs->>= (query (λ _. key_of chain tx.from)) _
        (Runs-query {Q = λ k buf. Expect chain start starts f buf × (k ≡ key)} _
          (λ s k h e. (h, cc (e, named))) (λ s e h q. inr h))
        (λ k. Runs-given _ (λ same.
          Runs->>= (put_trader k caller) _
            (Runs-modify {Q = λ _. Expect chain start starts (bump key f)} _ (λ s h.
              subst (λ j. Expect chain start starts (bump key f) ((j, caller) ∷ s)) (sym same)
                (Expect-bump chain start starts f key caller s h n)))
            (λ _.
              Runs->>= (query (λ _. key_of chain tx.to)) _
                (Runs-query {Q = λ k buf. Expect chain start starts (bump key f) buf × (k ≡ to_key)}
                  _ (λ s k h e. (h, cc (e, to_named))) (λ s e h q. inl (key_of-panics tx.to e q)))
                (λ k2. Runs-given _ (λ same2. Runs-modify _ (λ s h.
                  subst (λ j. Expect chain start starts (bump key f) ((j, receiver) ∷ s))
                    (sym same2)
                    (Expect-put chain start starts (bump key f) to_key receiver s h
                      (to_n ∙ sym unchanged))))))))
    where
      other : bytes_eq key to_key ≡ false
      other = bytes_eq_ne key to_key (λ e. apart (to_named ∙ ap ok (sym e)))

      unchanged : bump key f to_key ≡ f to_key
      unchanged = rw other refl

  Runs-transfer :
      (f : Bytes → ℕ) (tx : Transaction) (key : Bytes)
      → key_of chain tx.from ≡ ok key
      → key_of chain tx.to ≢ ok key
      → Runs
          (Expect chain start starts f)
          (transfer_pre_calculated chain tx)
          (λ _. Expect chain start starts (bump key f))
          (Stays f)
  unfolding transfer_pre_calculated
  Runs-transfer f tx key named apart =
      Runs->>= (get_trader_info chain tx.from none) _
        (Runs-weaken _ (Runs-get chain start starts f tx.from none key named) (λ s h. h)
          (λ info s h. (h.0, h.1)) (λ e s h. inr h))
        (λ caller.
          Runs-given {P = Expect chain start starts f} {C = caller.next_nonce ≡ f key} _ (λ n.
            Runs->>= (get_trader_info chain tx.to none) _ (Runs-get_any f tx.to none) (λ receiver.
              Runs-given _ (λ named_to.
                let (to_key, to_named, to_n) = named_to in
                Runs->>= (query (λ _. after_transfer caller receiver tx)) _
                  (Runs-query
                    {Q = λ p buf.
                      Expect chain start starts f buf
                      × ((p.0.next_nonce ≡ f key +64 1) × (p.1.next_nonce ≡ f to_key))}
                    _
                    (λ s p h e. (
                      h,
                      (
                        (after_transfer-Steps caller receiver tx p e).0 ∙ ap (λ m. m +64 1) n,
                        (after_transfer-Steps caller receiver tx p e).1 ∙ to_n,
                      ),
                    ))
                    (λ s e h q. inr h))
                  (λ p.
                    Runs-given _
                      (λ ns. Runs-paid f tx key to_key named to_named apart p.0 p.1 ns.0 ns.1))))))

  pub Runs-calculated :
      (f : Bytes → ℕ) (tx : Transaction) (key : Bytes)
      → key_of chain tx.from ≡ ok key
      → key_of chain tx.to ≢ ok key
      → Runs
          (Expect chain start starts f)
          (transaction_pre_calculated chain tx)
          (λ _. Expect chain start starts (bump key f))
          (Stays f)
  unfolding transaction_pre_calculated lock_pre_calculated unlock_pre_calculated
      pledge_pre_calculated redeem_pre_calculated
  Runs-calculated f tx key named apart = Runs-if _ _ _ (Runs-transfer f tx key named apart) (
      Runs-if _ _ _ (Runs-calculate f none after_lock tx key after_lock-Steps named) (
        Runs-if _ _ _ (Runs-calculate f (some tx.to) after_unlock tx key after_unlock-Steps named) (
          Runs-if _ _ _ (Runs-calculate f none after_pledge tx key after_pledge-Steps named) (
            Runs-if _ _ _
              (Runs->>= (raise_if (not (tx.amount == 0)) nonzero_amount) _
                (Runs-raise_if _ _ (λ s h. inr h))
                (λ _. Runs-calculate f none after_redeem tx key after_redeem-Steps named))
              (Runs-raise unknown_type (λ s h. inr h))))))
