-- ===== src/Pool/Selection/Reads.antt =====
-- The reads of a caller's figures under the calculations of the pool.
use korthochain.Common.{
  ◌≡◌, refl, sym, ◌∙◌, ap, subst, Bool, true, false, Option, none, some, if◌then◌else◌,
}
use korthochain.Common.Bytes.{Bytes}
use korthochain.Common.Outcome.{ok, err}
use korthochain.Common.Action.{query, pure, raise, raise_if, ◌>>=◌, ◌>>◌, >>=-inv}
use korthochain.Common.Runs.{Ended, Runs, Runs->>=, Runs-query, Runs-pure, Runs-modify}
use korthochain.Address.{Address}
use korthochain.Transaction.{Transaction}
use korthochain.Pool.Overflow.{PoolError}
use korthochain.Pool.Figures.{TraderInfo}
use korthochain.Pool.{
  Chain, TraderBuf, Calculation, find_trader, put_trader, key_of, load_trader, load_single,
  complete_trader, get_trader_info, calculate, transfer_pre_calculated, lock_pre_calculated,
  unlock_pre_calculated, pledge_pre_calculated, redeem_pre_calculated, transaction_pre_calculated,
}

-- A calculation that went well could read its caller's figures.
pub record Opens (chain : Chain) (tx : Transaction) (m : Calculation (Unit {0})) : Type 0 where
  pub opened :
      (buf buf' : TraderBuf)
      → m buf ≡ (ok tt, buf')
      → (r : Option Address) × (info : TraderInfo) × (buf1 : TraderBuf) × (get_trader_info chain
            tx.from r buf
          ≡ (ok info, buf1))

module _ (chain : Chain) where
  Opens-if :
      (tx : Transaction) (b : Bool) (m n : Calculation (Unit {0}))
      → Opens chain tx m
      → Opens chain tx n
      → Opens chain tx (if b then m else n)
  Opens-if tx true m n h k = h
  Opens-if tx false m n h k = k

  Opens-get :
      (tx : Transaction) (r : Option Address) (next : TraderInfo → Calculation (Unit {0}))
      → Opens chain tx (get_trader_info chain tx.from r >>= next)
  Opens-get tx r next = record {
    opened = λ buf buf' h.
        let (info, buf1, first, rest) = >>=-inv (get_trader_info chain tx.from r) next buf h in
        (r, info, buf1, first);
  }

  Opens-guard :
      (tx : Transaction) (b : Bool) (e : PoolError) (m : Calculation (Unit {0}))
      → Opens chain tx m
      → Opens chain tx (raise_if b e >> m)
  Opens-guard tx true e m h = record { opened = λ buf buf' q. absurd (cc (ap (λ r. r.0) q)) }
  Opens-guard tx false e m h = record { opened = λ buf buf' q. h.opened buf buf' q }

  Opens-raise : (tx : Transaction) (e : PoolError) → Opens chain tx (raise e)
  Opens-raise tx e = record { opened = λ buf buf' q. absurd (cc (ap (λ r. r.0) q)) }

  pub calculated-Opens : (tx : Transaction) → Opens chain tx (transaction_pre_calculated chain tx)
  unfolding transaction_pre_calculated transfer_pre_calculated lock_pre_calculated
      unlock_pre_calculated pledge_pre_calculated redeem_pre_calculated calculate
  calculated-Opens tx = search (Opens-if, Opens-get, Opens-guard, Opens-raise) depth 30

  abbrev read_found : Address → Bytes → Option Address → Option TraderInfo → Calculation TraderInfo
  read_found a k r none = load_trader chain a >>= complete_trader chain k a r
  read_found a k none (some info) = pure info
  read_found a k (some to) (some info) = complete_trader chain k a (some to) info

  found-none :
      (a : Address) (k : Bytes) (r : Option Address) (fd : Option TraderInfo) (buf buf1 : TraderBuf)
      (info : TraderInfo)
      → read_found a k r fd buf ≡ (ok info, buf1)
      → (info0 : TraderInfo) × ((read_found a k none fd buf).0 ≡ ok info0)
  unfolding complete_trader load_single
  found-none a k r none buf buf1 info h =
      let (got, buf2, first, rest) = >>=-inv (load_trader chain a) _ buf h in (got, rw first refl)
  found-none a k r (some found) buf buf1 info h = (found, refl)

  read_elim : Address → Bytes → Option Address → Option TraderInfo → Calculation TraderInfo
  read_elim a k r fd = elim fd [
    | none ↦ (load_trader chain a >>= complete_trader chain k a r)
    | some info ↦ elim r [
      | none ↦ pure info
      | some notary ↦ complete_trader chain k a (some notary) info
    ]
  ]

  elim-found :
      (a : Address) (k : Bytes) (r : Option Address) (fd : Option TraderInfo) (buf : TraderBuf)
      → read_elim a k r fd buf ≡ read_found a k r fd buf
  unfolding read_elim
  elim-found a k r none buf = refl
  elim-found a k none (some info) buf = refl
  elim-found a k (some to) (some info) buf = refl

  get-read :
      (a : Address) (k : Bytes) (r : Option Address) (buf : TraderBuf)
      → key_of chain a ≡ ok k
      → get_trader_info chain a r buf ≡ read_found a k r (find_trader buf k) buf
  unfolding get_trader_info read_elim
  get-read a k r buf named = rw named (elim-found a k r (find_trader buf k) buf)

  -- A read for a notary went well only where one without would.
  pub get-none :
      (a : Address) (k : Bytes) (r : Option Address) (buf buf1 : TraderBuf) (info : TraderInfo)
      → key_of chain a ≡ ok k
      → get_trader_info chain a r buf ≡ (ok info, buf1)
      → (info0 : TraderInfo) × ((get_trader_info chain a none buf).0 ≡ ok info0)
  get-none a k r buf buf1 info named h =
      let (info0, e) =
        found-none a k r (find_trader buf k) buf buf1 info (sym (get-read a k r buf named) ∙ h) in
      (info0, ap (λ p. p.0) (get-read a k none buf named) ∙ e)

  Runs-load :
      (buf : TraderBuf) (a : Address)
      → Runs (λ s. s ≡ buf) (load_trader chain a) (λ _ s. s ≡ buf) (λ _ s. s ≡ buf)
  unfolding load_trader
  Runs-load buf a =
      Runs->>= (query (λ _. chain.get_available_balance a)) _
        (Runs-query _ (λ s a h e. h) (λ s e h q. h))
        (λ available.
          Runs->>= (query (λ _. chain.get_all_freeze_balance a)) _
            (Runs-query _ (λ s a h e. h) (λ s e h q. h))
            (λ locked.
              Runs->>= (query (λ _. chain.get_nonce a)) _
                (Runs-query _ (λ s a h e. h) (λ s e h q. h)) (λ n. Runs-pure _ (λ s h. h))))

  Runs-read :
      (buf : TraderBuf) (a : Address) (k : Bytes) (fd : Option TraderInfo)
      → Runs (λ s. s ≡ buf) (read_found a k none fd) (λ _ _. Unit {0}) (λ _ s. s ≡ buf)
  unfolding complete_trader load_single
  Runs-read buf a k none = Runs->>= (load_trader chain a) _ (Runs-load buf a) (λ info.
      Runs->>= (put_trader k info) _ (Runs-modify {Q = λ _ _. Unit {0}} _ (λ s h. tt))
        (λ _. Runs-pure info (λ s h. tt)))
  Runs-read buf a k (some info) = Runs-pure info (λ s h. tt)

  -- A failed read leaves the buffer.
  pub get-stays :
      (a : Address) (k : Bytes) (buf buf1 : TraderBuf) (x : PoolError)
      → key_of chain a ≡ ok k
      → get_trader_info chain a none buf ≡ (err x, buf1)
      → buf1 ≡ buf
  get-stays a k buf buf1 x named h =
      subst (Ended (λ _ _. Unit {0}) (λ _ s. s ≡ buf)) (sym (get-read a k none buf named) ∙ h)
        ((Runs-read buf a k (find_trader buf k)).at buf refl)
