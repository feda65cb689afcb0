-- ===== src/Pool/Selection/Nonces.antt =====
-- Which nonces `Pending` selects.
use korthochain.Common.{
  ℕ, ◌≡◌, ◌≢◌, refl, sym, ◌∙◌, ap, subst, List, [], ◌∷◌, Option, none, some, if◌then◌else◌,
  Bool-cases, inl, inr,
}
use korthochain.Common.Word.{◌+64◌}
use korthochain.Common.Bytes.{Bytes, bytes_eq, bytes_eq→eq, bytes_eq_self}
use korthochain.Common.Outcome.{ok}
use korthochain.Common.Action.{query, pure, ◌>>=◌}
use korthochain.Common.Runs.{
  Runs, Runs->>=, Runs-query, Runs-pure, Runs-modify, Runs-weaken, Runs-if, Runs-given,
}
use korthochain.Address.{Address}
use korthochain.Pool.Figures.{TraderInfo}
use korthochain.Pool.{
  Chain, TraderBuf, find_trader, put_trader, key_of, load_trader, load_single, complete_trader,
  get_trader_info,
}
use korthochain.Pool.Queue.{Entry, nonce_of}

-- The nonce that each text of an address is to use next, before any figures are read.
abbrev pub Starts : Chain → (Bytes → ℕ) → Type 0
Starts chain start =
    (a : Address) (k : Bytes) (n : ℕ)
    → key_of chain a ≡ ok k
    → chain.get_nonce a ≡ ok n
    → start k ≡ n

-- One transaction of the caller later.
abbrev pub bump : Bytes → (Bytes → ℕ) → Bytes → ℕ
bump key f k = if bytes_eq key k then f key +64 1 else f k

-- Each transaction has the nonce that its caller is to use next.
abbrev pub Follows : (Bytes → ℕ) → List Entry → Type 0
Follows f [] = Unit
Follows f (e ∷ es) = (nonce_of e ≡ f e.caller) × Follows (bump e.caller f) es

-- An entry holds the text of its caller, and does not transfer to that caller.
abbrev pub IsEntry : Chain → Entry → Type 0
IsEntry chain e =
    (key_of chain e.st.transaction.from ≡ ok e.caller)
    × (key_of chain e.st.transaction.to ≢ ok e.caller)

module _ (chain : Chain) (start : Bytes → ℕ) (starts : Starts chain start) where
  abbrev pub next_in : Option TraderInfo → Bytes → ℕ
  next_in none k = start k
  next_in (some info) k = info.next_nonce

  -- The next nonces by the figures that were read.
  abbrev pub next_of : TraderBuf → Bytes → ℕ
  next_of buf k = next_in (find_trader buf k) k

  abbrev pub Expect : (Bytes → ℕ) → TraderBuf → Type 0
  Expect f buf = (k : Bytes) → next_of buf k ≡ f k

  next_of-put :
      (key : Bytes) (info : TraderInfo) (buf : TraderBuf) (k : Bytes)
      → next_of ((key, info) ∷ buf) k ≡ (if bytes_eq key k then info.next_nonce else next_of buf k)
  unfolding find_trader
  next_of-put key info buf k = elim (Bool-cases (bytes_eq key k)) [
    | inl e ↦ rw e refl
    | inr e ↦ rw e refl
  ]

  -- Figures with the nonce that is expected are written: nothing changes.
  pub Expect-put :
      (f : Bytes → ℕ) (key : Bytes) (info : TraderInfo) (buf : TraderBuf)
      → Expect f buf
      → info.next_nonce ≡ f key
      → Expect f ((key, info) ∷ buf)
  Expect-put f key info buf h n k = elim (Bool-cases (bytes_eq key k)) [
    | inl e ↦
        let same : key ≡ k = bytes_eq→eq key k e in
        next_of-put key info buf k ∙ rw e (n ∙ ap f same)
    | inr e ↦ next_of-put key info buf k ∙ rw e (h k)
  ]

  pub Expect-bump :
      (f : Bytes → ℕ) (key : Bytes) (info : TraderInfo) (buf : TraderBuf)
      → Expect f buf
      → info.next_nonce ≡ f key +64 1
      → Expect (bump key f) ((key, info) ∷ buf)
  Expect-bump f key info buf h n k = elim (Bool-cases (bytes_eq key k)) [
    | inl e ↦ next_of-put key info buf k ∙ rw e n
    | inr e ↦ next_of-put key info buf k ∙ rw e (h k)
  ]

  find_put :
      (key : Bytes) (info : TraderInfo) (buf : TraderBuf)
      → find_trader ((key, info) ∷ buf) key ≡ some info
  unfolding find_trader
  find_put key info buf = rw (bytes_eq_self key) refl

  -- Figures that a read gives, with those of the key in the buffer after it.
  abbrev pub Read : (Bytes → ℕ) → Bytes → TraderInfo → TraderBuf → Type 0
  Read f key info buf = Expect f buf × (info.next_nonce ≡ f key) × (find_trader buf key ≡ some info)

  Runs-load_single :
      (f : Bytes → ℕ) (a : Address) (r : Option Address) (info : TraderInfo)
      → Runs
          (Expect f)
          (load_single chain a r info)
          (λ got buf. Expect f buf × (got.next_nonce ≡ info.next_nonce))
          (λ _. Expect f)
  unfolding load_single
  Runs-load_single f a none info = Runs-pure info (λ s h. (h, refl))
  Runs-load_single f a (some to) info =
      Runs-if info.single_exist _ _ (Runs-pure info (λ s h. (h, refl))) (
        Runs->>= (query (λ _. chain.get_single_freeze_balance a to)) _
          (Runs-query _ (λ s a h e. h) (λ s e h q. h)) (λ single. Runs-pure _ (λ s h. (h, refl))))

  Runs-complete :
      (f : Bytes → ℕ) (key : Bytes) (a : Address) (r : Option Address) (info : TraderInfo)
      → info.next_nonce ≡ f key
      → Runs (Expect f) (complete_trader chain key a r info) (Read f key) (λ _. Expect f)
  unfolding complete_trader
  Runs-complete f key a r info n =
      Runs->>= (load_single chain a r info) _ (Runs-load_single f a r info) (λ got.
        Runs->>= (put_trader key got) _
          (Runs-modify {Q = λ _. Read f key got} _
            (λ s h. (Expect-put f key got s h.0 (h.1 ∙ n), h.1 ∙ n, find_put key got s)))
          (λ _. Runs-pure got (λ s h. h)))

  Runs-load_trader :
      (f : Bytes → ℕ) (a : Address) (key : Bytes)
      → key_of chain a ≡ ok key
      → Runs
          (Expect f)
          (load_trader chain a)
          (λ info buf. Expect f buf × (info.next_nonce ≡ start key))
          (λ _. Expect f)
  unfolding load_trader
  Runs-load_trader f a key named =
      Runs->>= (query (λ _. chain.get_available_balance a)) _
        (Runs-query _ (λ s a h e. h) (λ s e h q. h))
        (λ available.
          Runs->>= (query (λ _. chain.get_all_freeze_balance a)) _
            (Runs-query _ (λ s a h e. h) (λ s e h q. h))
            (λ locked.
              Runs->>= (query (λ _. chain.get_nonce a)) _
                (Runs-query {Q = λ n buf. Expect f buf × (n ≡ start key)} _
                  (λ s n h e. (h, sym (starts a key n named e))) (λ s e h q. h))
                (λ n. Runs-pure _ (λ s h. h))))

  -- Figures that were found, or are to be loaded.
  Runs-found :
      (f : Bytes → ℕ) (a : Address) (r : Option Address) (key : Bytes) (fd : Option TraderInfo)
      → key_of chain a ≡ ok key
      → Runs
          (λ buf. Expect f buf × (find_trader buf key ≡ fd))
          (elim fd [
            | none ↦ (load_trader chain a >>= complete_trader chain key a r)
            | some info ↦ elim r [
              | none ↦ pure info
              | some notary ↦ complete_trader chain key a (some notary) info
            ]
          ])
          (Read f key)
          (λ _. Expect f)
  Runs-found f a r key none named =
      Runs-weaken _
        (Runs-given {P = Expect f} {C = start key ≡ f key} _ (λ known.
          Runs->>= (load_trader chain a) _ (Runs-load_trader f a key named)
            (λ info. Runs-given _ (λ n. Runs-complete f key a r info (n ∙ known)))))
        (λ buf h. (h.0, sym (ap (λ o. next_in o key) h.1) ∙ h.0 key)) (λ a s h. h) (λ e s h. h)
  Runs-found f a none key (some info) named =
      Runs-pure info (λ buf h. (h.0, sym (ap (λ o. next_in o key) h.1) ∙ h.0 key, h.1))
  Runs-found f a (some to) key (some info) named =
      Runs-weaken _
        (Runs-given {P = Expect f} {C = info.next_nonce ≡ f key} _
          (λ n. Runs-complete f key a (some to) info n))
        (λ buf h. (h.0, sym (ap (λ o. next_in o key) h.1) ∙ h.0 key)) (λ a s h. h) (λ e s h. h)

  pub Runs-get :
      (f : Bytes → ℕ) (a : Address) (r : Option Address) (key : Bytes)
      → key_of chain a ≡ ok key
      → Runs (Expect f) (get_trader_info chain a r) (Read f key) (λ _. Expect f)
  unfolding get_trader_info
  Runs-get f a r key named =
      Runs->>= (query (λ _. key_of chain a)) _
        (Runs-query {Q = λ k buf. Expect f buf × (k ≡ key)} _ (λ s k h e. (h, cc (e, named)))
          (λ s e h q. h))
        (λ k. Runs-given _ (λ same.
          Runs-weaken _
            (Runs->>= (query (λ buf. ok (find_trader buf k))) _
              (Runs-query {P = Expect f} {Q = λ fd buf. Expect f buf × (find_trader buf k ≡ fd)} _
                (λ s fd h e. (h, cc e)) (λ s e h q. h))
              (λ fd. Runs-found f a r k fd (named ∙ ap ok (sym same))))
            (λ s h. h) (λ info s h. subst (λ j. Read f j info s) same h) (λ e s h. h)))
