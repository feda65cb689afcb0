-- ===== src/Pool/Selection/Pending.antt =====
-- The nonces of the transactions that `Pending` selects.
use korthochain.Common.{
  ℕ, zero, suc, ◌≤◌, ◌≡◌, ◌≢◌, refl, sym, ◌∙◌, ap, subst, List, [], ◌∷◌, none, arith, length, All,
  All-reverse, inl, inr,
}
use korthochain.Common.Bytes.{Bytes}
use korthochain.Common.Outcome.{Result, ok, err}
use korthochain.Common.Action.{query, >>=-inv}
use korthochain.Common.Runs.{Ended, Runs, Runs->>=, Runs-query, Runs-pure, Runs-weaken, Runs-given}
use korthochain.Transaction.{SignedTransaction}
use korthochain.Pool.Overflow.{PoolError, panicked}
use korthochain.Pool.Figures.{TraderInfo}
use korthochain.Pool.{
  Chain, TraderBuf, Calculation, find_trader, key_of, get_trader_info, compare_nonce,
  transaction_pre_calculated,
}
use korthochain.Pool.Queue.{Entry, nonce_of, Queue}
use korthochain.Pool.Selection.{
  Verdict, taken, bad, skipped, logged, judged, by_order, judge, pick_loop, pending, pending_limit,
  remove_all, go_on, selected,
}
use korthochain.Pool.Selection.Reads.{calculated-Opens, get-none, get-stays}
use korthochain.Pool.Selection.Nonces.{Starts, bump, Follows, IsEntry, Expect, Read, Runs-get}
use korthochain.Pool.Selection.Calculations.{Stays, Runs-calculated}
use mathlib.Core.List.{reverse}
use Prim.Native.Nat.{compare, Ordering, lt, eq, gt}

module _ (chain : Chain) (start : Bytes → ℕ) (starts : Starts chain start) where
  compare-eq : (a b : ℕ) → compare a b ≡ eq → a ≡ b
  compare-eq a b h = ground arith

  -- What a turn of the loop leaves, by what becomes of the transaction.
  abbrev Judged : (Bytes → ℕ) → SignedTransaction → Bytes → Verdict → TraderBuf → Type 0
  Judged f st key taken buf =
      (st.transaction.nonce ≡ f key) × Expect chain start starts (bump key f) buf
  Judged f st key bad buf = Expect chain start starts f buf
  Judged f st key skipped buf = Expect chain start starts f buf

  abbrev Loose : PoolError → TraderBuf → Type 0
  Loose e buf = Unit {0}

  logged-Judged :
      (f : Bytes → ℕ) (st : SignedTransaction) (key : Bytes)
      (r : Result PoolError TraderInfo × TraderBuf)
      → Expect chain start starts f r.1
      → Ended (Judged f st key) Loose (logged bad r)
        × Ended (Judged f st key) Loose (logged skipped r)
  logged-Judged f st key (ok info, buf) h = (h, h)
  logged-Judged f st key (err e, buf) h = (h, h)

  judged-Judged :
      (f : Bytes → ℕ) (st : SignedTransaction) (key : Bytes)
      (r : Result PoolError (Unit {0}) × TraderBuf)
      → Ended (λ _. Expect chain start starts (bump key f)) (Stays chain start starts f) r
      → ((buf : TraderBuf) → r ≡ (ok tt, buf) → st.transaction.nonce ≡ f key)
      → Ended (Judged f st key) Loose (judged r)
  judged-Judged f st key (ok tt, buf) h n = (n buf refl, h)
  judged-Judged f st key (err panicked, buf) h n = tt
  judged-Judged f st key (err e, buf) (inl p) n = absurd (cc p)
  judged-Judged f st key (err e, buf) (inr x) n = x

  get-Expect :
      (f : Bytes → ℕ) (st : SignedTransaction) (key : Bytes) (buf : TraderBuf)
      → key_of chain st.transaction.from ≡ ok key
      → Expect chain start starts f buf
      → Expect chain start starts f (get_trader_info chain st.transaction.from none buf).1
  get-Expect f st key buf named h =
      of_ended (get_trader_info chain st.transaction.from none buf)
        ((Runs-get chain start starts f st.transaction.from none key named).at buf h)
    where
      of_ended :
          (r : Result PoolError TraderInfo × TraderBuf)
          → Ended (Read chain start starts f key) (λ _. Expect chain start starts f) r
          → Expect chain start starts f r.1
      of_ended (ok info, s) h = h.0
      of_ended (err e, s) h = h

  by_order-Judged :
      (f : Bytes → ℕ) (st : SignedTransaction) (key : Bytes) (o : Ordering) (buf : TraderBuf)
      → key_of chain st.transaction.from ≡ ok key
      → key_of chain st.transaction.to ≢ ok key
      → Expect chain start starts f buf
      → (o ≡ eq
          → (buf' : TraderBuf) → transaction_pre_calculated chain st.transaction buf ≡ (ok tt, buf')
          → st.transaction.nonce ≡ f key)
      → Ended (Judged f st key) Loose (by_order chain st (o, buf))
  by_order-Judged f st key lt buf named apart h n =
      (logged-Judged f st key _ (get-Expect f st key buf named h)).0
  by_order-Judged f st key gt buf named apart h n =
      (logged-Judged f st key _ (get-Expect f st key buf named h)).1
  by_order-Judged f st key eq buf named apart h n =
      judged-Judged f st key _
        ((Runs-calculated chain start starts f st.transaction key named apart).at buf h) (n refl)

  compare_nonce-ok :
      (st : SignedTransaction) (buf buf1 : TraderBuf) (info : TraderInfo)
      → get_trader_info chain st.transaction.from none buf ≡ (ok info, buf1)
      → compare_nonce chain st.transaction.from st.transaction.nonce buf
        ≡ (compare st.transaction.nonce info.next_nonce, buf1)
  unfolding compare_nonce
  compare_nonce-ok st buf buf1 info e =
      rw (e, compare_nonce)
        (ap
          (λ (r : Result PoolError TraderInfo × TraderBuf).
            (compare st.transaction.nonce info.next_nonce, r.1))
          e)

  compare_nonce-err :
      (st : SignedTransaction) (buf buf1 : TraderBuf) (x : PoolError)
      → get_trader_info chain st.transaction.from none buf ≡ (err x, buf1)
      → compare_nonce chain st.transaction.from st.transaction.nonce buf
        ≡ (compare st.transaction.nonce 0, buf1)
  unfolding compare_nonce
  compare_nonce-err st buf buf1 x e =
      rw (e, compare_nonce)
        (ap (λ (r : Result PoolError TraderInfo × TraderBuf). (compare st.transaction.nonce 0, r.1))
          e)

  compared :
      (f : Bytes → ℕ) (st : SignedTransaction) (key : Bytes) (buf : TraderBuf)
      → key_of chain st.transaction.from ≡ ok key
      → key_of chain st.transaction.to ≢ ok key
      → Expect chain start starts f buf
      → (r : Result PoolError TraderInfo × TraderBuf)
      → get_trader_info chain st.transaction.from none buf ≡ r
      → Ended
          (Judged f st key)
          Loose
          (by_order chain st (compare_nonce chain st.transaction.from st.transaction.nonce buf))
  compared f st key buf named apart h (ok info, buf1) e =
      let read : Read chain start starts f key info buf1 =
        subst (Ended (Read chain start starts f key) (λ _. Expect chain start starts f)) e
          ((Runs-get chain start starts f st.transaction.from none key named).at buf h) in
      subst (λ p. Ended (Judged f st key) Loose (by_order chain st p))
        (sym (compare_nonce-ok st buf buf1 info e))
        (by_order-Judged f st key (compare st.transaction.nonce info.next_nonce) buf1 named apart
          read.0 (λ same buf' q. compare-eq _ _ same ∙ read.1))
  compared f st key buf named apart h (err x, buf1) e =
      let back : buf1 ≡ buf = get-stays chain st.transaction.from key buf buf1 x named e in
      let kept : Expect chain start starts f buf1 =
        subst (Expect chain start starts f) (sym back) h in
      subst (λ p. Ended (Judged f st key) Loose (by_order chain st p))
        (sym (compare_nonce-err st buf buf1 x e))
        (by_order-Judged f st key (compare st.transaction.nonce 0) buf1 named apart kept
          (λ same buf' q.
            let (r, info, buf2, got) = (calculated-Opens chain st.transaction).opened buf1 buf' q in
            let (info0, found) =
              get-none chain st.transaction.from key r buf1 buf2 info named got in
            absurd (cc (found, back, ap (λ (p : Result PoolError TraderInfo × TraderBuf). p.0) e))))

  Runs-judge :
      (f : Bytes → ℕ) (st : SignedTransaction) (key : Bytes)
      → key_of chain st.transaction.from ≡ ok key
      → key_of chain st.transaction.to ≢ ok key
      → Runs (Expect chain start starts f) (judge chain st) (Judged f st key) Loose
  unfolding judge
  Runs-judge f st key named apart =
      Runs->>= (query (λ _. key_of chain st.transaction.from)) _
        (Runs-query _ (λ s k h e. h) (λ s e h q. tt))
        (λ _. record {
          at = λ s h.
              compared f st key s named apart h (get_trader_info chain st.transaction.from none s)
                refl;
        })

  abbrev Out : (Bytes → ℕ) → ℕ → List Entry × List ℕ → TraderBuf → Type 0
  Out f room out buf = Follows f out.0 × (length out.0 ≤ room)

  Runs-go_on :
      (f : Bytes → ℕ) (room i : ℕ) (e : Entry) (took passed : Calculation (List Entry × List ℕ))
      → Runs (Expect chain start starts (bump e.caller f)) took (Out (bump e.caller f) room) Loose
      → Runs (Expect chain start starts f) passed (Out f (suc room)) Loose
      → (v : Verdict)
      → Runs (Judged f e.st e.caller v) (go_on chain e i took passed v) (Out f (suc room)) Loose
  Runs-go_on f room i e took passed h k taken =
      Runs-weaken _
        (Runs-given {P = Expect chain start starts (bump e.caller f)} {C = nonce_of e ≡ f e.caller}
          _ (λ n. Runs->>= took _ h (λ rest. Runs-pure _ (λ s q. ((n, q.0), omega (arith, q.1))))))
        (λ s q. (q.1, q.0)) (λ out s q. q) (λ x s q. q)
  Runs-go_on f room i e took passed h k bad = Runs->>= passed _ k (λ rest. Runs-pure _ (λ s q. q))
  Runs-go_on f room i e took passed h k skipped = k

  -- The loop with the nonces that are expected next.
  Runs-pick_loop :
      (f : Bytes → ℕ) (room : ℕ) (es : List Entry)
      → All (IsEntry chain) es
      → Runs (Expect chain start starts f) (pick_loop chain room es) (Out f room) Loose
  unfolding pick_loop
  Runs-pick_loop f room [] h = Runs-pure _ (λ s k. (tt, omega arith))
  Runs-pick_loop f zero (e ∷ es) h = Runs-pure _ (λ s k. (tt, omega arith))
  Runs-pick_loop f (suc room) (e ∷ es) h =
      Runs->>= (judge chain e.st) _ (Runs-judge f e.st e.caller h.0.0 h.0.1) (
        Runs-go_on f room (length es) e (pick_loop chain room es) (pick_loop chain (suc room) es)
          (Runs-pick_loop (bump e.caller f) room es h.1) (Runs-pick_loop f (suc room) es h.1))

  selected-Out :
      (q q' : Queue) (picked : List Entry) (r : Result PoolError (List Entry × List ℕ) × TraderBuf)
      → Ended (Out start pending_limit) Loose r
      → selected chain q r.0 ≡ (ok picked, q')
      → Follows start picked × (length picked ≤ pending_limit)
  selected-Out q q' picked (ok (es, bads), buf) h done =
      let (u, q1, first, rest) = >>=-inv (remove_all chain bads) _ q done in
      let same : es ≡ picked = cc (ap (λ r. r.0) rest) in
      subst (λ l. Follows start l × (length l ≤ pending_limit)) same h
  selected-Out q q' picked (err e, buf) h done = absurd (cc (ap (λ r. r.0) done))

  -- `Pending` selects at most 100 transactions, and in their order each has the nonce that its
  -- caller is to use next: the one that the chain gives first, then one above, modulo 2 ^ 64. No
  -- entry of the queue transfers to its own caller, and an address's nonce is one of its text.
  pub pending-Follows :
      (q q' : Queue) (picked : List Entry)
      → All (IsEntry chain) q.st_list
      → pending chain q ≡ (ok picked, q')
      → Follows start picked × (length picked ≤ pending_limit)
  unfolding pending find_trader
  pending-Follows q q' picked entries done =
      selected-Out q q' picked (pick_loop chain pending_limit (reverse q.st_list) [])
        ((Runs-pick_loop start pending_limit (reverse q.st_list)
            (All-reverse (IsEntry chain) q.st_list entries)).at
          [] (λ k. refl))
        done
