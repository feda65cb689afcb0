-- ===== src/Chain/Build.antt =====
-- What `AddBlock` has written into its transaction of the store when it comes to the commit.
use korthochain.Common.{
  true, ℕ, ◌+◌, ◌<◌, ◌≡◌, refl, sym, subst, List, false, not, ◌==◌, arith, length, length-append,
  ltb, inl, inr,
}
use korthochain.Common.Word.{◌+64◌}
use korthochain.Common.Bytes.{Bytes, bytes_eq, bytes_eq→eq, bytes_eq_self, bytes_eq-length, ascii}
use korthochain.Common.Outcome.{Result, ok, err, Result-cases}
use korthochain.Common.Keeps.{
  Keeps, Keeps-pure, Keeps->>=, Keeps-×, Ensures, Ensures->>=, Ensures-at, Ensures-if,
  Ensures-raise, Ensures-any, Ensures-given, Ensures-×, Keeps-const, Keeps-query, Ensures-keeps,
  Ensures-query, Ensures-pure, Ensures-raise_if, Ensures-weaken,
}
use korthochain.Codec.{e64func}
use korthochain.Codec.Laws.{length-e64func}
use korthochain.Store.{IsKv, IsKey, StoreError}
use korthochain.Transaction.{FinishedTransaction}
use korthochain.Wire.{WireError}
use korthochain.Wire.Blocks.{Block, serialize}
use korthochain.Chain.{
  snap_root_differs, below_init_height, wrong_height, Machine, init_height, snap_root_key,
  height_key, hash_key, root_key, get_max_block_height, wire_result,
}
use korthochain.Chain.Apply.{Work, on_txn, on_txn_ignored, apply_all}
use korthochain.Chain.AddBlock.{
  fact_commit, check_old_root, new_root, put_height, put_block, store_block, build,
}
use korthochain.Chain.Frame.{
  IsDigest, Reads, OnTxn, frame_rules, Keeps-on_txn, Keeps-on_txn_ignored, Keeps-set,
  Keeps-apply_all,
}

pub length-hash_key : (h : ℕ) → length (hash_key h) ≡ 19
length-hash_key h = omega (arith, length-append (ascii "blockheight") (e64func h), length-e64func h)

pub length-root_key : (h : ℕ) → length (root_key h) ≡ 17
length-root_key h = omega (arith, length-append (ascii "blockSnap") (e64func h), length-e64func h)

-- What a read of a key gives.
abbrev pub Has : {T S : Type 0} → Machine T S → Bytes → Bytes → Work T S → Type 0
Has m j v w = m.kv.get j w.txn ≡ ok v

module _ {T S : Type 0} (m : Machine T S) (laws : IsKv m.kv) where
  -- A key holds what was just written to it.
  Ensures-put :
      {P : Work T S → Type 0} (k v : Bytes)
      → Keeps P (on_txn (m.kv.set k v))
      → Ensures P (on_txn (m.kv.set k v)) (λ _ w. P w × Has m k v w)
  Ensures-put {P} k v keeps = Ensures-× _ (Ensures-keeps _ keeps) (
      Ensures-at (on_txn (m.kv.set k v)) (λ w h. elim (Result-cases (m.kv.set k v w.txn).0) [
        | inl (u, e) ↦ rw e (rw (laws.get-set k v w.txn k e, bytes_eq_self k))
        | inr (x, e) ↦ rw e tt
      ]))

  pub Ensures-put_ignored :
      {P : Work T S → Type 0} (k v : Bytes)
      → IsKey k
      → Keeps P (on_txn_ignored (m.kv.set k v))
      → Ensures P (on_txn_ignored (m.kv.set k v)) (λ _ w. P w × Has m k v w)
  Ensures-put_ignored {P} k v key keeps = Ensures-× _ (Ensures-keeps _ keeps) (
      Ensures-at (on_txn_ignored (m.kv.set k v))
        (λ w h. rw (laws.get-set k v w.txn k (laws.set-accepts k v w.txn key), bytes_eq_self k)))

module _ {T S : Type 0} (m : Machine T S) (laws : IsKv m.kv) (digest : IsDigest m.sha256) where
  module _ (j : Bytes) (r : Result StoreError Bytes) where
    abbrev Kept : Work T S → Type 0
    Kept = OnTxn (Reads m j r)

    Keeps-new_root : (b : Block) (com_hash : Bytes) → Keeps Kept (new_root m b com_hash)
    unfolding new_root
    Keeps-new_root b com_hash = search frame_rules depth 30

    Keeps-fact_commit : Keeps Kept (fact_commit m)
    unfolding fact_commit
    Keeps-fact_commit = search frame_rules depth 30

    Keeps-check_old_root : (b : Block) → Keeps Kept (check_old_root m b)
    unfolding check_old_root
    Keeps-check_old_root b = search (frame_rules, Keeps-fact_commit) depth 30

    Keeps-put_height :
        (height : ℕ) (hash : Bytes)
        → bytes_eq (hash_key height) j ≡ false
        → bytes_eq height_key j ≡ false
        → Keeps Kept (put_height m height hash)
    unfolding put_height
    Keeps-put_height height hash h1 h2 =
        Keeps->>= _ _
          (Keeps-on_txn (Reads m j r) _ (Keeps-set m laws j r (hash_key height) hash h1))
          (λ _.
            Keeps-on_txn_ignored (Reads m j r) _
              (Keeps-set m laws j r height_key (e64func height) h2))

    Keeps-put_block :
        (height : ℕ) (b : Block) (com_hash : Bytes)
        → bytes_eq b.hash j ≡ false
        → bytes_eq (root_key height) j ≡ false
        → bytes_eq snap_root_key j ≡ false
        → Keeps Kept (put_block m height b com_hash)
    unfolding put_block
    Keeps-put_block height b com_hash h1 h2 h3 = Keeps->>= _ _ (Keeps-query _) (λ data_.
        Keeps->>= _ _ (Keeps-on_txn (Reads m j r) _ (Keeps-set m laws j r b.hash data_ h1)) (λ _.
          Keeps->>= _ _
            (Keeps-on_txn (Reads m j r) _ (Keeps-set m laws j r (root_key height) com_hash h2))
            (λ _.
              Keeps-on_txn_ignored (Reads m j r) _
                (Keeps-set m laws j r snap_root_key com_hash h3))))

    -- The keys of the blocks' heights, other than the block's own, and the key of the height are
    -- left alone by the second half.
    Keeps-store_block :
        (db : T) (b : Block) (height : ℕ)
        → length j < 32
        → bytes_eq b.hash j ≡ false
        → bytes_eq (root_key height) j ≡ false
        → bytes_eq snap_root_key j ≡ false
        → Keeps Kept (store_block m db b height)
    unfolding store_block
    Keeps-store_block db b height short h1 h2 h3 =
        Keeps->>= _ _ (Keeps-apply_all m laws digest j r short true db b height 0 0 b.transactions)
          (λ done. Keeps->>= _ _ Keeps-fact_commit (λ com_hash.
            Keeps->>= _ _ (Keeps-new_root b com_hash) (λ snap_root.
              Keeps->>= _ _ (Keeps-put_block height _ com_hash h1 h2 h3) (λ _. Keeps-pure _))))

  -- The block as it is stored: its transactions, its root and its gas are filled in.
  abbrev pub IsFilled : Block → Block → Type 0
  IsFilled b stored =
      (txs : List FinishedTransaction) × (root : Bytes) × (gas : ℕ) × (stored
        ≡ record b { transactions = txs; snap_root = root; gas_used = gas })

  -- The root that a block comes out with is the root of the state.
  Ensures-new_root :
      (b : Block) (com_hash : Bytes)
      → Ensures (λ _. Unit {0}) (new_root m b com_hash) (λ root _. root ≡ com_hash)
  unfolding new_root
  Ensures-new_root b com_hash =
      Ensures-if (ltb (init_height + 1) b.height) _ _
        (Ensures->>= {Q = λ _ _. Unit {0}} _ _ (Ensures-query _ (λ w old h e. tt)) (λ old.
          Ensures-if (bytes_eq old b.snap_root) _ _ (Ensures-pure com_hash (λ w h. refl)) (
            Ensures->>= _ _
              (Ensures-raise_if (not (bytes_eq com_hash b.snap_root)) snap_root_differs)
              (λ _.
                Ensures-pure b.snap_root
                  (λ w h. sym (bytes_eq→eq com_hash b.snap_root (ground (arith, h.1))))))))
        (Ensures-if (b.height == init_height + 1) _ _ (Ensures-pure com_hash (λ w h. refl))
          (Ensures-raise below_init_height))

  -- A write of one key keeps what another one has.
  Keeps-Has : (k v j x : Bytes) → bytes_eq k j ≡ false → Keeps (Has m j x) (on_txn (m.kv.set k v))
  Keeps-Has k v j x h = Keeps-on_txn (Reads m j (ok x)) _ (Keeps-set m laws j (ok x) k v h)

  Keeps-Has_ignored :
      (k v j x : Bytes) → bytes_eq k j ≡ false → Keeps (Has m j x) (on_txn_ignored (m.kv.set k v))
  Keeps-Has_ignored k v j x h =
      Keeps-on_txn_ignored (Reads m j (ok x)) _ (Keeps-set m laws j (ok x) k v h)

  wire_result-ok : {A : Type 0} (r : Result WireError A) (a : A) → wire_result r ≡ ok a → r ≡ ok a
  wire_result-ok (ok b) a e = cc
  wire_result-ok (err x) a e = absurd (cc e)

  -- What the writes of the block leave.
  Ensures-put_block :
      {P : Work T S → Type 0} (height : ℕ) (b : Block) (com_hash : Bytes)
      → length b.hash ≡ 32
      → Ensures P (put_block m height b com_hash) (λ _ w.
        ((data_ : Bytes) × (serialize m.cbor b ≡ ok data_) × Has m b.hash data_ w)
        × Has m (root_key height) com_hash w
        × Has m snap_root_key com_hash w)
  unfolding put_block
  Ensures-put_block height b com_hash size =
      let root_other : bytes_eq (root_key height) b.hash ≡ false =
        bytes_eq-length (root_key height) b.hash (λ e. omega (arith, length-root_key height)) in
      let snap_other : bytes_eq snap_root_key b.hash ≡ false =
        bytes_eq-length snap_root_key b.hash (λ e. omega arith) in
      let snap_root : bytes_eq snap_root_key (root_key height) ≡ false =
        bytes_eq-length snap_root_key (root_key height)
          (λ e. omega (arith, length-root_key height)) in
      Ensures->>= {Q = λ data_ _. serialize m.cbor b ≡ ok data_} _ _
        (Ensures-query _ (λ w data_ h e. wire_result-ok (serialize m.cbor b) data_ e))
        (λ data_. Ensures->>= _ _ (Ensures-put m laws b.hash data_ (Keeps-const _)) (λ _.
          Ensures->>= _ _
            (Ensures-put m laws (root_key height) com_hash (
              Keeps-× _ (Keeps-const _)
                (Keeps-Has (root_key height) com_hash b.hash data_ root_other)))
            (λ _.
              Ensures-weaken _
                (Ensures-put_ignored m laws snap_root_key com_hash ((λ e. omega arith), omega arith)
                  (Keeps-× _
                    (Keeps-× _ (Keeps-const _)
                      (Keeps-Has_ignored snap_root_key com_hash b.hash data_ snap_other))
                    (Keeps-Has_ignored snap_root_key com_hash (root_key height) com_hash
                      snap_root)))
                (λ _ w h. ((data_, h.0.0.0, h.0.0.1), h.0.1, h.1)))))

  -- What the second half of `AddBlock` leaves.
  abbrev pub IsStored : Block → ℕ → Block → Work T S → Type 0
  IsStored b height stored w =
      IsFilled b stored
      × ((data_ : Bytes) × (serialize m.cbor stored ≡ ok data_) × Has m b.hash data_ w)
      × Has m (root_key height) stored.snap_root w
      × Has m snap_root_key stored.snap_root w

  Ensures-store_block :
      {P : Work T S → Type 0} (db : T) (b : Block) (height : ℕ)
      → length b.hash ≡ 32
      → Ensures P (store_block m db b height) (IsStored b height)
  unfolding store_block
  Ensures-store_block db b height size =
      Ensures->>= (apply_all m true db b height 0 0 b.transactions) _ (Ensures-any _) (λ done.
        Ensures->>= (fact_commit m) _ (Ensures-any _) (λ com_hash.
          Ensures->>= _ _ (Ensures-new_root b com_hash) (λ snap_root.
            let stored : Block = record b {
              transactions = done.0;
              snap_root = snap_root;
              gas_used = done.1;
            } in
            Ensures->>= _ _
              (Ensures-× _ (Ensures-keeps _ (Keeps-const _))
                (Ensures-put_block height stored com_hash size))
              (λ _. Ensures-pure stored (λ w h.
                let same : snap_root ≡ com_hash = h.0 in
                ((done.0, snap_root, done.1, refl), h.1.0, rw same h.1.1, rw same h.1.2))))))

  -- What `AddBlock` has written when it comes to the commit: the block's height is one more than
  -- the chain's, and leads to its hash; the hash leads to the block; and the other heights lead to
  -- what they did.
  abbrev pub IsBuilt : T → Block → Block → Work T S → Type 0
  IsBuilt db b stored w =
      ((prev : ℕ) × (get_max_block_height m db ≡ ok prev) × (b.height ≡ prev +64 1))
      × IsStored b b.height stored w
      × Has m (hash_key b.height) b.hash w
      × Has m height_key (e64func b.height) w

  is_built :
      (db : T) (b stored : Block) (w : Work T S) (prev : ℕ)
      → get_max_block_height m db ≡ ok prev
      → b.height ≡ prev +64 1
      → IsStored b (prev +64 1) stored w
      → Has m (hash_key (prev +64 1)) b.hash w
      → Has m height_key (e64func (prev +64 1)) w
      → IsBuilt db b stored w
  is_built db b stored w prev was e kept hash height =
      let moved =
        subst
          (λ k.
            IsStored b k stored w × Has m (hash_key k) b.hash w × Has m height_key (e64func k) w)
          (sym e) (kept, hash, height) in
      ((prev, was, e), moved.0, moved.1, moved.2)

  pub Ensures-build :
      (db : T) (b : Block)
      → length b.hash ≡ 32
      → Ensures (λ _. Unit {0}) (build m db b) (IsBuilt db b)
  unfolding build put_height
  Ensures-build db b size =
      let apart : (k : ℕ) → bytes_eq height_key (hash_key k) ≡ false =
        λ k. bytes_eq-length height_key (hash_key k) (λ e. omega (arith, length-hash_key k)) in
      Ensures->>= {Q = λ prev _. get_max_block_height m db ≡ ok prev} _ _
        (Ensures-query _ (λ w prev h e. e))
        (λ prev. Ensures->>= _ _ (Ensures-keeps _ (Keeps-const _)) (λ _.
          Ensures->>= _ _ (Ensures-raise_if (not (b.height == prev +64 1)) wrong_height) (λ _.
            Ensures->>= _ _
              (Ensures->>= _ _ (Ensures-put m laws (hash_key (prev +64 1)) b.hash (Keeps-const _))
                (λ _.
                  Ensures-put_ignored m laws height_key (e64func (prev +64 1))
                    ((λ e. omega (arith, e)), omega arith)
                    (Keeps-× _ (Keeps-const _) (Keeps-Has_ignored _ _ _ _ (apart (prev +64 1))))))
              (λ _.
                Ensures-weaken _
                  (Ensures-× _ (Ensures-store_block db b (prev +64 1) size) (
                    Ensures-keeps _ (
                      Keeps-× _
                        (Keeps-× _ (Keeps-const _) (
                          Keeps-store_block (hash_key (prev +64 1)) (ok b.hash) db b (prev +64 1)
                            (omega (arith, length-hash_key (prev +64 1)))
                            (bytes_eq-length b.hash _
                              (λ e. omega (arith, length-hash_key (prev +64 1))))
                            (bytes_eq-length (root_key (prev +64 1)) _ (λ e.
                              omega (
                                arith,
                                length-hash_key (prev +64 1),
                                length-root_key (prev +64 1),
                              )))
                            (bytes_eq-length snap_root_key _
                              (λ e. omega (arith, length-hash_key (prev +64 1))))))
                        (Keeps-store_block height_key (ok (e64func (prev +64 1))) db b (prev +64 1)
                          (omega arith) (bytes_eq-length b.hash _ (λ e. omega arith))
                          (bytes_eq-length (root_key (prev +64 1)) _
                            (λ e. omega (arith, length-root_key (prev +64 1))))
                          (bytes_eq-length snap_root_key _ (λ e. omega arith))))))
                  (λ stored w h.
                    is_built db b stored w prev h.1.0.0.0 (ground (arith, h.1.0.0.1)) h.0 h.1.0.1
                      h.1.1)))))

  -- A key that `AddBlock` does not write.
  pub Ensures-build_kept :
      (db : T) (b : Block) (j : Bytes) (r : Result StoreError Bytes)
      → length j < 32
      → bytes_eq b.hash j ≡ false
      → bytes_eq (hash_key b.height) j ≡ false
      → bytes_eq (root_key b.height) j ≡ false
      → bytes_eq height_key j ≡ false
      → bytes_eq snap_root_key j ≡ false
      → Ensures (OnTxn (Reads m j r)) (build m db b) (λ _. OnTxn (Reads m j r))
  unfolding build
  Ensures-build_kept db b j r short h1 h2 h3 h4 h5 =
      Ensures->>= {Q = λ _. OnTxn (Reads m j r)} _ _ (Ensures-keeps _ (Keeps-query _)) (λ prev.
        Ensures->>= _ _ (Ensures-keeps _ (Keeps-check_old_root j r b)) (λ _.
          Ensures->>= _ _ (Ensures-raise_if (not (b.height == prev +64 1)) wrong_height) (λ _.
            Ensures-given _ (λ guard.
              let e : b.height ≡ prev +64 1 = ground (arith, guard) in
              Ensures->>= _ _
                (Ensures-keeps _ (Keeps-put_height j r (prev +64 1) b.hash (rw (← e) h2) h4))
                (λ _.
                  Ensures-keeps _
                    (Keeps-store_block j r db b (prev +64 1) short h1 (rw (← e) h3) h5))))))
