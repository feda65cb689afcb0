-- ===== src/Chain/Laws.antt =====
-- What `AddBlock` writes: a success adds the block on top, an error nothing of the transaction.
use korthochain.Common.{
  ℕ, ◌≤◌, ◌≡◌, ◌≢◌, refl, sym, ◌∙◌, ap, [], false, arith, length, some, append-nil, ltb, Bool-cases,
  inl, inr,
}
use korthochain.Common.Word.{◌+64◌, IsU64}
use korthochain.Common.Bytes.{Bytes, bytes_eq_ne, bytes_eq-length}
use korthochain.Common.Outcome.{Result, ok, err, Result-cases}
use korthochain.Codec.{e64func}
use korthochain.Codec.Laws.{d64func-e64func}
use korthochain.Store.{IsKv, StoreError}
use korthochain.Wire.{IsCbor}
use korthochain.Wire.Blocks.{Block, deserialize, big_bytes}
use korthochain.Wire.BlockRoundTrip.{IsBlock, Fits, deserialize-serialize}
use korthochain.Chain.{
  ChainError, of_store, Machine, snap_root_key, height_key, hash_key, root_key,
  get_max_block_height, get_hash, get_block_by_hash, get_block_by_height, tip, get_snap_root,
  store_result,
}
use korthochain.Chain.Apply.{Work}
use korthochain.Chain.AddBlock.{
  Node, build, committed, commit_block, add_from_root, add_block, after_error, reverts, roll_state,
}
use korthochain.Chain.Frame.{IsDigest}
use korthochain.Chain.Build.{
  IsBuilt, Ensures-build, Ensures-build_kept, length-hash_key, length-root_key,
}

module _ {T S : Type 0} (m : Machine T S) where
  roll_state-db : (root : Bytes) (db : T) (sdb : S) → (roll_state m root db sdb).db ≡ db
  unfolding roll_state
  roll_state-db root db sdb = elim (Result-cases (m.open_state db root)) [
    | inl (old, e) ↦ rw (e, roll_state) refl
    | inr (x, e) ↦ rw (e, roll_state) refl
  ]

  after_error-db :
      (b : Block) (root : Bytes) (db : T) (sdb : S) (x : ChainError)
      → (after_error m b root db sdb x).1.db ≡ db
  unfolding after_error
  after_error-db b root db sdb x = elim (Bool-cases (reverts m b x)) [
    | inl e ↦ rw e (roll_state-db root db sdb)
    | inr e ↦ rw e refl
  ]

  -- Every error of `AddBlock`, a panic too, leaves the store as it was, apart from the nodes of the
  -- state's trie, which `factCommit` writes beside the transaction and the model keeps with the state.
  pub add_block-store :
      (b : Block) (n n' : Node T S) (e : ChainError) → add_block m b n ≡ (err e, n') → n'.db ≡ n.db
  unfolding add_block add_from_root commit_block committed
  add_block-store b n n' e out = from_root (get_snap_root m n.db) out
    where
      from_commit :
          (built : Block) (w : Work T S) (root : Bytes) (r : Result StoreError T)
          → committed m b root n.db w.sdb built r ≡ (err e, n')
          → n'.db ≡ n.db
      from_commit built w root (ok d) q = absurd (cc q)
      from_commit built w root (err x) q =
          sym (ap (λ r. r.1.db) q) ∙ after_error-db b root n.db w.sdb (of_store x)

      from_build :
          (root : Bytes) (r : Result ChainError Block × Work T S)
          → commit_block m b root n.db r ≡ (err e, n')
          → n'.db ≡ n.db
      from_build root (err x, w) q = sym (ap (λ r. r.1.db) q) ∙ after_error-db b root n.db w.sdb x
      from_build root (ok built, w) q = from_commit built w root (m.commit w.txn) q

      from_root : (r : Result ChainError Bytes) → add_from_root m b n r ≡ (err e, n') → n'.db ≡ n.db
      from_root (err x) q = sym (ap (λ r. r.1.db) q)
      from_root (ok root) q =
          from_build root (build m n.db b (record { txn = n.db; sdb = n.sdb })) q

  -- What a success of `AddBlock` went through: the root was read, the writes succeeded, and what
  -- they wrote was committed.
  pub add_block-inv :
      (b stored : Block) (n n' : Node T S)
      → add_block m b n ≡ (ok stored, n')
      → (w : Work T S) × (build m n.db b (record { txn = n.db; sdb = n.sdb }) ≡ (ok stored, w))
        × (m.commit w.txn ≡ ok n'.db)
        × (n'.sdb ≡ w.sdb)
  unfolding add_block add_from_root commit_block committed after_error
  add_block-inv b stored n n' done = from_root (get_snap_root m n.db) done
    where
      from_commit :
          (built : Block) (w : Work T S) (root : Bytes) (r : Result StoreError T)
          → committed m b root n.db w.sdb built r ≡ (ok stored, n')
          → (built ≡ stored) × (r ≡ ok n'.db) × (n'.sdb ≡ w.sdb)
      from_commit built w root (ok d) e =
          (cc (ap (λ r. r.0) e), ap (λ r. ok r.1.db) e, sym (ap (λ r. r.1.sdb) e))
      from_commit built w root (err x) e = absurd (cc e)

      from_build :
          (root : Bytes) (r : Result ChainError Block × Work T S)
          → commit_block m b root n.db r ≡ (ok stored, n')
          → (w : Work T S) × (r ≡ (ok stored, w)) × (m.commit w.txn ≡ ok n'.db) × (n'.sdb ≡ w.sdb)
      from_build root (err x, w) e = absurd (cc e)
      from_build root (ok built, w) e =
          let ends = from_commit built w root (m.commit w.txn) e in
          (w, ap (λ s. (ok s, w)) ends.0, ends.1, ends.2)

      from_root :
          (r : Result ChainError Bytes)
          → add_from_root m b n r ≡ (ok stored, n')
          → (w : Work T S) × (build m n.db b (record { txn = n.db; sdb = n.sdb }) ≡ (ok stored, w))
            × (m.commit w.txn ≡ ok n'.db)
            × (n'.sdb ≡ w.sdb)
      from_root (err x) e = absurd (cc e)
      from_root (ok root) e =
          from_build root (build m n.db b (record { txn = n.db; sdb = n.sdb })) e

hash_key-injective : (i k : ℕ) → IsU64 i → IsU64 k → hash_key i ≡ hash_key k → i ≡ k
hash_key-injective i k hi hk e = cc (d64func-e64func i hi, d64func-e64func k hk)

-- What is committed reads as it did in the transaction.
abbrev pub IsCommit : {T S : Type 0} → Machine T S → Type 0
IsCommit {T} m = (t d : T) → m.commit t ≡ ok d → (j : Bytes) → m.kv.get j d ≡ m.kv.get j t

module _ {T S : Type 0} (m : Machine T S) (laws : IsKv m.kv) (digest : IsDigest m.sha256)
    (commits : IsCommit m) (b stored : Block) (n n' : Node T S) (size : length b.hash ≡ 32)
    (added : add_block m b n ≡ (ok stored, n')) where
  built : (w : Work T S) × IsBuilt m laws digest n.db b stored w × (m.commit w.txn ≡ ok n'.db)
  built =
      let (w, e, c, s) = add_block-inv m b stored n n' added in
      (w, (Ensures-build m laws digest n.db b size).ends _ tt e, c)

  height_fits : IsU64 b.height
  height_fits = let (w, facts, c) = built in omega (arith, facts.0.2)

  -- A block that `AddBlock` accepts has the height above the chain's, and the chain's height
  -- becomes the block's, which leads to its hash.
  pub add_block-height :
      ((prev : ℕ) × (get_max_block_height m n.db ≡ ok prev) × (b.height ≡ prev +64 1))
      × (get_max_block_height m n'.db ≡ ok b.height)
      × (get_hash m b.height n'.db ≡ ok b.hash)
  unfolding get_max_block_height get_hash
  add_block-height =
      let (w, (prev, kept, hash, height), c) = built in
      (
        prev,
        rw (commits w.txn n'.db c height_key, height, d64func-e64func b.height height_fits) refl,
        rw (commits w.txn n'.db c (hash_key b.height), hash) refl,
      )

  -- The other heights lead to the hashes that they led to before.
  pub add_block-other : (i : ℕ) → IsU64 i → i ≢ b.height → get_hash m i n'.db ≡ get_hash m i n.db
  unfolding get_hash
  add_block-other i hi other =
      let (w, e, c, s) = add_block-inv m b stored n n' added in
      let size_i = length-hash_key i in
      let kept : m.kv.get (hash_key i) w.txn ≡ m.kv.get (hash_key i) n.db =
        (Ensures-build_kept m laws digest n.db b (hash_key i) (m.kv.get (hash_key i) n.db)
            (omega (arith, size_i))
            (bytes_eq-length b.hash (hash_key i) (λ q. omega (arith, size_i)))
            (bytes_eq_ne (hash_key b.height) (hash_key i)
              (λ q. other (hash_key-injective i b.height hi height_fits (sym q))))
            (bytes_eq-length (root_key b.height) (hash_key i)
              (λ q. omega (arith, size_i, length-root_key b.height)))
            (bytes_eq-length height_key (hash_key i) (λ q. omega (arith, size_i)))
            (bytes_eq-length snap_root_key (hash_key i) (λ q. omega (arith, size_i)))).ends
          _ refl e in
      ap store_result (commits w.txn n'.db c (hash_key i) ∙ kept)

  -- The root in a block that `AddBlock` accepts, with a hash of 32 bytes and a store within its
  -- limits, is the root that the store then holds for the chain and for the block's height.
  pub add_block-root :
      (m.kv.get snap_root_key n'.db ≡ ok stored.snap_root)
      × (m.kv.get (root_key b.height) n'.db ≡ ok stored.snap_root)
  add_block-root =
      let (w, (prev, kept, hash, height), c) = built in
      (
        commits w.txn n'.db c snap_root_key ∙ kept.3,
        commits w.txn n'.db c (root_key b.height) ∙ kept.2,
      )

  -- A block that `AddBlock` accepts, with a hash of 32 bytes, a height above 0 and a store within
  -- its limits, is what the chain gives back at its height, for its hash, and at the tip, where the
  -- block as it was stored is well formed and its difficulties are given.
  pub add_block-read :
      IsCbor m.cbor
      → 1 ≤ b.height
      → (d g : ℕ) → IsBlock m.cbor stored
      → Fits m.cbor (big_bytes d)
      → Fits m.cbor (big_bytes g)
      → b.difficulty ≡ some d
      → b.global_difficulty ≡ some g
      → (get_block_by_height m b.height n'.db ≡ ok stored)
        × (get_block_by_hash m b.hash n'.db ≡ ok stored)
        × (tip m n'.db ≡ ok stored)
  unfolding get_block_by_height get_block_by_hash tip get_hash get_max_block_height
  add_block-read cbor low d g well hd hg ed eg =
      let (w, (prev, kept, hash, height), c) = built in
      let ((txs, root, gas, filled), (data_, written, has), at_root, at_snap) = kept in
      let (bytes, wrote, back) =
        deserialize-serialize m.cbor cbor stored d g [] well hd hg
          (ap (λ k. k.difficulty) filled ∙ ed) (ap (λ k. k.global_difficulty) filled ∙ eg) in
      let same : bytes ≡ data_ = cc (wrote, written) in
      let decoded : deserialize m.cbor data_ ≡ ok stored =
        rw (← same) (rw (← append-nil bytes) back) in
      let at_hash : m.kv.get b.hash n'.db ≡ ok data_ = commits w.txn n'.db c b.hash ∙ has in
      let at_height : m.kv.get (hash_key b.height) n'.db ≡ ok b.hash =
        commits w.txn n'.db c (hash_key b.height) ∙ hash in
      let at_top : m.kv.get height_key n'.db ≡ ok (e64func b.height) =
        commits w.txn n'.db c height_key ∙ height in
      let above : ltb b.height 1 ≡ false = ground arith in
      (
        rw (above, at_height) (rw at_hash (rw decoded refl)),
        rw at_hash (rw decoded refl),
        rw (at_top, d64func-e64func b.height height_fits)
            (rw at_height (rw at_hash (rw decoded refl))),
      )
