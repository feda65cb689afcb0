-- ===== src/Consensus/Received.antt =====
-- What `ProcessBlock` of pkg/consensus/syncblock.go and `AddOrphanBlock` of pkg/consensus/chain.go
-- do to the chain and to the pool of orphans.
use korthochain.Common.{
  ℕ, ◌+◌, ◌≡◌, refl, List, [], ◌∷◌, ◌++◌, Bool, true, false, Option, none, some, not, ◌==◌, ltb,
  All, if◌then◌else◌,
}
use korthochain.Common.Bytes.{Bytes, bytes_eq_self}
use korthochain.Common.Dict.{lookup_key}
use korthochain.Common.Outcome.{Result, ok, err}
use korthochain.Common.Action.{Action, pure}
use korthochain.Common.Runs.{
  Ended, Runs, Runs->>=, Runs-query, Runs-pure, Runs-raise, Runs-if, Runs-modify, Runs-weaken,
}
use korthochain.Wire.Blocks.{Block}
use korthochain.Chain.{init_height}
use korthochain.Consensus.{ConsensusError, panicked, Blockchains, Lawful, IsOrdered}
use korthochain.Consensus.Orphans.{
  OrphanBlock, Orphans, bytes_to_hash, waiting_for, remove_orphan_block, expire, insert_orphan,
  add_orphan_block, held, orphan_block,
}
use korthochain.Consensus.Accept.{maybe_accept_block}
use korthochain.Consensus.Accepted.{Panics, maybe_accept_block-Runs, attempt-Runs, Panics-succeeded}
use korthochain.Consensus.Process.{
  BlockChain, Processing, on_chain, on_orphans, process_orphan, block_exists, process_child,
  process_at, process_block,
}
use korthochain.Consensus.Settled.{Good, Stops, Waits, Settled-Good, process_orphan-Settled}
use korthochain.Consensus.Waiting.{IsKeyed, waiting-IsKeyed, remove-IsKeyed, IsKeyed-delete}

All-append {ℓ κ} :
    {A : Type ℓ} (P : A → Type κ) (xs ys : List A) → All P xs → All P ys → All P (xs ++ ys)
All-append P [] ys h g = g
All-append P (x ∷ xs) ys h g = (h.0, All-append P xs ys h.1 g)

module _ (P : OrphanBlock → Type 0) where
  expire-IsKeyed :
      (now : ℕ) (xs : List (Bytes × OrphanBlock)) (o : Orphans)
      → IsKeyed P o.by_prev
      → IsKeyed P (expire now xs o).by_prev
  unfolding expire
  expire-IsKeyed now [] o h = h
  expire-IsKeyed now ((k, x) ∷ xs) o h = expire-IsKeyed now xs _ (drop (ltb x.expiration now))
    where
      drop : (b : Bool) → IsKeyed P (if b then remove_orphan_block x o else o).by_prev
      drop true = remove-IsKeyed P x o h
      drop false = h

  insert-IsKeyed :
      (x : OrphanBlock) (old : Option OrphanBlock) (o : Orphans)
      → P x
      → IsKeyed P o.by_prev
      → IsKeyed P (insert_orphan x old o).by_prev
  insert-IsKeyed x (some y) o p h = h
  insert-IsKeyed x none o p h =
      let prev = bytes_to_hash x.block.prev_hash in
      (
        All-append _ (waiting_for prev o) (x ∷ []) (waiting-IsKeyed P prev o h) ((refl, p), tt),
        IsKeyed-delete P prev o.by_prev h,
      )

  add-IsKeyed :
      (now : ℕ) (b : Block) (o : Orphans)
      → P (record { block = b; expiration = now + 3600 })
      → IsKeyed P o.by_prev
      → IsKeyed P (add_orphan_block now b o).by_prev
  unfolding add_orphan_block
  add-IsKeyed now b o p h =
      insert-IsKeyed (record { block = b; expiration = now + 3600 }) _ (expire now o.by_hash o) p
        (expire-IsKeyed now o.by_hash o h)

held-insert :
    (x : OrphanBlock) (old : Option OrphanBlock) (o : Orphans)
    → lookup_key (bytes_to_hash x.block.hash) o.by_hash ≡ old
    → held (lookup_key (bytes_to_hash x.block.hash) (insert_orphan x old o).by_hash) ≡ true
unfolding lookup_key
held-insert x (some y) o e = rw e refl
held-insert x none o e = rw (bytes_eq_self (bytes_to_hash x.block.hash)) refl

-- After `AddOrphanBlock` the block is held, whichever orphans were held before and whichever of them
-- are over.
add_orphan_block-orphan_block :
    (now : ℕ) (b : Block) (o : Orphans)
    → held (orphan_block b.hash (add_orphan_block now b o)) ≡ true
unfolding add_orphan_block orphan_block
add_orphan_block-orphan_block now b o =
    held-insert (record { block = b; expiration = now + 3600 }) _ (expire now o.by_hash o) refl

module _ {N E : Type 0} (bc : Blockchains N E) {age : Bytes → ℕ} {I : N → Type 0}
    (laws : Lawful bc age I) where
  abbrev Kept : {A : Type 0} → Processing bc A → Type 0
  Kept m = Runs (Good bc laws) m (λ _. Good bc laws) (Stops bc laws)

  on_chain-Ended :
      {A : Type 0} (c : BlockChain N) (r : Result ConsensusError A × N)
      → IsKeyed (Waits bc laws) c.orphans.by_prev
      → Ended (λ _. I) (Panics bc laws) r
      → Ended (λ _. Good bc laws) (Stops bc laws) (r.0, record c { chain = r.1 })
  on_chain-Ended c (ok a, n) keyed h = (h, keyed)
  on_chain-Ended c (err e, n) keyed h = ((h.0, keyed), h.1)

  on_chain-Kept :
      {A : Type 0} (m : Action N ConsensusError A)
      → Runs I m (λ _. I) (Panics bc laws)
      → Kept (on_chain bc m)
  on_chain-Kept m k = record { at = λ c h. on_chain-Ended c (m c.chain) h.1 (k.at c.chain h.0) }

  answer-Kept : {A : Type 0} (a : A) → Kept (pure a)
  answer-Kept a = Runs-pure a (λ c h. h)

  process_orphan-Kept : (b : Block) → Kept (process_orphan bc b)
  process_orphan-Kept b =
      Runs-weaken _ (record { at = process_orphan-Settled bc laws b }) (λ c h. h)
        (Settled-Good bc laws (bytes_to_hash b.hash)) (λ e c h. h)

  accept-Kept : (b : Block) → IsOrdered age b → Kept (on_chain bc (maybe_accept_block bc b))
  accept-Kept b young = on_chain-Kept _ (
      Runs-weaken _ (maybe_accept_block-Runs bc laws b young) (λ n h. h) (λ a n h. h.0)
        (λ e n h. h))

  block_exists-Kept : (hash : Bytes) → Kept (block_exists bc hash)
  unfolding block_exists
  block_exists-Kept hash =
      Runs-query _ (λ c a h e. h)
        (λ c e h eq. (h, Panics-succeeded bc laws (bc.get_block_by_hash hash c.chain) e eq))

  process_child-Kept : (b : Block) → IsOrdered age b → Kept (process_child bc b)
  unfolding process_child
  process_child-Kept b young = Runs->>= _ _ (accept-Kept b young) (λ accepted.
      Runs-if (not accepted.0) _ _ (answer-Kept false)
        (Runs->>= _ _ (process_orphan-Kept b) (λ main. answer-Kept _)))

  process_at-Kept :
      (now : ℕ) (b : Block) (r : Result E ℕ) → IsOrdered age b → Kept (process_at bc now b r)
  unfolding process_at
  process_at-Kept now b (err e) young =
      Runs-if (bc.panics e) _ _ (Runs-raise panicked (λ c h. (h, refl))) (answer-Kept false)
  process_at-Kept now b (ok max_height) young =
      Runs-if (max_height == init_height) _ _
        (on_chain-Kept _ (attempt-Runs bc laws (bc.add_block b) (laws.add-keeps b young)))
        (Runs->>= _ _ (block_exists-Kept b.prev_hash) (λ known.
          Runs-if known _ _ (process_child-Kept b young) (
            Runs->>= (on_orphans bc (add_orphan_block now b)) _
              (Runs-modify _ (λ c h. (h.0, add-IsKeyed (Waits bc laws) now b c.orphans young h.1)))
              (λ _. answer-Kept false))))

  process_block-Kept : (now : ℕ) (b : Block) → IsOrdered age b → Kept (process_block bc now b)
  unfolding process_block
  process_block-Kept now b young = Runs->>= _ _ (block_exists-Kept b.hash) (λ known.
      Runs-if known _ _ (answer-Kept false) (
        Runs->>= _ _
          (Runs-query {Q = λ _. Good bc laws}
            (λ (c : BlockChain N). ok (held (orphan_block b.hash c.orphans))) (λ c a h e. h)
            (λ c e h eq. absurd (cc eq)))
          (λ waiting. Runs-if waiting _ _ (answer-Kept false) (record {
            at = λ c h. (process_at-Kept now b (bc.get_max_block_height c.chain) young).at c h;
          }))))

  -- `ProcessBlock`, of a block that comes after its parent by the age of hashes, ends with an answer
  -- or a panic, where the chain is lawful and each orphan stands under the hash of its parent and comes
  -- after it, and leaves both so.
  pub process_block-Good :
      (now : ℕ) (b : Block) (c : BlockChain N)
      → IsOrdered age b
      → Good bc laws c
      → Ended (λ _. Good bc laws) (Stops bc laws) (process_block bc now b c)
  process_block-Good now b c young good = (process_block-Kept now b young).at c good
