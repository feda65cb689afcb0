-- ===== src/Consensus/Settled.antt =====
-- What `ProcessOrphan` of pkg/consensus leaves in the pool of orphans.
use korthochain.Common.{
  ℕ, zero, suc, ◌+◌, ◌*◌, ◌<◌, ◌≡◌, refl, ap, subst, List, [], ◌∷◌, ◌++◌, Bool, true, false, arith,
  ◌⊎◌, inl, inr, length, if◌then◌else◌, not, All,
}
use korthochain.Common.Bytes.{Bytes}
use korthochain.Common.Outcome.{Result, ok, err}
use korthochain.Common.Action.{Action, pure, continue}
use korthochain.Common.Runs.{Ended}
use korthochain.Wire.Blocks.{Block}
use korthochain.Consensus.{ConsensusError, panicked, Blockchains, Lawful, IsOrdered}
use korthochain.Consensus.Orphans.{
  OrphanBlock, Orphans, bytes_to_hash, waiting_for, remove_orphan_block,
}
use korthochain.Consensus.Accepted.{Fine, Panics, maybe_accept_block-Runs}
use korthochain.Consensus.Process.{BlockChain, total, process_loop, process_orphan, try_orphan}
use korthochain.Consensus.Waiting.{
  IsKeyed, total-remove, waiting-IsKeyed, remove-IsKeyed, remove-waiting,
}

abbrev Among : Bytes → List Bytes → Type 0
Among k [] = ⊥
Among k (p ∷ ps) = (p ≡ k) ⊎ Among k ps

Among-append : (k : Bytes) (ps qs : List Bytes) → Among k ps → Among k (ps ++ qs)
Among-append k [] qs h = absurd h
Among-append k (p ∷ ps) qs (inl e) = inl e
Among-append k (p ∷ ps) qs (inr h) = inr (Among-append k ps qs h)

length-append_one : (ps : List Bytes) (p : Bytes) → length (ps ++ p ∷ []) ≡ suc (length ps)
length-append_one [] p = refl
length-append_one (q ∷ ps) p = ap (λ n. suc n) (length-append_one ps p)

module _ {N E : Type 0} (bc : Blockchains N E) {age : Bytes → ℕ} {I : N → Type 0}
    (laws : Lawful bc age I) where
  -- The orphan comes after its parent.
  abbrev pub Waits : OrphanBlock → Type 0
  Waits x = IsOrdered age x.block

  -- The chain is lawful, and every orphan stands under the hash of its parent and comes after it.
  abbrev pub Good : BlockChain N → Type 0
  Good c = I c.chain × IsKeyed Waits c.orphans.by_prev

  -- Where the answer is that the main chain grew, no orphan waits for the block of the hash.
  abbrev pub Settled : Bytes → Bool → BlockChain N → Type 0
  Settled k true c = Good c × (waiting_for k c.orphans ≡ [])
  Settled k false c = Good c

  settle :
      (k : Bytes) (main : Bool) (c : BlockChain N)
      → Good c
      → waiting_for k c.orphans ≡ []
      → Settled k main c
  settle k true c good done = (good, done)
  settle k false c good done = good

  pub Settled-Good : (k : Bytes) (main : Bool) (c : BlockChain N) → Settled k main c → Good c
  Settled-Good k true c h = h.0
  Settled-Good k false c h = h

  abbrev pub Stops : ConsensusError → BlockChain N → Type 0
  Stops e c = Good c × (e ≡ panicked)

  -- The hash is still to be looked at, or nobody waits for it.
  abbrev Open : Bytes → List Bytes → Orphans → Type 0
  Open k prevs o = Among k prevs ⊎ (waiting_for k o ≡ [])

  abbrev Loops : Bytes → ℕ → Type 0
  Loops k turns =
      (prevs : List Bytes) (main : Bool) (c : BlockChain N)
      → Good c
      → 2 * total c.orphans.by_prev + length prevs < turns
      → Open k prevs c.orphans
      → Ended (Settled k) Stops (process_loop bc turns prevs main c)

  -- The rest of the loop, by how the orphan was received.
  tried-Ended :
      (k : Bytes) (c : BlockChain N) (next : Bool → Action (BlockChain N) ConsensusError Bool)
      → IsKeyed Waits c.orphans.by_prev
      → (r : Result ConsensusError (Bool × Bool) × N) → Ended (Fine bc laws) (Panics bc laws) r
      → ((main : Bool) (n : N) → I n → Ended (Settled k) Stops (next main (record c { chain = n })))
      → Ended (Settled k) Stops (
          continue
            (λ (a : Bool × Bool). if not a.0 then pure a.1 else next a.1)
            (r.0, record c { chain = r.1 }))
  tried-Ended k c next keyed (err e, n) h g = ((h.0, keyed), h.1)
  tried-Ended k c next keyed (ok (false, main), n) h g =
      let answer : main ≡ false = h.1 in rw answer (h.0, keyed)
  tried-Ended k c next keyed (ok (true, main), n) h g = g main n h.0

  empty-Open :
      (k prev : Bytes) (prevs : List Bytes) (o : Orphans)
      → waiting_for prev o ≡ []
      → Open k (prev ∷ prevs) o
      → Open k prevs o
  empty-Open k prev prevs o e (inl (inl same)) = inr (subst (λ h. waiting_for h o ≡ []) same e)
  empty-Open k prev prevs o e (inl (inr there)) = inl there
  empty-Open k prev prevs o e (inr done) = inr done

  remove-Open :
      (k prev hash : Bytes) (prevs : List Bytes) (x : OrphanBlock) (o : Orphans)
      → Open k (prev ∷ prevs) o
      → Open k (prev ∷ (prevs ++ hash ∷ [])) (remove_orphan_block x o)
  remove-Open k prev hash prevs x o (inl (inl same)) = inl (inl same)
  remove-Open k prev hash prevs x o (inl (inr there)) =
      inl (inr (Among-append k prevs (hash ∷ []) there))
  remove-Open k prev hash prevs x o (inr done) = inr (remove-waiting k x o done)

  loop-Ended : (k : Bytes) (turns : ℕ) → Loops k turns
  unfolding process_loop
  loop-Ended k zero prevs main c good enough todo = absurd (omega arith)
  loop-Ended k (suc turns) [] main c good enough (inl there) = absurd there
  loop-Ended k (suc turns) [] main c good enough (inr done) = settle k main c good done
  loop-Ended k (suc turns) (prev ∷ prevs) main c good enough todo =
      turn (loop-Ended k turns) (waiting_for prev c.orphans) refl
    where
      turn :
          Loops k turns
          → (xs : List OrphanBlock) → waiting_for prev c.orphans ≡ xs
          → Ended (Settled k) Stops (elim xs [
            | [] ↦ process_loop bc turns prevs main c
            | x ∷ xs ↦
                try_orphan bc x
                  (λ main'.
                    process_loop bc turns (prev ∷ (prevs ++ bytes_to_hash x.block.hash ∷ [])) main')
                  c
          ])
      turn next [] e =
          next prevs main c good (omega (arith, enough)) (empty-Open k prev prevs c.orphans e todo)
      turn next (x ∷ xs) e =
          let orphans' = remove_orphan_block x c.orphans in
          let keyed = remove-IsKeyed Waits x c.orphans good.1 in
          let mine : All (λ (y : OrphanBlock). (bytes_to_hash y.block.prev_hash ≡ prev) × Waits y)
              (x ∷ xs) =
            subst (All _) e (waiting-IsKeyed Waits prev c.orphans good.1) in
          let fewer = total-remove x xs prev c.orphans mine.0.0 e in
          let hash = bytes_to_hash x.block.hash in
          tried-Ended k (record c { orphans = orphans' }) _ keyed _
            ((maybe_accept_block-Runs bc laws x.block mine.0.1).at c.chain good.0)
            (λ main' n lawful.
              next (prev ∷ (prevs ++ hash ∷ [])) main' (record { chain = n; orphans = orphans' })
                (lawful, keyed) (omega (arith, fewer, enough, length-append_one prevs hash))
                (remove-Open k prev hash prevs x c.orphans todo))

  -- `ProcessOrphan` ends, with an answer or a panic, where the chain is lawful and each orphan
  -- stands under the hash of its parent and comes after it by the age of hashes, which stays so. If
  -- the answer is that the main chain grew, no orphan waits for the block any more.
  pub process_orphan-Settled :
      (b : Block) (c : BlockChain N)
      → Good c
      → Ended (Settled (bytes_to_hash b.hash)) Stops (process_orphan bc b c)
  unfolding process_orphan
  process_orphan-Settled b c good =
      loop-Ended (bytes_to_hash b.hash) (2 * total c.orphans.by_prev + 11) _ false c good
        (omega arith) (inl (inl refl))
