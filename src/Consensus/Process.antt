-- ===== src/Consensus/Process.antt =====
-- `ProcessOrphan` of pkg/consensus/chain.go and `ProcessBlock` of pkg/consensus/syncblock.go.
use korthochain.Common.{
  ℕ, zero, suc, ◌+◌, ◌*◌, List, [], ◌∷◌, ◌++◌, Bool, false, not, ◌||◌, ◌==◌, if◌then◌else◌, length,
}
use korthochain.Common.Bytes.{Bytes}
use korthochain.Common.Digits.{replicate}
use korthochain.Common.Outcome.{Result, ok, err}
use korthochain.Common.Action.{Action, pure, raise, query, modify, ◌>>=◌, ◌>>◌}
use korthochain.Wire.Blocks.{Block}
use korthochain.Chain.{init_height}
use korthochain.Consensus.{ConsensusError, out_of_turns, Blockchains, succeeded, refuse, attempt}
use korthochain.Consensus.Orphans.{
  OrphanBlock, Orphans, bytes_to_hash, waiting_for, remove_orphan_block, add_orphan_block, held,
  orphan_block,
}
use korthochain.Consensus.Accept.{maybe_accept_block}

-- `BlockChain`: the chain and the orphans.
pub record BlockChain (N : Type 0) : Type 0 where
  pub chain : N
  pub orphans : Orphans

-- How many blocks wait.
abbrev pub total : List (Bytes × List OrphanBlock) → ℕ
total [] = 0
total ((k, xs) ∷ d) = length xs + total d

module _ {N E : Type 0} (bc : Blockchains N E) where
  abbrev pub Processing : Type 0 → Type 0
  Processing A = Action (BlockChain N) ConsensusError A

  -- A call on the chain.
  abbrev pub on_chain : {A : Type 0} → Action N ConsensusError A → Processing A
  on_chain m c = let (r, n) = m c.chain in (r, record c { chain = n })

  abbrev pub on_orphans : (Orphans → Orphans) → Processing (Unit {0})
  on_orphans f = modify (λ c. record c { orphans = f c.orphans })

  -- One orphan leaves the pool and is tried; `rest` is the loop after it, unless it was refused.
  abbrev pub try_orphan : OrphanBlock → (Bool → Processing Bool) → Processing Bool
  try_orphan x rest = do
    on_orphans (remove_orphan_block x)
    accepted ← on_chain (maybe_accept_block bc x.block)
    (if not accepted.0 then pure accepted.1 else rest accepted.1)

  -- The loops of `ProcessOrphan` for at most so many turns. The orphans of the first hash are taken
  -- one by one, and the hash of each comes behind the others.
  unfoldable pub process_loop : ℕ → List Bytes → Bool → Processing Bool
  unfolding waiting_for remove_orphan_block maybe_accept_block bytes_to_hash
  process_loop zero prevs main c = raise out_of_turns c
  process_loop (suc turns) [] main c = pure main c
  process_loop (suc turns) (prev ∷ prevs) main c = elim (waiting_for prev c.orphans) [
    | [] ↦ process_loop turns prevs main c
    | x ∷ xs ↦
        try_orphan x
          (λ main'. process_loop turns (prev ∷ (prevs ++ bytes_to_hash x.block.hash ∷ [])) main') c
  ]

  -- `ProcessOrphan`. The slice of hashes is made with ten places, nine of them zeros. There are
  -- turns for each place and two for each orphan.
  unfoldable pub process_orphan : Block → Processing Bool
  unfolding process_loop replicate
  process_orphan b c =
      process_loop (2 * total c.orphans.by_prev + 11)
        (bytes_to_hash b.hash ∷ replicate 9 (replicate 32 0)) false c

  -- `BlockExists`
  unfoldable pub block_exists : Bytes → Processing Bool
  block_exists hash = query (λ c. succeeded bc (bc.get_block_by_hash hash c.chain))

  -- The end of `ProcessBlock`, for a block whose parent is known.
  unfoldable pub process_child : Block → Processing Bool
  unfolding maybe_accept_block process_orphan
  process_child b = do
    accepted ← on_chain (maybe_accept_block bc b)
    (if not accepted.0 then pure false else (do main ← process_orphan b; pure (main || accepted.1)))

  -- The rest of `ProcessBlock`, by how the height was read.
  unfoldable pub process_at : ℕ → Block → Result E ℕ → Processing Bool
  unfolding block_exists process_child add_orphan_block
  process_at now b (err e) = refuse bc e false
  process_at now b (ok max_height) =
      if max_height == init_height then on_chain (attempt bc (bc.add_block b)) else (do
        known ← block_exists b.prev_hash
        (if known then process_child b else (on_orphans (add_orphan_block now b) >> pure false)))

  -- `ProcessBlock`
  unfoldable pub process_block : ℕ → Block → Processing Bool
  unfolding block_exists orphan_block process_at
  process_block now b = do
    known ← block_exists b.hash
    (if known then pure false else (do
      waiting ← query (λ (c : BlockChain N). ok (held (orphan_block b.hash c.orphans)))
      (if waiting
          then pure false
          else (λ c. process_at now b (bc.get_max_block_height c.chain) c))))
