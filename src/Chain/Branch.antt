-- ===== src/Chain/Branch.antt =====
-- `FindChainBranch` of pkg/blockchain/blockchain.go: from a block down its ancestors to the first
-- one on the main chain.
use korthochain.Common.{
  ℕ, zero, suc, ◌+◌, ◌<◌, ◌≤◌, ◌≡◌, refl, ap, Bool, true, false, Option, none, some, arith, ◌⊎◌,
  inl, inr,
}
use korthochain.Common.Bytes.{Bytes}
use korthochain.Common.Outcome.{Result, ok, err}
use korthochain.Wire.Blocks.{Block}
use korthochain.Chain.{ChainError, Machine, get_block_by_hash, is_main_chain_block}

-- One turn of the loop.
unfoldable pub branch_turn :
    Result ChainError Bool
    → Result ChainError Block
    → (Bytes → Option (Result ChainError Block))
    → Option (Result ChainError Block)
branch_turn (err e) found next = some (err e)
branch_turn (ok true) found next = some found
branch_turn (ok false) (err e) next = some (err e)
branch_turn (ok false) (ok b) next = next b.prev_hash

module _ {T S : Type 0} (m : Machine T S) (t : T) where
  -- `FindChainBranch` with a number of turns, after which there is no result.
  unfoldable pub find_chain_branch : ℕ → Bytes → Option (Result ChainError Block)
  unfolding branch_turn
  find_chain_branch zero hash = none
  find_chain_branch (suc turns) hash =
      branch_turn (is_main_chain_block m hash t) (get_block_by_hash m hash t)
        (find_chain_branch turns)

  -- The second hash is reached from the first by going to the previous block.
  pub data IsAncestor : Bytes → Bytes → Type 0 where
    itself : {hash : Bytes} → IsAncestor hash hash
    before :
        {hash old : Bytes} (b : Block)
        → get_block_by_hash m hash t ≡ ok b
        → IsAncestor b.prev_hash old
        → IsAncestor hash old

  -- Every stored block is higher than the one before it.
  abbrev pub Descends : Type 0
  Descends =
      (hash : Bytes) (b before : Block)
      → get_block_by_hash m hash t ≡ ok b
      → get_block_by_hash m b.prev_hash t ≡ ok before
      → before.height < b.height

  -- The search ended, with an error or with an ancestor that is on the main chain.
  abbrev pub Ends : ℕ → Bytes → Type 0
  Ends turns hash =
      ((e : ChainError) × (find_chain_branch turns hash ≡ some (err e)))
      ⊎ ((old : Bytes) × (b : Block) × (find_chain_branch turns hash ≡ some (ok b))
          × (get_block_by_hash m old t ≡ ok b)
          × (is_main_chain_block m old t ≡ ok true)
          × IsAncestor hash old)

  module _ (descends : Descends) where
    find-Ends :
        (turns : ℕ) (hash : Bytes)
        → 1 ≤ turns
        → ((b : Block) → get_block_by_hash m hash t ≡ ok b → b.height + 1 < turns)
        → Ends turns hash
    unfolding find_chain_branch
    find-Ends zero hash low enough = absurd (omega arith)
    find-Ends (suc turns) hash low enough =
        turn (find-Ends turns) (is_main_chain_block m hash t) (get_block_by_hash m hash t) refl refl
      where
        turn :
            ((k : Bytes)
              → 1 ≤ turns
              → ((c : Block) → get_block_by_hash m k t ≡ ok c → c.height + 1 < turns)
              → Ends turns k)
            → (main : Result ChainError Bool) (found : Result ChainError Block)
            → is_main_chain_block m hash t ≡ main
            → get_block_by_hash m hash t ≡ found
            → Ends (suc turns) hash
        turn next (err e) found em ef = inl (e, rw em refl)
        turn next (ok true) (err e) em ef = inl (e, rw (em, ef) refl)
        turn next (ok true) (ok b) em ef = inr (hash, b, rw (em, ef) refl, ef, em, itself)
        turn next (ok false) (err e) em ef = inl (e, rw (em, ef) refl)
        turn next (ok false) (ok b) em ef =
            elim (next b.prev_hash (omega (arith, enough b ef))
              (λ old eo. omega (arith, enough b ef, descends hash b old ef eo))) [
                | inl (e, ends) ↦ inl (e, rw (em, ef) ends)
                | inr (old, c, ends, at_old, main, above) ↦
                    inr (old, c, rw (em, ef) ends, at_old, main, before b ef above)
              ]

    -- Where every stored block is higher than the one before it, as many turns as a stored block's
    -- height and two more are enough for the search from it to end, with an error or with the block
    -- of an ancestor that is on the main chain.
    pub find_chain_branch-Ends :
        (hash : Bytes) (b : Block) → get_block_by_hash m hash t ≡ ok b → Ends (b.height + 2) hash
    find_chain_branch-Ends hash b found =
        find-Ends (b.height + 2) hash (omega arith)
          (λ c e. let same : c ≡ b = cc (found, e) in omega (arith, ap (λ k. k.height) same))
