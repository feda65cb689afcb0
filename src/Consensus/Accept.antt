-- ===== src/Consensus/Accept.antt =====
-- `maybeAcceptBlock` and `FindBranchPoint` of pkg/consensus/chain.go.
use korthochain.Common.{
  ℕ, zero, suc, ◌+◌, ◌%◌, ◌^◌, List, [], ◌∷◌, ◌++◌, Bool, true, false, not, ◌&&◌, Option, none,
  some, ltb, ◌==◌, if◌then◌else◌,
}
use korthochain.Common.Bytes.{Bytes, bytes_eq}
use korthochain.Common.Outcome.{Result, ok, err}
use korthochain.Common.Action.{Action, pure, raise, query, ◌>>=◌}
use korthochain.Wire.Blocks.{Block}
use korthochain.Chain.{init_height}
use korthochain.Consensus.{
  ConsensusError, panicked, out_of_turns, Blockchains, succeeded, refuse, attempt,
}

-- `Cmp` of two difficulties; a nil one panics.
abbrev pub easier : Option ℕ → Option ℕ → Result ConsensusError Bool
easier (some a) (some b) = ok (ltb a b)
easier (some a) none = err panicked
easier none b = err panicked

module _ {N E : Type 0} (bc : Blockchains N E) where
  -- The loop of `FindBranchPoint` for at most so many turns, with the hashes on the main chain and
  -- on the branch, the hashes of the branch so far, and the height of its last block.
  unfoldable pub branch_loop :
      ℕ → Bytes → Bytes → List Bytes → ℕ → N → Option (Result E (List Bytes × ℕ))
  branch_loop zero main branch hashs height n = none
  branch_loop (suc turns) main branch hashs height n =
      if bytes_eq main branch
      then some (ok (hashs, height))
      else elim (bc.get_block_by_hash main n) [
        | err e ↦ some (err e)
        | ok mblock ↦ elim (bc.get_block_by_hash branch n) [
          | err e ↦ some (err e)
          | ok bblock ↦
              branch_loop turns mblock.prev_hash bblock.prev_hash (hashs ++ branch ∷ [])
                bblock.height n
        ]
      ]

  -- `FindBranchPoint`, for branches of at most 2 ^ 64 blocks, as the heights are in uint64.
  unfoldable pub find_branch_point : Bytes → Bytes → N → Option (Result E (List Bytes × ℕ))
  unfolding branch_loop
  find_branch_point prev_hash tip_hash n = branch_loop (2 ^ 64 + 1) tip_hash prev_hash [] 0 n

  -- Whether the block went to the chain, and whether to the main one.
  abbrev pub Acceptance : Type 0
  Acceptance = Action N ConsensusError (Bool × Bool)

  -- The part of `maybeAcceptBlock` for a block on top of the tip.
  unfoldable pub extend : Block → Block → Acceptance
  extend b tip = do
    easy ← query (λ _.
        if not (b.height % 10 == 2) && ltb (init_height + 1) b.height
        then easier tip.global_difficulty b.global_difficulty
        else ok false)
    (if easy then pure (false, false) else (do
      regular ←
          query (λ n. if b.height == 1 then ok true else succeeded bc (bc.check_block_regular b n))
      (if not regular
          then pure (false, false)
          else (do added ← attempt bc (bc.add_block b); pure (added, added)))))

  -- The end of a change of the branch: the block goes again if the chain could not be reorganized.
  unfoldable pub switch_branch : Block → List Bytes → ℕ → Acceptance
  switch_branch b branch height = do
    done ← attempt bc (bc.reorganize_chain (b.hash ∷ branch) height)
    (if done
        then pure (true, true)
        else (do gone ← attempt bc (bc.delete_uncle_block b); pure (false, false)))

  -- By how the branch point was found.
  abbrev pub switch_at : Block → Option (Result E (List Bytes × ℕ)) → Acceptance
  switch_at b none = raise out_of_turns
  switch_at b (some (err e)) = refuse bc e (false, false)
  switch_at b (some (ok (branch, height))) = switch_branch b branch height

  -- The part for a block on another block than the tip.
  unfoldable pub branch_off : Block → Block → Block → Acceptance
  unfolding find_branch_point switch_branch
  branch_off b tip parent =
      if parent.height == tip.height
      then (do
        added ← attempt bc (bc.add_uncle_block b)
        (if not added then pure (false, false) else (do
          point ← query (λ n. ok (find_branch_point parent.hash tip.hash n))
          switch_at b point)))
      else (if ltb parent.height tip.height
          then (do added ← attempt bc (bc.add_uncle_block b); pure (added, false))
          else pure (false, false))

  abbrev pub with_parent : Block → Block → Result E Block → Acceptance
  with_parent b tip (err e) = refuse bc e (false, false)
  with_parent b tip (ok parent) = branch_off b tip parent

  abbrev pub with_tip : Block → Result E Block → Acceptance
  with_tip b (err e) = refuse bc e (false, false)
  with_tip b (ok tip) =
      if bytes_eq b.prev_hash tip.hash
      then extend b tip
      else (λ n. with_parent b tip (bc.get_block_by_hash b.prev_hash n) n)

  -- `maybeAcceptBlock`
  unfoldable pub maybe_accept_block : Block → Acceptance
  unfolding extend branch_off
  maybe_accept_block b n = with_tip b (bc.tip n) n
