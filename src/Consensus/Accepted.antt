-- ===== src/Consensus/Accepted.antt =====
-- How `maybeAcceptBlock` of pkg/consensus/chain.go ends where the laws of the chain hold.
use korthochain.Common.{
  ℕ, ◌+◌, ◌%◌, ◌≡◌, refl, subst, List, ◌∷◌, Bool, true, false, Option, none, some, ltb, not, ◌&&◌,
  ◌==◌, if◌then◌else◌, inl, inr, Bool-cases,
}
use korthochain.Common.Bytes.{Bytes, bytes_eq}
use korthochain.Common.Outcome.{Result, ok, err}
use korthochain.Common.Action.{Action, pure}
use korthochain.Common.Keeps.{Keeps}
use korthochain.Common.Runs.{
  Ended, Runs, Runs->>=, Runs-query, Runs-pure, Runs-raise, Runs-if, Runs-given,
}
use korthochain.Wire.Blocks.{Block}
use korthochain.Chain.{init_height}
use korthochain.Consensus.{
  ConsensusError, panicked, Blockchains, Lawful, IsOrdered, succeeded, refuse, attempt,
}
use korthochain.Consensus.Accept.{
  easier, find_branch_point, extend, switch_branch, switch_at, branch_off, with_parent, with_tip,
  maybe_accept_block,
}
use korthochain.Consensus.Branching.{find_branch_point-Meets}

-- A block that did not go to the chain did not go to the main chain.
abbrev pub IsSound : Bool × Bool → Type 0
IsSound (false, main) = main ≡ false
IsSound (true, main) = Unit

IsSound-off : (added : Bool) → IsSound (added, false)
IsSound-off true = tt
IsSound-off false = refl

module _ {N E : Type 0} (bc : Blockchains N E) {age : Bytes → ℕ} {I : N → Type 0}
    (laws : Lawful bc age I) where
  abbrev pub Fine : Bool × Bool → N → Type 0
  Fine a n = I n × IsSound a

  -- The only error is a panic.
  abbrev pub Panics : ConsensusError → N → Type 0
  Panics e n = I n × (e ≡ panicked)

  pub Panics-succeeded :
      {A : Type 0} (r : Result E A) (e : ConsensusError) → succeeded bc r ≡ err e → e ≡ panicked
  Panics-succeeded (ok a) e h = absurd (cc h)
  Panics-succeeded (err x) e h = elim (Bool-cases (bc.panics x)) [
    | inl p ↦ cc (h, p)
    | inr p ↦ absurd (cc (h, p))
  ]

  Panics-easier : (a b : Option ℕ) (e : ConsensusError) → easier a b ≡ err e → e ≡ panicked
  Panics-easier (some a) (some b) e h = absurd (cc h)
  Panics-easier (some a) none e h = cc h
  Panics-easier none b e h = cc h

  attempt-Ended :
      {A : Type 0} (r : Result E A) (n : N) → I n → Ended (λ _. I) Panics (succeeded bc r, n)
  attempt-Ended (ok a) n h = h
  attempt-Ended (err x) n h = elim (Bool-cases (bc.panics x)) [
    | inl p ↦ rw p (h, refl)
    | inr p ↦ rw p h
  ]

  pub attempt-Runs :
      {A : Type 0} (m : Action N E A) → Keeps I m → Runs I (attempt bc m) (λ _. I) Panics
  attempt-Runs m k = record { at = λ n h. attempt-Ended (m n).0 (m n).1 (k.at n h) }

  refuse-Runs : Runs I (pure (false, false)) Fine Panics
  refuse-Runs = Runs-pure (false, false) (λ n h. (h, refl))

  refused-Runs : (e : E) → Runs I (refuse bc e (false, false)) Fine Panics
  refused-Runs e = Runs-if (bc.panics e) _ _ (Runs-raise panicked (λ n h. (h, refl))) refuse-Runs

  added-Runs : (added : Bool) → Runs I (pure (added, added)) Fine Panics
  added-Runs true = Runs-pure (true, true) (λ n h. (h, tt))
  added-Runs false = refuse-Runs

  Panics-hard :
      (b tip : Block) (hard : Bool) (e : ConsensusError)
      → (if hard then easier tip.global_difficulty b.global_difficulty else ok false) ≡ err e
      → e ≡ panicked
  Panics-hard b tip true e h = Panics-easier tip.global_difficulty b.global_difficulty e h
  Panics-hard b tip false e h = absurd (cc h)

  Panics-regular :
      (b : Block) (n : N) (first : Bool) (e : ConsensusError)
      → (if first then ok true else succeeded bc (bc.check_block_regular b n)) ≡ err e
      → e ≡ panicked
  Panics-regular b n true e h = absurd (cc h)
  Panics-regular b n false e h = Panics-succeeded (bc.check_block_regular b n) e h

  extend-Runs : (b tip : Block) → IsOrdered age b → Runs I (extend bc b tip) Fine Panics
  unfolding extend
  extend-Runs b tip young =
      Runs->>= _ _
        (Runs-query {Q = λ _. I} _ (λ n a h e. h)
          (λ n e h eq. (
            h,
            Panics-hard b tip (not (b.height % 10 == 2) && ltb (init_height + 1) b.height) e eq,
          )))
        (λ easy. Runs-if easy _ _ refuse-Runs (
          Runs->>= _ _
            (Runs-query {Q = λ _. I} _ (λ n a h e. h)
              (λ n e h eq. (h, Panics-regular b n (b.height == 1) e eq)))
            (λ regular.
              Runs-if (not regular) _ _ refuse-Runs (
                Runs->>= _ _ (attempt-Runs (bc.add_block b) (laws.add-keeps b young)) added-Runs))))

  switch-Runs :
      (b : Block) (branch : List Bytes) (height : ℕ)
      → Runs I (switch_branch bc b branch height) Fine Panics
  unfolding switch_branch
  switch-Runs b branch height =
      Runs->>= _ _ (attempt-Runs _ (laws.reorganize-keeps (b.hash ∷ branch) height)) (λ done.
        Runs-if done _ _ (Runs-pure (true, true) (λ n h. (h, tt))) (
          Runs->>= _ _ (attempt-Runs (bc.delete_uncle_block b) (laws.delete_uncle-keeps b))
            (λ gone. refuse-Runs)))

  -- The search for the branch point does not run out of turns.
  abbrev Found : Option (Result E (List Bytes × ℕ)) → Type 0
  Found none = ⊥
  Found (some r) = Unit

  find_branch_point-Found :
      (prev_hash tip_hash : Bytes) (n : N) → I n → Found (find_branch_point bc prev_hash tip_hash n)
  find_branch_point-Found prev_hash tip_hash n h =
      elim (find_branch_point-Meets bc n age (laws.stored-after n h) prev_hash tip_hash) [
        | inl (e, eq) ↦ rw eq tt
        | inr (point, hashs, mains, height, eq, p, q, l) ↦ rw eq tt
      ]

  switch_at-Runs :
      (b : Block) (point : Option (Result E (List Bytes × ℕ)))
      → Runs (λ n. I n × Found point) (switch_at bc b point) Fine Panics
  switch_at-Runs b none = record { at = λ n h. absurd h.1 }
  switch_at-Runs b (some (err e)) = Runs-given _ (λ found. refused-Runs e)
  switch_at-Runs b (some (ok (branch, height))) =
      Runs-given _ (λ found. switch-Runs b branch height)

  branch_off-Runs :
      (b tip parent : Block) → IsOrdered age b → Runs I (branch_off bc b tip parent) Fine Panics
  unfolding branch_off
  branch_off-Runs b tip parent young =
      let uncle = attempt-Runs (bc.add_uncle_block b) (laws.add_uncle-keeps b young) in
      Runs-if (parent.height == tip.height) _ _
        (Runs->>= _ _ uncle (λ added. Runs-if (not added) _ _ refuse-Runs (
          Runs->>= _ _
            (Runs-query {Q = λ point n. I n × Found point}
              (λ n. ok (find_branch_point bc parent.hash tip.hash n))
              (λ n point h e.
                (h, subst Found (cc e) (find_branch_point-Found parent.hash tip.hash n h)))
              (λ n e h eq. absurd (cc eq)))
            (switch_at-Runs b))))
        (Runs-if (ltb parent.height tip.height) _ _
          (Runs->>= _ _ uncle (λ added. Runs-pure (added, false) (λ n h. (h, IsSound-off added))))
          refuse-Runs)

  with_parent-Runs :
      (b tip : Block) (parent : Result E Block)
      → IsOrdered age b
      → Runs I (with_parent bc b tip parent) Fine Panics
  with_parent-Runs b tip (err e) young = refused-Runs e
  with_parent-Runs b tip (ok parent) young = branch_off-Runs b tip parent young

  with_tip-Runs :
      (b : Block) (tip : Result E Block) → IsOrdered age b → Runs I (with_tip bc b tip) Fine Panics
  with_tip-Runs b (err e) young = refused-Runs e
  with_tip-Runs b (ok tip) young =
      Runs-if (bytes_eq b.prev_hash tip.hash) _ _ (extend-Runs b tip young) (record {
        at = λ n h. (with_parent-Runs b tip (bc.get_block_by_hash b.prev_hash n) young).at n h;
      })

  -- A block is accepted, or refused, or there is a panic: the search for a branch point ends.
  pub maybe_accept_block-Runs :
      (b : Block) → IsOrdered age b → Runs I (maybe_accept_block bc b) Fine Panics
  unfolding maybe_accept_block
  maybe_accept_block-Runs b young = record { at = λ n h. (with_tip-Runs b (bc.tip n) young).at n h }
