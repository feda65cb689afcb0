-- ===== src/Consensus/Branching.antt =====
-- Where `FindBranchPoint` of pkg/consensus/chain.go ends.
use mathlib.Core.List.{append_assoc}
use korthochain.Common.{
  ℕ, zero, suc, ◌+◌, ◌<◌, ◌≤◌, ◌^◌, ◌≡◌, refl, sym, ◌∙◌, ap, subst, List, [], ◌∷◌, ◌++◌, Option,
  some, arith, ◌⊎◌, inl, inr, length, append-nil, Bool-cases,
}
use korthochain.Common.Bytes.{Bytes, bytes_eq, bytes_eq→eq}
use korthochain.Common.Outcome.{Result, ok, err}
use korthochain.Wire.Blocks.{Block}
use korthochain.Consensus.{Blockchains, IsStoredAfter}
use korthochain.Consensus.Accept.{branch_loop, find_branch_point}

module _ {N E : Type 0} (bc : Blockchains N E) (n : N) where
  -- The hashes of stored blocks, each followed by the hash of its parent, up to the last hash, which
  -- is not in the list.
  pub data IsPath : Bytes → List Bytes → Bytes → Type 0 where
    here : {hash : Bytes} → IsPath hash [] hash
    below :
        {hash last : Bytes} {hashs : List Bytes} (b : Block)
        → bc.get_block_by_hash hash n ≡ ok b
        → IsPath b.prev_hash hashs last
        → IsPath hash (hash ∷ hashs) last

  -- The search ended, with an error or where the two branches meet after as many blocks.
  abbrev pub Meets : Bytes → Bytes → List Bytes → Option (Result E (List Bytes × ℕ)) → Type 0
  Meets main branch before r =
      ((e : E) × (r ≡ some (err e)))
      ⊎ ((point : Bytes) × (hashs : List Bytes) × (mains : List Bytes) × (height : ℕ) × (r
            ≡ some (ok (before ++ hashs, height)))
          × IsPath branch hashs point
          × IsPath main mains point
          × (length mains ≡ length hashs))

  -- One turn more.
  step-Meets :
      (main branch : Bytes) (before : List Bytes) {r : Option (Result E (List Bytes × ℕ))}
      (mb bb : Block)
      → bc.get_block_by_hash main n ≡ ok mb
      → bc.get_block_by_hash branch n ≡ ok bb
      → Meets mb.prev_hash bb.prev_hash (before ++ branch ∷ []) r
      → Meets main branch before r
  step-Meets main branch before mb bb em eb (inl h) = inl h
  step-Meets main branch before mb bb em eb (inr (point, hashs, mains, height, e, p, q, l)) = inr (
    point,
    branch ∷ hashs,
    main ∷ mains,
    height,
    e ∙ ap (λ h. some (ok (h, height))) (append_assoc before (branch ∷ []) hashs),
    below bb eb p,
    below mb em q,
    ap (λ k. suc k) l,
  )

  module _ (age : Bytes → ℕ) (after : IsStoredAfter bc age n) where
    loop-Meets :
        (turns : ℕ) (main branch : Bytes) (before : List Bytes) (height : ℕ)
        → 1 ≤ turns
        → ((b : Block) → bc.get_block_by_hash branch n ≡ ok b → age branch + 1 < turns)
        → Meets main branch before (branch_loop bc turns main branch before height n)
    unfolding branch_loop
    loop-Meets zero main branch before height some_turn enough = absurd (omega arith)
    loop-Meets (suc turns) main branch before height some_turn enough =
        elim (Bool-cases (bytes_eq main branch)) [
          | inl e ↦
              let same : main ≡ branch = bytes_eq→eq main branch e in
              inr (
                branch,
                [],
                [],
                height,
                rw (e, append-nil before) refl,
                here,
                subst (λ h. IsPath h [] branch) (sym same) here,
                refl,
              )
          | inr e ↦ rw e (
              turn (loop-Meets turns) (bc.get_block_by_hash main n) refl
                (bc.get_block_by_hash branch n) refl)
        ]
      where
        turn :
            ((main branch : Bytes) (before : List Bytes) (height : ℕ)
              → 1 ≤ turns
              → ((b : Block) → bc.get_block_by_hash branch n ≡ ok b → age branch + 1 < turns)
              → Meets main branch before (branch_loop bc turns main branch before height n))
            → (found : Result E Block) → bc.get_block_by_hash main n ≡ found
            → (other : Result E Block) → bc.get_block_by_hash branch n ≡ other
            → Meets main branch before (elim found [
              | err e ↦ some (err e)
              | ok mblock ↦ elim other [
                | err e ↦ some (err e)
                | ok bblock ↦
                    branch_loop bc turns mblock.prev_hash bblock.prev_hash
                      (before ++ branch ∷ [])
                      bblock.height
                      n
              ]
            ])
        turn next (err e) em other eb = inl (e, refl)
        turn next (ok mb) em (err e) eb = inl (e, refl)
        turn next (ok mb) em (ok bb) eb =
            let deep = enough bb eb in
            let older = after branch bb eb in
            step-Meets main branch before mb bb em eb (
              next mb.prev_hash bb.prev_hash (before ++ branch ∷ []) bb.height (omega (arith, deep))
                (λ b found. omega (arith, deep, older)))

    -- Where by some age of hashes below 2 ^ 64 every stored block comes after its parent, the
    -- search for the branch point of a block ends: with an error, or with the hashes of the branch
    -- from the block down to a common ancestor, which is as many blocks below the tip.
    pub find_branch_point-Meets :
        (prev_hash tip_hash : Bytes)
        → Meets tip_hash prev_hash [] (find_branch_point bc prev_hash tip_hash n)
    unfolding find_branch_point
    find_branch_point-Meets prev_hash tip_hash =
        loop-Meets (2 ^ 64 + 1) tip_hash prev_hash [] 0 (omega arith)
          (λ b found. let below = after prev_hash b found in omega (arith, below))
