-- ===== src/Merkle/Binding.antt =====
-- What the root of pkg/storage/merkle/merkle.go says of the data.
use korthochain.Common.{
  ℕ, zero, suc, ◌≡◌, ◌≢◌, refl, sym, ap, ◌∙◌, List, [], ◌∷◌, ◌++◌, Option, none, some, length,
  append-injective, take, drop, length-take, length-drop, take-append-drop, arith, subst, ◌<◌, All,
  Bool-cases, inl, inr, ◌⊎◌,
}
use korthochain.Common.Bytes.{Bytes, bytes_eq, bytes_eq→eq, bytes_eq_self}
use korthochain.Merkle.{
  Node, leaf, branch, root_of, root_hash, mk_leaf, mk_branch, mk_tree, power_of_two, get_mt_hash,
}
use korthochain.Merkle.Powers.{power_of_two-splits}
use korthochain.Merkle.Whole.{IsFull, grows}

module _ (hash : Bytes → Bytes) where
  -- Two texts with one hash.
  abbrev pub Collision : Type 0
  Collision = (x : Bytes) × (y : Bytes) × (x ≢ y) × (hash x ≡ hash y)

  same_or_Collision : (x y : Bytes) → hash x ≡ hash y → (x ≡ y) ⊎ Collision
  same_or_Collision x y e = elim (Bool-cases (bytes_eq x y)) [
    | inl same ↦ inl (bytes_eq→eq x y same)
    | inr other ↦ inr (x, y, λ same. absurd (cc (bytes_eq_self x, other, same)), e)
  ]

  leaf-inv : (x : Bytes) (t : Node) → mk_leaf hash x ≡ some t → root_of t ≡ hash x
  leaf-inv [] t e = absurd (cc e)
  leaf-inv (b ∷ bs) t e =
      let same : leaf (b ∷ bs) (hash (b ∷ bs)) ≡ t = cc e in ap root_of (sym same)

  branch-inv :
      (m n : Option Node) (t : Node)
      → mk_branch hash m n ≡ some t
      → (l : Node) × (r : Node) × (m ≡ some l)
        × (n ≡ some r)
        × (root_of t ≡ hash (root_of l ++ root_of r))
  branch-inv none n t e = absurd (cc e)
  branch-inv (some l) none t e = absurd (cc e)
  branch-inv (some l) (some r) t e =
      let same : branch l r (hash (root_of l ++ root_of r)) ≡ t = cc e in
      (l, r, refl, refl, ap root_of (sym same))

  -- The root of a tree is a hash.
  hashed :
      (levels : ℕ) (xs : List Bytes) (t : Node)
      → mk_tree hash levels xs ≡ some t
      → (x : Bytes) × (root_of t ≡ hash x)
  unfolding mk_tree
  hashed levels [] t e = absurd (cc e)
  hashed levels (x ∷ []) t e = (x, leaf-inv x t e)
  hashed zero (x ∷ y ∷ xs) t e = absurd (cc e)
  hashed (suc levels) (x ∷ y ∷ xs) t e =
      let (l, r, el, er, h) = branch-inv _ _ t e in (root_of l ++ root_of r, h)

  module _ (digest : (x : Bytes) → length (hash x) ≡ 32) where
    root-length :
        (levels : ℕ) (xs : List Bytes) (t : Node)
        → mk_tree hash levels xs ≡ some t
        → length (root_of t) ≡ 32
    root-length levels xs t e = let (x, h) = hashed levels xs t e in ap length h ∙ digest x

    binds :
        (levels : ℕ) (xs ys : List Bytes) (t u : Node)
        → length xs ≡ length ys
        → mk_tree hash levels xs ≡ some t
        → mk_tree hash levels ys ≡ some u
        → root_of t ≡ root_of u
        → (xs ≡ ys) ⊎ Collision
    unfolding mk_tree
    binds levels [] [] t u len a b same = inl refl
    binds levels [] (y ∷ ys) t u len a b same = absurd (omega (arith, len))
    binds levels (x ∷ xs) [] t u len a b same = absurd (omega (arith, len))
    binds levels (x ∷ []) (y ∷ []) t u len a b same =
        elim (same_or_Collision x y (sym (leaf-inv x t a) ∙ same ∙ leaf-inv y u b)) [
          | inl e ↦ inl (ap (λ z. z ∷ []) e)
          | inr c ↦ inr c
        ]
    binds levels (x ∷ []) (y ∷ z ∷ ys) t u len a b same = absurd (omega (arith, len))
    binds levels (x ∷ y ∷ xs) (z ∷ []) t u len a b same = absurd (omega (arith, len))
    binds zero (x ∷ y ∷ xs) (z ∷ w ∷ ys) t u len a b same = absurd (cc a)
    binds (suc levels) (x ∷ y ∷ xs) (z ∷ w ∷ ys) t u len a b same =
        let all = x ∷ y ∷ xs in
        let all' = z ∷ w ∷ ys in
        let i = power_of_two (length all) in
        let i' = power_of_two (length all') in
        let split = power_of_two-splits (length all) (omega arith) in
        let split' = power_of_two-splits (length all') (omega arith) in
        let at : i ≡ i' = ap power_of_two len in
        let (l, r, el, er, h) = branch-inv _ _ t a in
        let (l', r', el', er', h') = branch-inv _ _ u b in
        let size =
          root-length levels (take i all) l el ∙ sym (root-length levels (take i' all') l' el') in
        let fronts : length (take i all) ≡ length (take i' all') =
          length-take i all (omega (arith, split))
          ∙ at
          ∙ sym (length-take i' all' (omega (arith, split'))) in
        let backs : length (drop i all) ≡ length (drop i' all') =
          omega (arith, length-drop i all, length-drop i' all', at, len) in
        elim (same_or_Collision (root_of l ++ root_of r) (root_of l' ++ root_of r')
          (sym h ∙ same ∙ h')) [
            | inr c ↦ inr c
            | inl e ↦
                let roots =
                  append-injective (root_of l) (root_of r) (root_of l') (root_of r') size e in
                elim (binds levels (take i all) (take i' all') l l' fronts el el' roots.0) [
                  | inr c ↦ inr c
                  | inl front ↦
                      elim (binds levels (drop i all) (drop i' all') r r' backs er er' roots.1) [
                        | inr c ↦ inr c
                        | inl back ↦ inl (
                            sym (take-append-drop i all)
                            ∙ ap (λ k. k ++ drop i all) front
                            ∙ ap (λ k. take i' all' ++ k) back
                            ∙ take-append-drop i' all')
                      ]
                ]
          ]

    -- Two lists of as many pieces, none of them empty, with one root hash are the same list, or they
    -- show a collision of the hash function, whose values have 32 bytes.
    pub get_mt_hash-binds :
        (xs ys : List Bytes)
        → 0 < length xs
        → length xs ≡ length ys
        → All IsFull xs
        → All IsFull ys
        → get_mt_hash hash xs ≡ get_mt_hash hash ys
        → (xs ≡ ys) ⊎ Collision
    unfolding get_mt_hash
    get_mt_hash-binds xs ys some_data len full full' same =
        let (t, built, tree) = grows hash (length xs) xs some_data (omega arith) full in
        let (u, built', tree') =
          grows hash (length xs) ys (omega (arith, some_data, len)) (omega (arith, len)) full' in
        let same_level : mk_tree hash (length ys) ys ≡ some u =
          subst (λ n. mk_tree hash n ys ≡ some u) len built' in
        let roots : root_of t ≡ root_of u =
          cc (same, ap root_hash built, ap root_hash same_level) in
        binds (length xs) xs ys t u len built built' roots
