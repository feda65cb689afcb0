-- ===== src/Merkle/Whole.antt =====
-- `New` of pkg/storage/merkle/merkle.go gives a tree over all of its data.
use korthochain.Common.{
  ℕ, zero, suc, ◌-◌, ◌≤◌, ◌<◌, ◌≡◌, refl, ap, List, [], ◌∷◌, ◌++◌, some, arith, length, take, drop,
  All, length-take, length-drop, take-append-drop, subst,
}
use korthochain.Common.Bytes.{Bytes}
use korthochain.Merkle.{
  Node, leaf, branch, root_of, root_hash, mk_leaf, mk_tree, power_of_two, get_mt_hash,
}
use korthochain.Merkle.Powers.{power_of_two-splits}

-- A piece of data that is not empty.
abbrev pub IsFull : Bytes → Type 0
IsFull x = 0 < length x

module _ (hash : Bytes → Bytes) where
  -- The tree stands over the data, in their order, and its hashes are those of its parts.
  pub data IsTree : List Bytes → Node → Type 0 where
    one : {x : Bytes} → IsTree (x ∷ []) (leaf x (hash x))
    two :
        {xs ys : List Bytes} {l r : Node}
        → IsTree xs l
        → IsTree ys r
        → IsTree (xs ++ ys) (branch l r (hash (root_of l ++ root_of r)))

  All-take : (i : ℕ) (xs : List Bytes) → All IsFull xs → All IsFull (take i xs)
  All-take zero xs h = tt
  All-take (suc i) [] h = tt
  All-take (suc i) (x ∷ xs) h = (h.0, All-take i xs h.1)

  All-drop : (i : ℕ) (xs : List Bytes) → All IsFull xs → All IsFull (drop i xs)
  All-drop zero xs h = h
  All-drop (suc i) [] h = tt
  All-drop (suc i) (x ∷ xs) h = All-drop i xs h.1

  abbrev pub Grows : ℕ → Type 0
  Grows levels =
      (xs : List Bytes)
      → 0 < length xs
      → length xs ≤ levels
      → All IsFull xs
      → (t : Node) × (mk_tree hash levels xs ≡ some t) × IsTree xs t

  mk_leaf_lem : (x : Bytes) → IsFull x → mk_leaf hash x ≡ some (leaf x (hash x))
  mk_leaf_lem [] h = absurd (omega (arith, h))
  mk_leaf_lem (b ∷ bs) h = refl

  pub grows : (levels : ℕ) → Grows levels
  unfolding mk_tree
  grows levels [] some_data few full = absurd (omega (arith, some_data))
  grows levels (x ∷ []) some_data few full = (leaf x (hash x), mk_leaf_lem x full.0, one)
  grows zero (x ∷ y ∷ xs) some_data few full = absurd (omega (arith, few))
  grows (suc levels) (x ∷ y ∷ xs) some_data few full =
      let all = x ∷ y ∷ xs in
      let i = power_of_two (length all) in
      let (pos, less) = power_of_two-splits (length all) (omega arith) in
      let front : length (take i all) ≡ i = length-take i all (omega (arith, less)) in
      let back : length (drop i all) ≡ length all - i = length-drop i all in
      let (l, built_l, tree_l) =
        grows levels (take i all) (omega (arith, front, pos)) (omega (arith, front, less, few))
          (All-take i all full) in
      let (r, built_r, tree_r) =
        grows levels (drop i all) (omega (arith, back, less)) (omega (arith, back, pos, few))
          (All-drop i all full) in
      (
        branch l r (hash (root_of l ++ root_of r)),
        rw (built_l, built_r) refl,
        subst (λ zs. IsTree zs (branch l r (hash (root_of l ++ root_of r))))
            (take-append-drop i all) (two tree_l tree_r),
      )

  -- Over data of which no piece is empty, and at least one, there is a tree: it holds the pieces in
  -- their order, and the root hash is that of the tree, a leaf's being the hash of its data and a
  -- branch's the hash of the hashes of its two parts.
  pub get_mt_hash-IsTree :
      (xs : List Bytes)
      → 0 < length xs
      → All IsFull xs
      → (t : Node) × (get_mt_hash hash xs ≡ some (root_of t)) × IsTree xs t
  unfolding get_mt_hash
  get_mt_hash-IsTree xs some_data full =
      let (t, built, tree) = grows (length xs) xs some_data (omega arith) full in
      (t, ap root_hash built, tree)
