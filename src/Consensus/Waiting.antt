-- ===== src/Consensus/Waiting.antt =====
-- How many blocks wait for a parent, and under which hashes.
use korthochain.Common.{
  ◌+◌, ◌≤◌, ◌<◌, ◌≡◌, refl, ◌∙◌, ap, subst, List, [], ◌∷◌, false, arith, length, All, Bool-cases,
  inl, inr,
}
use korthochain.Common.Bytes.{Bytes, bytes_eq, bytes_eq→eq, bytes_eq_self}
use korthochain.Common.Dict.{lookup_key, delete_key, lookup-delete, lookup-delete_self}
use korthochain.Consensus.Orphans.{
  OrphanBlock, Orphans, bytes_to_hash, or_nil, waiting_for, without, keep_waiting,
  remove_orphan_block,
}
use korthochain.Consensus.Process.{total}

-- Each orphan stands under the hash of its parent, and satisfies the predicate.
abbrev pub IsKeyed : (OrphanBlock → Type 0) → List (Bytes × List OrphanBlock) → Type 0
IsKeyed P d =
    All
      (λ (p : Bytes × List OrphanBlock).
        All (λ (x : OrphanBlock). (bytes_to_hash x.block.prev_hash ≡ p.0) × P x) p.1)
      d

length-without : (hash : Bytes) (xs : List OrphanBlock) → length (without hash xs) ≤ length xs
unfolding without
length-without hash [] = omega arith
length-without hash (x ∷ xs) = ground (arith, length-without hash xs)

without_self :
    (x : OrphanBlock) (xs : List OrphanBlock)
    → length (without (bytes_to_hash x.block.hash) (x ∷ xs)) ≤ length xs
unfolding without
without_self x xs =
    rw (bytes_eq_self (bytes_to_hash x.block.hash)) (length-without (bytes_to_hash x.block.hash) xs)

total-delete :
    (k : Bytes) (d : List (Bytes × List OrphanBlock))
    → length (or_nil (lookup_key k d)) + total (delete_key k d) ≤ total d
unfolding lookup_key delete_key
total-delete k [] = omega arith
total-delete k ((j, xs) ∷ d) = elim (Bool-cases (bytes_eq j k)) [
  | inl e ↦ rw e (omega (arith, total-delete k d))
  | inr e ↦ rw e (omega (arith, total-delete k d))
]

total-keep :
    (k : Bytes) (xs : List OrphanBlock) (d : List (Bytes × List OrphanBlock))
    → total (keep_waiting k xs d) ≡ length xs + total d
total-keep k [] d = omega arith
total-keep k (x ∷ xs) d = refl

-- An orphan that is taken from the list of its parent's hash makes one less.
pub total-remove :
    (x : OrphanBlock) (xs : List OrphanBlock) (prev : Bytes) (o : Orphans)
    → bytes_to_hash x.block.prev_hash ≡ prev
    → waiting_for prev o ≡ x ∷ xs
    → total (remove_orphan_block x o).by_prev < total o.by_prev
unfolding remove_orphan_block waiting_for
total-remove x xs prev o key first =
    let hash = bytes_to_hash x.block.hash in
    rw key (
      rw first (
        omega (
          arith,
          total-keep prev (without hash (x ∷ xs)) (delete_key prev o.by_prev),
          without_self x xs,
          total-delete prev o.by_prev,
          ap length first,
        )))

All-without :
    (P : OrphanBlock → Type 0) (hash : Bytes) (xs : List OrphanBlock)
    → All P xs
    → All P (without hash xs)
unfolding without
All-without P hash [] h = tt
All-without P hash (x ∷ xs) h = elim (Bool-cases (bytes_eq hash (bytes_to_hash x.block.hash))) [
  | inl e ↦ rw e (All-without P hash xs h.1)
  | inr e ↦ rw e (h.0, All-without P hash xs h.1)
]

module _ (P : OrphanBlock → Type 0) where
  pub IsKeyed-delete :
      (k : Bytes) (d : List (Bytes × List OrphanBlock)) → IsKeyed P d → IsKeyed P (delete_key k d)
  unfolding delete_key
  IsKeyed-delete k [] h = tt
  IsKeyed-delete k ((j, xs) ∷ d) h = elim (Bool-cases (bytes_eq j k)) [
    | inl e ↦ rw e (IsKeyed-delete k d h.1)
    | inr e ↦ rw e (h.0, IsKeyed-delete k d h.1)
  ]

  IsKeyed-lookup :
      (k : Bytes) (d : List (Bytes × List OrphanBlock))
      → IsKeyed P d
      → All
          (λ (x : OrphanBlock). (bytes_to_hash x.block.prev_hash ≡ k) × P x)
          (or_nil (lookup_key k d))
  unfolding lookup_key
  IsKeyed-lookup k [] h = tt
  IsKeyed-lookup k ((j, xs) ∷ d) h = elim (Bool-cases (bytes_eq j k)) [
    | inl e ↦ rw e (
        subst (λ i. All (λ (x : OrphanBlock). (bytes_to_hash x.block.prev_hash ≡ i) × P x) xs)
          (bytes_eq→eq j k e) h.0)
    | inr e ↦ rw e (IsKeyed-lookup k d h.1)
  ]

  IsKeyed-keep :
      (k : Bytes) (xs : List OrphanBlock) (d : List (Bytes × List OrphanBlock))
      → All (λ (x : OrphanBlock). (bytes_to_hash x.block.prev_hash ≡ k) × P x) xs
      → IsKeyed P d
      → IsKeyed P (keep_waiting k xs d)
  IsKeyed-keep k [] d h g = g
  IsKeyed-keep k (x ∷ xs) d h g = (h, g)

  pub waiting-IsKeyed :
      (prev : Bytes) (o : Orphans)
      → IsKeyed P o.by_prev
      → All
          (λ (x : OrphanBlock). (bytes_to_hash x.block.prev_hash ≡ prev) × P x)
          (waiting_for prev o)
  unfolding waiting_for
  waiting-IsKeyed prev o h = IsKeyed-lookup prev o.by_prev h

  pub remove-IsKeyed :
      (x : OrphanBlock) (o : Orphans)
      → IsKeyed P o.by_prev
      → IsKeyed P (remove_orphan_block x o).by_prev
  unfolding remove_orphan_block
  remove-IsKeyed x o h =
      let prev = bytes_to_hash x.block.prev_hash in
      IsKeyed-keep prev _ (delete_key prev o.by_prev)
        (All-without _ (bytes_to_hash x.block.hash) (waiting_for prev o) (waiting-IsKeyed prev o h))
        (IsKeyed-delete prev o.by_prev h)

lookup-keep_other :
    (k i : Bytes) (xs : List OrphanBlock) (d : List (Bytes × List OrphanBlock))
    → bytes_eq k i ≡ false
    → lookup_key i (keep_waiting k xs d) ≡ lookup_key i d
unfolding lookup_key
lookup-keep_other k i [] d h = refl
lookup-keep_other k i (x ∷ xs) d h = rw h refl

-- Where nobody waits, nobody waits after a removal.
pub remove-waiting :
    (k : Bytes) (x : OrphanBlock) (o : Orphans)
    → waiting_for k o ≡ []
    → waiting_for k (remove_orphan_block x o) ≡ []
unfolding remove_orphan_block waiting_for without
remove-waiting k x o h =
    let prev = bytes_to_hash x.block.prev_hash in
    elim (Bool-cases (bytes_eq prev k)) [
      | inl e ↦
          let same : prev ≡ k = bytes_eq→eq prev k e in
          rw same (rw h (ap or_nil (lookup-delete_self k o.by_prev)))
      | inr e ↦
          ap or_nil (
            lookup-keep_other prev k _ (delete_key prev o.by_prev) e
            ∙ lookup-delete prev k o.by_prev e)
          ∙ h
    ]
