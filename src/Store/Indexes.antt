-- ===== src/Store/Indexes.antt =====
-- Reads and writes of a list of the store by index. The write adds the start of the list twice.
use korthochain.Common.{
  ℕ, ◌+◌, ◌^◌, ◌<◌, ◌≤◌, ◌≡◌, ◌≢◌, refl, sym, subst, ◌∙◌, false, not, ◌||◌, arith, length,
}
use korthochain.Common.Word.{◌+64◌}
use korthochain.Common.Bytes.{Bytes}
use korthochain.Common.Outcome.{ok}
use korthochain.Store.{Kv, IsKv, get-set_other, set-run, get-set_self}
use korthochain.Store.Lists.{
  list_meta_key, list_key, list_meta_value, less_int64, place, lset, lindex,
}
use korthochain.Store.Deque.{bounds_lem, list_key-other, list_key-meta, list_key-IsKey}

module _ {T : Type 0} (kv : Kv T) (laws : IsKv kv) (k : Bytes) (room : length k ≤ 64000)
    (start size : ℕ) (small : start + start + size < 2 ^ 63) where
  -- The bounds of the list are `start` and `start + size`.
  abbrev pub Bounded : T → Type 0
  Bounded t = kv.get (list_meta_key k) t ≡ ok (list_meta_value start (start + size))

  in_range :
      (i : ℕ)
      → i < size
      → (place start (start + size) i ≡ i + start)
        × ((less_int64 (i + start) start || not (less_int64 (i + start) (start + size))) ≡ false)
  unfolding place
  in_range i lt = (ground arith, ground arith)

  -- An index in range reads the element's key.
  lindex_lem :
      (i : ℕ) (t : T) → i < size → Bounded t → lindex kv k i t ≡ kv.get (list_key k (i + start)) t
  unfolding lindex
  lindex_lem i t lt h =
      let bounds = bounds_lem kv laws k start (start + size) t (omega arith) (omega arith) h in
      rw bounds (rw (in_range i lt).0 (rw (in_range i lt).1 refl))

  -- A write to an index in range goes to the key that lies `start` further on.
  lset_runs :
      (i : ℕ) (v : Bytes) (t : T)
      → i < size
      → Bounded t
      → lset kv k i v t ≡ (ok tt, (kv.set (list_key k (i + start + start)) v t).1)
  unfolding lset
  lset_runs i v t lt h =
      let bounds = bounds_lem kv laws k start (start + size) t (omega arith) (omega arith) h in
      let at : (i + start) +64 start ≡ i + start + start = omega arith in
      rw bounds (
        rw (in_range i lt).0 (
          rw (in_range i lt).1 (
            rw at (
              set-run kv laws (list_key k (i + start + start)) v t
                (list_key-IsKey k (i + start + start) room)))))

  kept : (i : ℕ) (v : Bytes) (t : T) → Bounded t → Bounded (kv.set (list_key k i) v t).1
  kept i v t h = get-set_other kv laws (list_key k i) v t (list_meta_key k) (list_key-meta k i) ∙ h

  -- Setting an element of a list whose start is above 0 reports success and leaves the element as
  -- it was: reading the index gives what it gave before, where the store is within its limits, the
  -- list's key has at most 64000 bytes, and twice the start with the size is below 2 ^ 63.
  pub lset_misses :
      (i : ℕ) (v : Bytes) (t : T)
      → 0 < start
      → i < size
      → Bounded t
      → ((lset kv k i v t).0 ≡ ok tt) × (lindex kv k i (lset kv k i v t).1 ≡ lindex kv k i t)
  lset_misses i v t moved lt h =
      let far : ℕ = i + start + start in
      rw (lset_runs i v t lt h) (
        refl,
        lindex_lem i _ lt (kept far v t h)
            ∙ get-set_other kv laws (list_key k far) v t (list_key k (i + start))
                (list_key-other k far (i + start) (omega arith) (omega arith) (λ e. omega arith))
            ∙ sym (lindex_lem i t lt h),
      )

  -- Setting an element of a list whose start is 0: reading the index gives the new value, and
  -- reading another one in range gives what it gave before, where the store is within its limits,
  -- the list's key has at most 64000 bytes, and the size is below 2 ^ 63.
  pub lset-lindex :
      (i j : ℕ) (v : Bytes) (t : T)
      → start ≡ 0
      → i < size
      → j < size
      → i ≢ j
      → Bounded t
      → let out = lset kv k i v t in
        (out.0 ≡ ok tt) × (lindex kv k i out.1 ≡ ok v) × (lindex kv k j out.1 ≡ lindex kv k j t)
  lset-lindex i j v t zero_start li lj other h =
      let far : ℕ = i + start + start in
      let far_is : far ≡ i + start = omega arith in
      rw (lset_runs i v t li h) (
        refl,
        lindex_lem i _ li (kept far v t h)
            ∙ subst (λ p. kv.get (list_key k p) (kv.set (list_key k far) v t).1 ≡ ok v) far_is
                (get-set_self kv laws (list_key k far) v t (list_key-IsKey k far room)),
        lindex_lem j _ lj (kept far v t h)
            ∙ get-set_other kv laws (list_key k far) v t (list_key k (j + start))
                (list_key-other k far (j + start) (omega arith) (omega arith) (λ e. omega arith))
            ∙ sym (lindex_lem j t lj h),
      )
