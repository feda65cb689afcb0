-- ===== src/Store/Deque.antt =====
-- The lists of the store are double-ended queues: what each push and pop does to the elements.
use korthochain.Common.{
  ℕ, suc, ◌^◌, ◌<◌, ◌≤◌, ◌≡◌, ◌≢◌, refl, sym, subst, ◌∙◌, ap, List, [], ◌∷◌, ◌++◌, false, arith,
  length, length-append, append-injective, ltb, ◌==◌, take, take_of_length, drop_of_length,
  append-nil,
}
use korthochain.Common.Word.{◌+64◌, ◌-64◌, IsU64}
use korthochain.Common.Bytes.{Bytes, ascii, bytes_eq, bytes_eq_ne, bytes_eq-length}
use korthochain.Common.Outcome.{ok, err}
use korthochain.Codec.{e64func}
use korthochain.Codec.Laws.{length-e64func, d64func-e64func}
use korthochain.Store.{Kv, IsKv, IsKey, not_exist, get-set_other, set-run, get-set_self}
use korthochain.Store.Lists.{
  list_meta_key, list_key, list_meta_value, list_bounds, list_start_end, bounds_or_new, lnew,
  llpush, lrpush, llpop, lrpop,
}

list_key-injective : (k : Bytes) (i j : ℕ) → IsU64 i → IsU64 j → list_key k i ≡ list_key k j → i ≡ j
list_key-injective k i j hi hj e =
    let tails = append-injective (ascii "l" ++ k) (e64func i) (ascii "l" ++ k) (e64func j) refl e in
    cc (tails.1, d64func-e64func i hi, d64func-e64func j hj)

take_all : (n : ℕ) (xs : Bytes) → length xs ≡ n → take n xs ≡ xs
take_all n xs h = ap (take n) (sym (append-nil xs)) ∙ take_of_length n xs [] h

pub meta_key-other : (k : Bytes) (i : ℕ) → bytes_eq (list_meta_key k) (list_key k i) ≡ false
meta_key-other k i =
    bytes_eq-length (list_meta_key k) (list_key k i)
      (λ e. omega (arith, length-append (ascii "l" ++ k) (e64func i), length-e64func i))

pub list_key-meta : (k : Bytes) (i : ℕ) → bytes_eq (list_key k i) (list_meta_key k) ≡ false
list_key-meta k i =
    bytes_eq-length (list_key k i) (list_meta_key k)
      (λ e. omega (arith, length-append (ascii "l" ++ k) (e64func i), length-e64func i))

pub list_key-other :
    (k : Bytes) (i j : ℕ)
    → IsU64 i
    → IsU64 j
    → i ≢ j
    → bytes_eq (list_key k i) (list_key k j) ≡ false
list_key-other k i j hi hj h =
    bytes_eq_ne (list_key k i) (list_key k j) (λ e. h (list_key-injective k i j hi hj e))

list_bounds_lem :
    (start end : ℕ)
    → IsU64 start
    → IsU64 end
    → list_bounds (list_meta_value start end) ≡ ok (start, end)
unfolding list_bounds
list_bounds_lem start end hs he =
    let four = length-append (e64func start) (e64func end) in
    let enough : ltb (length (e64func start ++ e64func end)) 16 ≡ false =
      ground (arith, four, length-e64func start, length-e64func end) in
    rw
      (
        enough,
        take_of_length 8 (e64func start) (e64func end) (length-e64func start),
        drop_of_length 8 (e64func start) (e64func end) (length-e64func start),
        take_all 8 (e64func end) (length-e64func end),
        d64func-e64func start hs,
        d64func-e64func end he,
      )
      refl

module _ {T : Type 0} (kv : Kv T) where
  -- From index `i` on, the elements stand one after another; the index wraps around.
  abbrev pub Elements : Bytes → ℕ → List Bytes → T → Type 0
  Elements k i [] t = Unit
  Elements k i (x ∷ xs) t = (kv.get (list_key k i) t ≡ ok x) × Elements k (i +64 1) xs t

  -- The list under the key holds these elements.
  abbrev pub Holds : Bytes → List Bytes → T → Type 0
  Holds k xs t =
      (start : ℕ) × IsU64 start
      × (kv.get (list_meta_key k) t ≡ ok (list_meta_value start (start +64 length xs)))
      × Elements k start xs t

-- The keys of a list are accepted where the list's own key leaves room for them.
pub list_meta_key-IsKey : (k : Bytes) → length k ≤ 64000 → IsKey (list_meta_key k)
list_meta_key-IsKey k h = ((λ e. omega (arith, e)), omega arith)

pub list_key-IsKey : (k : Bytes) (i : ℕ) → length k ≤ 64000 → IsKey (list_key k i)
list_key-IsKey k i h =
    ((λ e. omega (arith, e)), omega (arith, length-append k (e64func i), length-e64func i))

module _ {T : Type 0} (kv : Kv T) (laws : IsKv kv) (k : Bytes) where
  -- A write to a key that is none of the elements' leaves the elements.
  pub Elements-set :
      (key v : Bytes) (t : T) (i : ℕ) (xs : List Bytes)
      → IsU64 i
      → ((n : ℕ) → n < length xs → bytes_eq key (list_key k (i +64 n)) ≡ false)
      → Elements kv k i xs t
      → Elements kv k i xs (kv.set key v t).1
  Elements-set key v t i [] hi apart h = tt
  Elements-set key v t i (x ∷ xs) hi apart h =
      let here : i +64 0 ≡ i = omega arith in
      let next : (n : ℕ) → (i +64 1) +64 n ≡ i +64 suc n = λ n. omega arith in
      (
        get-set_other kv laws key v t (list_key k i)
              (subst (λ p. bytes_eq key (list_key k p) ≡ false) here (apart 0 (omega arith)))
            ∙ h.0,
        Elements-set key v t (i +64 1) xs (omega arith)
            (λ n lt.
              subst (λ p. bytes_eq key (list_key k p) ≡ false) (sym (next n))
                (apart (suc n) (omega arith)))
            h.1,
      )

  Elements-snoc :
      (v : Bytes) (t : T) (i : ℕ) (xs : List Bytes)
      → IsU64 i
      → Elements kv k i xs t
      → kv.get (list_key k (i +64 length xs)) t ≡ ok v
      → Elements kv k i (xs ++ v ∷ []) t
  Elements-snoc v t i [] hi h last =
      let here : i +64 0 ≡ i = omega arith in
      (subst (λ p. kv.get (list_key k p) t ≡ ok v) here last, tt)
  Elements-snoc v t i (x ∷ xs) hi h last =
      let next : i +64 suc (length xs) ≡ (i +64 1) +64 length xs = omega arith in
      (
        h.0,
        Elements-snoc v t (i +64 1) xs (omega arith) h.1
            (subst (λ p. kv.get (list_key k p) t ≡ ok v) next last),
      )

  Elements-unsnoc :
      (v : Bytes) (t : T) (i : ℕ) (xs : List Bytes)
      → IsU64 i
      → Elements kv k i (xs ++ v ∷ []) t
      → Elements kv k i xs t × (kv.get (list_key k (i +64 length xs)) t ≡ ok v)
  Elements-unsnoc v t i [] hi h =
      let here : i ≡ i +64 0 = omega arith in
      (tt, subst (λ p. kv.get (list_key k p) t ≡ ok v) here h.0)
  Elements-unsnoc v t i (x ∷ xs) hi h =
      let next : (i +64 1) +64 length xs ≡ i +64 suc (length xs) = omega arith in
      let rest = Elements-unsnoc v t (i +64 1) xs (omega arith) h.1 in
      ((h.0, rest.0), subst (λ p. kv.get (list_key k p) t ≡ ok v) next rest.1)

  pub bounds_lem :
      (start end : ℕ) (t : T)
      → IsU64 start
      → IsU64 end
      → kv.get (list_meta_key k) t ≡ ok (list_meta_value start end)
      → list_start_end kv k t ≡ ok (start, end)
  unfolding list_start_end
  bounds_lem start end t hs he h = rw h (list_bounds_lem start end hs he)

  module _ (room : length k ≤ 64000) where
    -- An element and then the bounds are written.
    abbrev both : ℕ → Bytes → ℕ → ℕ → T → T
    both i v start end t =
        (kv.set (list_meta_key k) (list_meta_value start end) (kv.set (list_key k i) v t).1).1

    -- The elements that stand elsewhere stay, the new one is there, and the bounds are the new ones.
    both_lem :
        (i : ℕ) (v : Bytes) (start end : ℕ) (t : T) (j : ℕ) (xs : List Bytes)
        → IsU64 i
        → IsU64 j
        → ((n : ℕ) → n < length xs → i ≢ j +64 n)
        → Elements kv k j xs t
        → let t' = both i v start end t in
          Elements kv k j xs t'
          × (kv.get (list_key k i) t' ≡ ok v)
          × (kv.get (list_meta_key k) t' ≡ ok (list_meta_value start end))
    both_lem i v start end t j xs hi hj apart h =
        let t1 : T = (kv.set (list_key k i) v t).1 in
        let meta : Bytes = list_meta_value start end in
        (
          Elements-set (list_meta_key k) meta t1 j xs hj (λ n lt. meta_key-other k (j +64 n))
              (Elements-set (list_key k i) v t j xs hj
                (λ n lt. list_key-other k i (j +64 n) hi (omega arith) (apart n lt)) h),
          get-set_other kv laws (list_meta_key k) meta t1 (list_key k i) (meta_key-other k i)
              ∙ get-set_self kv laws (list_key k i) v t (list_key-IsKey k i room),
          get-set_self kv laws (list_meta_key k) meta t1 (list_meta_key-IsKey k room),
        )

    -- Pushing at the end of a list adds the element there, and returns the new length, where the
    -- store is within its limits, the list's key has at most 64000 bytes, and the new length is
    -- below 2 ^ 64.
    pub lrpush_lem :
        (v : Bytes) (xs : List Bytes) (t : T)
        → suc (length xs) < 2 ^ 64
        → Holds kv k xs t
        → ((lrpush kv k v t).0 ≡ ok (suc (length xs)))
          × Holds kv k (xs ++ v ∷ []) (lrpush kv k v t).1
    unfolding lrpush bounds_or_new
    lrpush_lem v xs t fits (start, hs, meta, elements) =
        let end : ℕ = start +64 length xs in
        let bounds = bounds_lem start end t hs (omega arith) meta in
        let t' : T = both end v start (end +64 1) t in
        let not_full : (start == (end +64 1)) ≡ false = ground arith in
        let count : end -64 start +64 1 ≡ suc (length xs) = omega arith in
        let wrote = set-run kv laws (list_key k end) v t (list_key-IsKey k end room) in
        let moved =
          set-run kv laws (list_meta_key k) (list_meta_value start (end +64 1))
            (kv.set (list_key k end) v t).1 (list_meta_key-IsKey k room) in
        let runs : lrpush kv k v t ≡ (ok (suc (length xs)), t') =
          rw bounds (rw not_full (rw wrote (rw moved (rw count refl)))) in
        let (kept, new, meta') =
          both_lem end v start (end +64 1) t start xs (omega arith) hs (λ n lt e. omega arith)
            elements in
        let size : length (xs ++ v ∷ []) ≡ suc (length xs) =
          omega (arith, length-append xs (v ∷ [])) in
        let end_is : end +64 1 ≡ start +64 length (xs ++ v ∷ []) = omega (arith, size) in
        rw runs (refl, (start, hs, rw (← end_is) meta', Elements-snoc v t' start xs hs kept new))

    -- Pushing in front of a list adds the element there, and returns the new length, where the
    -- store is within its limits, the list's key has at most 64000 bytes, and the new length is
    -- below 2 ^ 64.
    pub llpush_lem :
        (v : Bytes) (xs : List Bytes) (t : T)
        → suc (length xs) < 2 ^ 64
        → Holds kv k xs t
        → ((llpush kv k v t).0 ≡ ok (suc (length xs))) × Holds kv k (v ∷ xs) (llpush kv k v t).1
    unfolding llpush bounds_or_new
    llpush_lem v xs t fits (start, hs, meta, elements) =
        let end : ℕ = start +64 length xs in
        let front : ℕ = start -64 1 in
        let bounds = bounds_lem start end t hs (omega arith) meta in
        let t' : T = both front v front end t in
        let not_full : (front == end) ≡ false = ground arith in
        let count : end -64 start +64 1 ≡ suc (length xs) = omega arith in
        let wrote = set-run kv laws (list_key k front) v t (list_key-IsKey k front room) in
        let moved =
          set-run kv laws (list_meta_key k) (list_meta_value front end)
            (kv.set (list_key k front) v t).1 (list_meta_key-IsKey k room) in
        let runs : llpush kv k v t ≡ (ok (suc (length xs)), t') =
          rw bounds (rw not_full (rw wrote (rw moved (rw count refl)))) in
        let (kept, new, meta') =
          both_lem front v front end t start xs (omega arith) hs (λ n lt e. omega arith) elements in
        let end_is : end ≡ front +64 suc (length xs) = omega arith in
        let next : start ≡ front +64 1 = omega arith in
        rw runs (
          refl,
          (
            front,
            omega arith,
            rw (← end_is) meta',
            (new, subst (λ p. Elements kv k p xs t') next kept),
          ),
        )

    -- A push on a key without a list begins one.
    pub lrpush-new :
        (v : Bytes) (t : T)
        → kv.get (list_meta_key k) t ≡ err not_exist
        → ((lrpush kv k v t).0 ≡ ok 1) × Holds kv k (v ∷ []) (lrpush kv k v t).1
    unfolding lrpush bounds_or_new lnew list_start_end
    lrpush-new v t none =
        let t0 : T = (kv.set (list_meta_key k) (list_meta_value 0 0) t).1 in
        let began =
          set-run kv laws (list_meta_key k) (list_meta_value 0 0) t (list_meta_key-IsKey k room) in
        let t' : T = both 0 v 0 1 t0 in
        let wrote = set-run kv laws (list_key k 0) v t0 (list_key-IsKey k 0 room) in
        let moved =
          set-run kv laws (list_meta_key k) (list_meta_value 0 1) (kv.set (list_key k 0) v t0).1
            (list_meta_key-IsKey k room) in
        let runs : lrpush kv k v t ≡ (ok 1, t') = rw none (rw began (rw wrote (rw moved refl))) in
        let (kept, new, meta') =
          both_lem 0 v 0 1 t0 0 [] (omega arith) (omega arith) (λ n lt e. omega arith) tt in
        rw runs (refl, (0, omega arith, meta', (new, tt)))

    -- Popping in front returns the first element of a list that is not empty and leaves the others,
    -- where the store is within its limits, the list's key has at most 64000 bytes, and the length
    -- is below 2 ^ 64.
    pub llpop_lem :
        (v : Bytes) (xs : List Bytes) (t : T)
        → suc (length xs) < 2 ^ 64
        → Holds kv k (v ∷ xs) t
        → ((llpop kv k t).0 ≡ ok v) × Holds kv k xs (llpop kv k t).1
    unfolding llpop
    llpop_lem v xs t fits (start, hs, meta, (first, elements)) =
        let end : ℕ = start +64 suc (length xs) in
        let next : ℕ = start +64 1 in
        let bounds = bounds_lem start end t hs (omega arith) meta in
        let new_meta : Bytes = list_meta_value next end in
        let not_empty : (start == end) ≡ false = ground arith in
        let moved = set-run kv laws (list_meta_key k) new_meta t (list_meta_key-IsKey k room) in
        let runs : llpop kv k t ≡ (ok v, (kv.set (list_meta_key k) new_meta t).1) =
          rw bounds (rw not_empty (rw first (rw moved refl))) in
        let meta' =
          get-set_self kv laws (list_meta_key k) new_meta t (list_meta_key-IsKey k room) in
        let kept =
          Elements-set (list_meta_key k) new_meta t next xs (omega arith)
            (λ n lt. meta_key-other k (next +64 n)) elements in
        let end_is : end ≡ next +64 length xs = omega arith in
        rw runs (refl, (next, omega arith, rw (← end_is) meta', kept))

    -- Popping at the end returns the last element of a list that is not empty and leaves the others,
    -- where the store is within its limits, the list's key has at most 64000 bytes, and the length
    -- is below 2 ^ 64.
    pub lrpop_lem :
        (v : Bytes) (xs : List Bytes) (t : T)
        → suc (length xs) < 2 ^ 64
        → Holds kv k (xs ++ v ∷ []) t
        → ((lrpop kv k t).0 ≡ ok v) × Holds kv k xs (lrpop kv k t).1
    unfolding lrpop
    lrpop_lem v xs t fits (start, hs, meta, elements) =
        let size : length (xs ++ v ∷ []) ≡ suc (length xs) =
          omega (arith, length-append xs (v ∷ [])) in
        let end : ℕ = start +64 length (xs ++ v ∷ []) in
        let last : ℕ = start +64 length xs in
        let bounds = bounds_lem start end t hs (omega arith) meta in
        let last_is : end -64 1 ≡ last = omega (arith, size) in
        let (before, at_end) = Elements-unsnoc v t start xs hs elements in
        let new_meta : Bytes = list_meta_value start last in
        let not_empty : (start == end) ≡ false = ground (arith, size) in
        let moved = set-run kv laws (list_meta_key k) new_meta t (list_meta_key-IsKey k room) in
        let runs : lrpop kv k t ≡ (ok v, (kv.set (list_meta_key k) new_meta t).1) =
          rw bounds (rw not_empty (rw last_is (rw at_end (rw last_is (rw moved refl))))) in
        let meta' =
          get-set_self kv laws (list_meta_key k) new_meta t (list_meta_key-IsKey k room) in
        let kept =
          Elements-set (list_meta_key k) new_meta t start xs hs
            (λ n lt. meta_key-other k (start +64 n)) before in
        rw runs (refl, (start, hs, meta', kept))
