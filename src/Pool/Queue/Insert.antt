-- ===== src/Pool/Queue/Insert.antt =====
-- Where `push` puts a transaction.
use korthochain.Common.{
  ℕ, zero, suc, ◌≤◌, ◌≡◌, refl, sym, ◌∙◌, ap, List, [], ◌∷◌, ◌++◌, true, some, none, arith, length,
  get_elem?, take, drop, ltb, Bool-cases, inl, inr,
}
use korthochain.Common.Outcome.{ok}
use korthochain.Common.Action.{>>=-ok, ◌>>=◌}
use korthochain.Pool.Queue.{
  Entry, Queue, set_at, place, up, up_loop, entry_at, less, received_of, find_received, nonce_of,
  update, with_idx, add_rst_buffer,
}
use korthochain.Pool.Queue.Push.{push, insert_entry, append_entry, stamp_new}

module _ {A : Type 0} where
  length-set_at : (xs : List A) (i : ℕ) (v : A) → length (set_at xs i v) ≡ length xs
  length-set_at [] i v = refl
  length-set_at (x ∷ xs) zero v = refl
  length-set_at (x ∷ xs) (suc i) v = ap suc (length-set_at xs i v)

  take-set_at : (xs : List A) (i : ℕ) (v : A) → take i (set_at xs i v) ≡ take i xs
  take-set_at [] i v = refl
  take-set_at (x ∷ xs) zero v = refl
  take-set_at (x ∷ xs) (suc i) v = ap (◌∷◌ x) (take-set_at xs i v)

  drop-set_at :
      (xs : List A) (i : ℕ) (v : A)
      → suc i ≤ length xs
      → drop i (set_at xs i v) ≡ v ∷ drop (suc i) xs
  drop-set_at [] i v h = absurd (omega arith)
  drop-set_at (x ∷ xs) zero v h = refl
  drop-set_at (x ∷ xs) (suc i) v h = drop-set_at xs i v (omega arith)

  take-append-drop_at : (xs : List A) (i : ℕ) → take i xs ++ drop i xs ≡ xs
  take-append-drop_at xs zero = refl
  take-append-drop_at [] (suc i) = refl
  take-append-drop_at (x ∷ xs) (suc i) = ap (◌∷◌ x) (take-append-drop_at xs i)

  get_elem?-cases :
      (xs : List A) (i : ℕ)
      → suc i ≤ length xs
      → (x : A) × (get_elem? xs i ≡ some x) × (drop i xs ≡ x ∷ drop (suc i) xs)
  get_elem?-cases [] i h = absurd (omega arith)
  get_elem?-cases (x ∷ xs) zero h = (x, refl, refl)
  get_elem?-cases (x ∷ xs) (suc i) h = get_elem?-cases xs i (omega arith)

  -- A shorter prefix of lists that agree up to an index.
  take_mono : (i : ℕ) (xs ys : List A) → take (suc i) xs ≡ take (suc i) ys → take i xs ≡ take i ys
  take_mono zero xs ys h = refl
  take_mono (suc i) [] [] h = refl
  take_mono (suc i) [] (y ∷ ys) h = absurd (cc h)
  take_mono (suc i) (x ∷ xs) [] h = absurd (cc h)
  take_mono (suc i) (x ∷ xs) (y ∷ ys) h =
      let heads : x ≡ y = cc h in
      let tails : take (suc i) xs ≡ take (suc i) ys = cc h in
      rw (heads, take_mono i xs ys tails) refl

  get_elem?-agree :
      (i : ℕ) (xs ys : List A) → take (suc i) xs ≡ take (suc i) ys → get_elem? xs i ≡ get_elem? ys i
  get_elem?-agree i [] [] h = refl
  get_elem?-agree i [] (y ∷ ys) h = absurd (cc h)
  get_elem?-agree i (x ∷ xs) [] h = absurd (cc h)
  get_elem?-agree zero (x ∷ xs) (y ∷ ys) h = cc h
  get_elem?-agree (suc i) (x ∷ xs) (y ∷ ys) h = get_elem?-agree i xs ys (cc h)

  -- The list `xs` with a gap at `i`, where any value stands.
  pub record Gap (old xs : List A) (i : ℕ) : Type 0 where
    pub size : length xs ≡ suc (length old)
    pub within : i ≤ length old
    pub before : take i xs ≡ take i old
    pub behind : drop (suc i) xs ≡ drop i old

  -- The element before the gap moves into it.
  Gap-move :
      (old xs : List A) (i : ℕ) (x : A)
      → Gap old xs (suc i)
      → get_elem? xs i ≡ some x
      → Gap old (set_at xs (suc i) x) i
  Gap-move old xs i x g e =
      let (y, at_old, split) = get_elem?-cases old i g.within in
      let same : x ≡ y = cc (e, at_old, get_elem?-agree i xs old g.before) in
      record {
        size = length-set_at xs (suc i) x ∙ g.size;
        within = omega (arith, g.within);
        before =
            take_mono i (set_at xs (suc i) x) xs (take-set_at xs (suc i) x)
            ∙ take_mono i xs old g.before;
        behind =
            drop-set_at xs (suc i) x (omega (arith, g.within, g.size))
            ∙ ap (◌∷◌ x) g.behind
            ∙ ap (λ z. z ∷ drop (suc i) old) same
            ∙ sym split;
      }

  -- The gap is filled.
  Gap-fill :
      (old xs : List A) (i : ℕ) (v : A)
      → Gap old xs i
      → set_at xs i v ≡ take i old ++ v ∷ drop i old
  Gap-fill old xs i v g =
      sym (take-append-drop_at (set_at xs i v) i)
      ∙ rw
          (
            take-set_at xs i v,
            drop-set_at xs i v (omega (arith, g.within, g.size)),
            g.before,
            g.behind,
          )
          refl

-- A write within range succeeds.
place_lem :
    (x : Entry) (i : ℕ) (q : Queue)
    → suc i ≤ length q.st_list
    → place x i q ≡ (
      ok tt,
      record (update x.caller (nonce_of x) (with_idx i) q) { st_list = set_at q.st_list i x },
    )
unfolding place update
place_lem x i q h = let inside : ltb i (length q.st_list) ≡ true = ground arith in rw inside refl

entry_at_lem :
    (x : Entry) (i : ℕ) (q : Queue) → get_elem? q.st_list i ≡ some x → entry_at i q ≡ (ok x, q)
unfolding entry_at
entry_at_lem x i q h = rw h refl

-- The loop of `up` moves the gap down, and ends without a panic.
up_loop-Gap :
    (old : List Entry) (i : ℕ) (value : Entry) (q : Queue)
    → Gap old q.st_list i
    → (k : ℕ) × (q' : Queue) × (up_loop i value q ≡ (ok k, q')) × Gap old q'.st_list k
unfolding up_loop
up_loop-Gap old zero value q g = (0, q, refl, g)
up_loop-Gap old (suc i) value q g =
    let (x, at_i, split) = get_elem?-cases q.st_list i (omega (arith, g.within, g.size)) in
    elim (Bool-cases (less q i x value)) [
      | inl smaller ↦
          let q1 = record (update x.caller (nonce_of x) (with_idx (suc i)) q) {
            st_list = set_at q.st_list (suc i) x;
          } in
          let (k, q', ends, g') = up_loop-Gap old i value q1 (Gap-move old q.st_list i x g at_i) in
          (
            k,
            q',
            rw (entry_at_lem x i q at_i)
                (rw smaller (rw (place_lem x (suc i) q (omega (arith, g.within, g.size))) ends)),
            g',
          )
      | inr larger ↦ (suc i, q, rw (entry_at_lem x i q at_i) (rw larger refl), g)
    ]

-- The list that `push` works on ends with the new entry: a gap behind all others.
append-Gap : (old : List Entry) (e : Entry) → Gap old (old ++ e ∷ []) (length old)
append-Gap [] e = record { size = refl; within = omega arith; before = refl; behind = refl }
append-Gap (x ∷ old) e =
    let g = append-Gap old e in
    record {
      size = ap suc g.size;
      within = omega arith;
      before = ap (◌∷◌ x) g.before;
      behind = g.behind;
    }

get-append : (old : List Entry) (e : Entry) → get_elem? (old ++ e ∷ []) (length old) ≡ some e
get-append [] e = refl
get-append (x ∷ old) e = get-append old e

stamp_new-list : (e : Entry) (now : ℕ) (q : Queue) → (stamp_new e now q).st_list ≡ q.st_list
unfolding stamp_new
stamp_new-list e now q = ground arith

append_entry-list :
    (e : Entry) (now second : ℕ) (q : Queue)
    → (append_entry e now second q).st_list ≡ q.st_list ++ e ∷ []
unfolding append_entry add_rst_buffer
append_entry-list e now second q = stamp_new-list e now _

up_lem :
    (j k : ℕ) (e : Entry) (q q1 : Queue)
    → get_elem? q.st_list j ≡ some e
    → up_loop j e q ≡ (ok k, q1)
    → up j q ≡ place e k q1
unfolding up
up_lem j k e q q1 at_j ends =
    >>=-ok (entry_at j) (λ value. up_loop j value >>= place value) q (entry_at_lem e j q at_j)
    ∙ >>=-ok (up_loop j e) (place e) q ends

-- A transaction with a nonce that its caller does not have in the queue goes in at one place of the
-- list: the call does not panic, and leaves all others there and in their order.
pub push-inserts :
    (e : Entry) (now second : ℕ) (q : Queue)
    → find_received (nonce_of e) (received_of e.caller q.rst_buffer) ≡ none
    → (k : ℕ) × (q' : Queue) × (push e now second q ≡ (ok tt, q'))
      × (q'.st_list ≡ take k q.st_list ++ e ∷ drop k q.st_list)
unfolding push insert_entry
push-inserts e now second q new =
    let old = q.st_list in
    let q0 = append_entry e now second q in
    let start = append_entry-list e now second q in
    let gap : Gap old q0.st_list (length old) = rw start (append-Gap old e) in
    let last : get_elem? q0.st_list (length old) ≡ some e = rw start (get-append old e) in
    let (k, q1, ends, g) = up_loop-Gap old (length old) e q0 gap in
    (
      k,
      record (update e.caller (nonce_of e) (with_idx k) q1) { st_list = set_at q1.st_list k e },
      rw new (
          up_lem (length old) k e q0 q1 last ends
          ∙ place_lem e k q1 (omega (arith, g.within, g.size))),
      Gap-fill old q1.st_list k e g,
    )
