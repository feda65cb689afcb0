-- ===== src/Pool/Eviction/Limits.antt =====
-- What the eviction of pkg/txpool/pool.go leaves in the queue.
use korthochain.Common.{
  ℕ, zero, suc, ◌+◌, ◌-◌, ◌≤◌, ◌≡◌, refl, sym, ◌∙◌, ap, List, [], ◌∷◌, true, false, arith, ltb,
  length, drop, Bool-cases, ltb→lt, leb, ◌<◌, inl, inr,
}
use korthochain.Common.Bytes.{Bytes}
use korthochain.Common.Outcome.{ok}
use korthochain.Common.Action.{>>=-ok}
use korthochain.Pool.{Chain}
use korthochain.Pool.Queue.{Entry, Queue, rm_received, update, drop_hash, entry_at}
use korthochain.Pool.Queue.Push.{remove, renumber, settle_below}
use korthochain.Pool.Eviction.{evict_over, evict_old, cache_out, kept_size}

rm_received-list :
    (caller : Bytes) (i : ℕ) (q : Queue) → (rm_received caller i q).st_list ≡ q.st_list
unfolding rm_received
rm_received-list caller i q = refl

renumber-list : (i : ℕ) (es : List Entry) (q : Queue) → (renumber i es q).st_list ≡ q.st_list
unfolding renumber update
renumber-list i [] q = refl
renumber-list i (e ∷ es) q = renumber-list (suc i) es _

-- The first entry goes, and no call panics.
remove_first :
    (e : Entry) (es : List Entry) (q : Queue)
    → q.st_list ≡ e ∷ es
    → (q' : Queue) × (remove 0 q ≡ (ok tt, q')) × (q'.st_list ≡ es)
unfolding remove entry_at settle_below
remove_first e es q h =
    let q2 = drop_hash e (rm_received e.caller 0 q) in
    let q3 = renumber 1 (drop 1 q2.st_list) q2 in
    let kept : q3.st_list ≡ e ∷ es = renumber-list 1 (drop 1 q2.st_list) q2 ∙ h in
    let more : leb (suc (length es)) 0 ≡ false = ground arith in
    (record q3 { st_list = drop 1 q3.st_list }, rw h (rw more refl), ap (drop 1) kept)

-- The loop ends with the entries behind those that are over, and no call panics.
abbrev Drops : ℕ → Queue → Type 0
Drops turns q =
    (q' : Queue) × (evict_over turns q ≡ (ok tt, q'))
    × (q'.st_list ≡ drop (length q.st_list - kept_size) q.st_list)

evict_over-Drops : (turns : ℕ) (q : Queue) → length q.st_list ≤ turns + kept_size → Drops turns q
unfolding evict_over
evict_over-Drops zero q h =
    let none_over : length q.st_list - kept_size ≡ 0 = omega (arith, h) in
    (q, refl, rw none_over refl)
evict_over-Drops (suc turns) q h = elim (Bool-cases (ltb kept_size (length q.st_list))) [
  | inr within ↦
      let none_over : length q.st_list - kept_size ≡ 0 = ground (arith, within) in
      (q, rw within refl, rw none_over refl)
  | inl over ↦ first (evict_over-Drops turns) over q.st_list refl
]
  where
    first :
        ((k : Queue) → length k.st_list ≤ turns + kept_size → Drops turns k)
        → ltb kept_size (length q.st_list) ≡ true
        → (xs : List Entry) → q.st_list ≡ xs
        → Drops (suc turns) q
    first next over [] e = absurd (ground (arith, over, ap length e))
    first next over (x ∷ xs) e =
        let (q1, done, rest) = remove_first x xs q e in
        let long : length q.st_list ≡ suc (length xs) = ap length e in
        let many : kept_size < length q.st_list = ltb→lt kept_size (length q.st_list) over in
        let short : length q1.st_list ≡ length xs = ap length rest in
        let (q', ends, left) = next q1 (omega (arith, h, long, short)) in
        let one_more : length q.st_list - kept_size ≡ suc (length xs - kept_size) =
          omega (arith, many, long) in
        (
          q',
          rw over (>>=-ok (remove 0) (λ _. evict_over turns) q done ∙ ends),
          left
              ∙ ap (λ l. drop (length l - kept_size) l) rest
              ∙ sym (rw one_more (ap (drop (suc (length xs - kept_size))) e)),
        )

-- Once the old transactions are out of the queue, `cacheOutSignedTransaction` ends without a panic
-- and keeps the last 6666 entries of the queue, in their order.
pub cache_out_keeps :
    (chain : Chain) (now : ℕ) (q q1 : Queue)
    → evict_old chain now q.time_buffer q ≡ (ok tt, q1)
    → (q' : Queue) × (cache_out chain now q ≡ (ok tt, q'))
      × (q'.st_list ≡ drop (length q1.st_list - 6666) q1.st_list)
unfolding cache_out
cache_out_keeps chain now q q1 out =
    let (q', ends, kept) = evict_over-Drops (length q1.st_list) q1 (omega arith) in
    (q', >>=-ok (evict_old chain now q.time_buffer) _ q out ∙ ends, kept)
