-- ===== src/Store/Tests.antt =====
-- Runs of the lists of the store on a store that is a function.
use korthochain.Common.{ℕ, ◌≡◌, refl, [], ◌∷◌, arith, if◌then◌else◌}
use korthochain.Common.Bytes.{Bytes, bytes_eq, ascii}
use korthochain.Common.Digits.{fixed_digits}
use korthochain.Common.Outcome.{Result, ok, err}
use korthochain.Codec.{e64func}
use korthochain.Store.{Kv, IsKv, StoreError, not_exist}
use korthochain.Store.Lists.{
  list_meta_key, list_meta_value, list_key, llpush, lrpush, llpop, lrpop, lset, lindex,
}
use korthochain.Store.Deque.{Holds, lrpush_lem, llpush_lem, llpop_lem, lrpop_lem}
use korthochain.Store.Indexes.{lset_misses, lset-lindex}

abbrev pub Contents : Type 0
Contents = Bytes → Result StoreError Bytes

abbrev pub table : Kv Contents
table = record {
  get = λ k t. t k;
  set = λ k v t. (ok tt, λ j. if bytes_eq k j then ok v else t j);
  delete = λ k t. (ok tt, λ j. if bytes_eq k j then err not_exist else t j);
}

pub table-IsKv : IsKv table
table-IsKv = record {
  set-accepts = λ k v t h. refl;
  delete-accepts = λ k t h. refl;
  get-set = λ k v t j h. refl;
  get-delete = λ k t j h. refl;
  set-fails = λ k v t h. absurd (cc h);
  delete-fails = λ k t h. absurd (cc h);
}

abbrev jobs : Bytes
jobs = ascii "jobs"

abbrev job : ℕ → Bytes
job n = n ∷ []

-- The list holds jobs 1 and 2, and begins at 5.
abbrev two_jobs : Contents
two_jobs = λ j.
    if bytes_eq j (list_meta_key jobs)
    then ok (list_meta_value 5 7)
    else (if bytes_eq j (list_key jobs 5)
        then ok (job 1)
        else (if bytes_eq j (list_key jobs 6) then ok (job 2) else err not_exist))

two_jobs-Holds : Holds table jobs (job 1 ∷ job 2 ∷ []) two_jobs
unfolding bytes_eq e64func fixed_digits
two_jobs-Holds = (5, omega arith, refl, (refl, (refl, tt)))

lrpush_lem_example :
    ((lrpush table jobs (job 3) two_jobs).0 ≡ ok 3)
    × Holds table jobs (job 1 ∷ job 2 ∷ job 3 ∷ []) (lrpush table jobs (job 3) two_jobs).1
lrpush_lem_example =
    lrpush_lem table table-IsKv jobs (omega arith) (job 3) (job 1 ∷ job 2 ∷ []) two_jobs
      (omega arith) two_jobs-Holds

llpush_lem_example :
    ((llpush table jobs (job 3) two_jobs).0 ≡ ok 3)
    × Holds table jobs (job 3 ∷ job 1 ∷ job 2 ∷ []) (llpush table jobs (job 3) two_jobs).1
llpush_lem_example =
    llpush_lem table table-IsKv jobs (omega arith) (job 3) (job 1 ∷ job 2 ∷ []) two_jobs
      (omega arith) two_jobs-Holds

llpop_lem_example :
    ((llpop table jobs two_jobs).0 ≡ ok (job 1))
    × Holds table jobs (job 2 ∷ []) (llpop table jobs two_jobs).1
llpop_lem_example =
    llpop_lem table table-IsKv jobs (omega arith) (job 1) (job 2 ∷ []) two_jobs (omega arith)
      two_jobs-Holds

lrpop_lem_example :
    ((lrpop table jobs two_jobs).0 ≡ ok (job 2))
    × Holds table jobs (job 1 ∷ []) (lrpop table jobs two_jobs).1
lrpop_lem_example =
    lrpop_lem table table-IsKv jobs (omega arith) (job 2) (job 1 ∷ []) two_jobs (omega arith)
      two_jobs-Holds

lset_misses_example :
    ((lset table jobs 0 (job 9) two_jobs).0 ≡ ok tt)
    × (lindex table jobs 0 (lset table jobs 0 (job 9) two_jobs).1 ≡ lindex table jobs 0 two_jobs)
unfolding bytes_eq
lset_misses_example =
    lset_misses table table-IsKv jobs (omega arith) 5 2 (omega arith) 0 (job 9) two_jobs
      (omega arith) (omega arith) refl

-- The same list, begun at 0.
abbrev fresh : Contents
fresh = λ j.
    if bytes_eq j (list_meta_key jobs)
    then ok (list_meta_value 0 2)
    else (if bytes_eq j (list_key jobs 0)
        then ok (job 1)
        else (if bytes_eq j (list_key jobs 1) then ok (job 2) else err not_exist))

lset-lindex_example :
    let out = lset table jobs 1 (job 9) fresh in
    (out.0 ≡ ok tt)
    × (lindex table jobs 1 out.1 ≡ ok (job 9))
    × (lindex table jobs 0 out.1 ≡ lindex table jobs 0 fresh)
unfolding bytes_eq
lset-lindex_example =
    lset-lindex table table-IsKv jobs (omega arith) 0 2 (omega arith) 1 0 (job 9) fresh refl
      (omega arith) (omega arith) (λ e. omega (arith, e)) refl
