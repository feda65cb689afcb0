-- ===== src/Pool/Eviction.antt =====
-- The rest of pkg/txpool/pool.go: `AddList`, the eviction of transactions, and the searches.
pub mod Limits
use korthochain.Common.{
  ℕ, zero, suc, ◌+◌, ◌-◌, List, [], ◌∷◌, Bool, true, false, not, ◌&&◌, Option, none, some, ltb, leb,
  ◌==◌, if◌then◌else◌, length, get_elem?,
}
use korthochain.Common.Bytes.{Bytes, bytes_eq}
use korthochain.Common.Outcome.{Result, ok, err}
use korthochain.Common.Action.{pure, raise, query, modify, ◌>>=◌, ◌>>◌}
use korthochain.Address.{Address, AddressError, decode}
use korthochain.Pool.Overflow.{PoolError, panicked, bad_signature}
use korthochain.Pool.{Chain, key_of}
use korthochain.Pool.Queue.{
  Entry, Received, nonce_of, Queue, QueueAction, received_of, find_received, time_of, entry_at,
}
use korthochain.Pool.Queue.Push.{remove, get_addr_and_nonce_by_hash}
use korthochain.Pool.Selection.{add, pool_cap}

-- An age of `3*timesub` seconds
abbrev pub max_age : ℕ
max_age = 300

-- `poolCap/3*2`
abbrev pub kept_size : ℕ
kept_size = 6666

-- `delete(p.q.timeBuffer, k)`
unfoldable pub drop_time : Bytes → ℕ → List (Bytes × ℕ × ℕ) → List (Bytes × ℕ × ℕ)
drop_time caller n [] = []
drop_time caller n ((c, m, t) ∷ rest) =
    let later = drop_time caller n rest in
    if bytes_eq c caller && (m == n) then later else (c, m, t) ∷ later

-- The last loop of `cacheOutSignedTransaction`, for at most so many turns.
unfoldable pub evict_over : ℕ → QueueAction (Unit {0})
unfolding remove
evict_over zero = pure tt
evict_over (suc turns) = do
  size ← query (λ (q : Queue). ok (length q.st_list))
  (if ltb kept_size size then remove 0 >> evict_over turns else pure tt)

abbrev pub index_within : ℕ → Option Received → Option ℕ
index_within size none = none
index_within size (some r) = if leb size r.idx then none else some r.idx

module _ (chain : Chain) where
  -- `findSignedTransactionIdx`
  unfoldable pub find_index : Address → ℕ → QueueAction (Option ℕ)
  unfolding key_of received_of find_received
  find_index addr n = do
    key ← query (λ _. key_of chain addr)
    query (λ (q : Queue).
        ok (index_within (length q.st_list) (find_received n (received_of key q.rst_buffer))))

  abbrev remove_at : Option ℕ → QueueAction (Unit {0})
  remove_at none = pure tt
  remove_at (some i) = remove i

  abbrev pub remove_named : ℕ → Result AddressError Address → QueueAction (Unit {0})
  remove_named n (err AddressError.panicked) = raise panicked
  remove_named n (err e) = pure tt
  remove_named n (ok addr) = find_index addr n >>= remove_at

  -- One turn of the loop over the times. The map gives the entries of `timeBuffer` in any order;
  -- here they come as they stand in the list, and an entry behind another of its key has no effect.
  abbrev pub evict_timed : ℕ → Bytes → ℕ → Option ℕ → QueueAction (Unit {0})
  evict_timed now caller n none = pure tt
  evict_timed now caller n (some time) = if ltb now (time + max_age) then pure tt else (do
    modify (λ (q : Queue). record q { time_buffer = drop_time caller n q.time_buffer })
    remove_named n (decode chain.network caller))

  unfoldable pub evict_old : ℕ → List (Bytes × ℕ × ℕ) → QueueAction (Unit {0})
  unfolding time_of decode find_index drop_time remove
  evict_old now [] = pure tt
  evict_old now ((caller, n, t) ∷ rest) = do
    time ← query (λ (q : Queue). ok (time_of caller n q.time_buffer))
    evict_timed now caller n time
    evict_old now rest

  -- `cacheOutSignedTransaction`
  unfoldable pub cache_out : ℕ → QueueAction (Unit {0})
  unfolding evict_old evict_over
  cache_out now = do
    times ← query (λ (q : Queue). ok q.time_buffer)
    evict_old now times
    size ← query (λ (q : Queue). ok (length q.st_list))
    evict_over size

  -- The loop of `FilterTransaction`. A caller has at most one transaction of a nonce in the queue.
  unfoldable pub filter_out : List Entry → QueueAction (Unit {0})
  unfolding received_of find_received remove
  filter_out [] = pure tt
  filter_out (e ∷ es) = do
    r ← query (λ (q : Queue). ok (find_received (nonce_of e) (received_of e.caller q.rst_buffer)))
    elim r [ none ↦ pure tt | some known ↦ remove known.idx ]
    filter_out es

  -- `FilterTransaction`
  unfoldable pub filter_transaction : ℕ → List Entry → QueueAction (Unit {0})
  unfolding filter_out cache_out
  filter_transaction now es = filter_out es >> cache_out now

  abbrev pub entry_found : Option ℕ → QueueAction (Option Entry)
  entry_found none = pure none
  entry_found (some i) = query (λ (q : Queue). ok (get_elem? q.st_list i))

  -- `FindSignedTransaction`
  unfoldable pub find_signed_transaction : Address → ℕ → QueueAction (Option Entry)
  unfolding find_index
  find_signed_transaction addr n = find_index addr n >>= entry_found

  abbrev pub with_hash : Bytes → Option Entry → Option Entry
  with_hash hash none = none
  with_hash hash (some e) = if bytes_eq e.hash hash then some e else none

  abbrev pub tx_named : Bytes → ℕ → Result AddressError Address → QueueAction (Option Entry)
  tx_named hash n (err AddressError.panicked) = raise panicked
  tx_named hash n (err e) = pure none
  tx_named hash n (ok addr) = do e ← find_signed_transaction addr n; pure (with_hash hash e)

  -- `GetTxByHash`; `none` stands for its errors.
  unfoldable pub get_tx_by_hash : Bytes → QueueAction (Option Entry)
  unfolding get_addr_and_nonce_by_hash decode find_signed_transaction
  get_tx_by_hash hash = do
    named ← query (λ (q : Queue). ok (get_addr_and_nonce_by_hash hash q))
    elim named [
      | none ↦ pure none
      | some known ↦ tx_named hash known.1 (decode chain.network known.0)
    ]

  -- An error that `AddList` puts into its list; a panic passes by.
  abbrev noted :
      PoolError
      → Result PoolError (List PoolError) × Queue
      → Result PoolError (List PoolError) × Queue
  noted e (ok es, q) = (ok (e ∷ es), q)
  noted e (err x, q) = (err x, q)

  abbrev listed :
      QueueAction (List PoolError)
      → Result PoolError (Unit {0}) × Queue
      → Result PoolError (List PoolError) × Queue
  listed rest (ok u, q) = rest q
  listed rest (err panicked, q) = (err panicked, q)
  listed rest (err e, q) = noted e (rest q)

  -- `AddList`, with what `VerifySign` finds of each.
  unfoldable pub add_list : ℕ → ℕ → List (Bool × Entry) → QueueAction (List PoolError)
  unfolding add
  add_list now second [] q = pure [] q
  add_list now second ((signed, e) ∷ es) q =
      let rest = add_list now second es in
      if signed then listed rest (add chain e now second q) else noted bad_signature (rest q)
