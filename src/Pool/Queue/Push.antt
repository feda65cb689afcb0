-- ===== src/Pool/Queue/Push.antt =====
-- pkg/txpool/queue.go: what puts transactions into the queue, takes them out and finds them.
use korthochain.Common.{
  ℕ, zero, suc, ◌-◌, List, [], ◌∷◌, ◌++◌, Bool, true, false, Option, none, some, leb, if◌then◌else◌,
  length, take, drop,
}
use korthochain.Common.Bytes.{Bytes}
use korthochain.Common.Dict.{lookup_key}
use korthochain.Common.Outcome.{ok}
use korthochain.Common.Action.{pure, query, modify, ◌>>=◌, ◌>>◌}
use korthochain.Pool.Queue.{
  Entry, nonce_of, price_of, Received, Queue, QueueAction, received_of, find_received, update,
  with_idx, with_price, add_rst_buffer, rm_received, entry_at, up, down, sink_from, set_at,
  name_hash, drop_hash, time_of, stamp,
}

-- The part of `push` for a nonce that the caller has in the queue: a higher price replaces it.
unfoldable pub replace_entry : Entry → Received → ℕ → ℕ → QueueAction (Unit {0})
unfolding update entry_at sink_from
replace_entry e r now second = if leb (price_of e) r.price then pure tt else (do
  modify (update e.caller r.nonce (with_price (price_of e) second))
  old ← entry_at r.idx
  modify (drop_hash old)
  modify (λ (q : Queue). record q { st_list = set_at q.st_list r.idx e })
  modify (name_hash e)
  size ← query (λ (q : Queue). ok (length q.st_list))
  sink_from (size - r.idx) r.idx
  modify (stamp e now))

-- A time that is there stays.
unfoldable pub stamp_new : Entry → ℕ → Queue → Queue
unfolding time_of
stamp_new e now q = elim (time_of e.caller (nonce_of e) q.time_buffer) [
  | some t ↦ q
  | none ↦ stamp e now q
]

-- The writes of `push` for a new nonce before the entry goes up.
unfoldable pub append_entry : Entry → ℕ → ℕ → Queue → Queue
unfolding add_rst_buffer stamp_new
append_entry e now second q =
    let q1 = name_hash e (record q { st_list = q.st_list ++ e ∷ [] }) in
    stamp_new e now (
      add_rst_buffer e.caller
        (record {
          nonce = nonce_of e;
          idx = length q.st_list;
          price = price_of e;
          timestamp = second;
        })
        q1)

unfoldable pub insert_entry : Entry → ℕ → ℕ → QueueAction (Unit {0})
unfolding append_entry up
insert_entry e now second = do
  last ← query (λ (q : Queue). ok (length q.st_list))
  modify (append_entry e now second)
  up last

-- `push`, at the time `now` with its `second`
unfoldable pub push : Entry → ℕ → ℕ → QueueAction (Unit {0})
unfolding received_of find_received replace_entry insert_entry
push e now second = do
  known ← query (λ (q : Queue). ok (find_received (nonce_of e) (received_of e.caller q.rst_buffer)))
  elim known [ some r ↦ replace_entry e r now second | none ↦ insert_entry e now second ]

-- `pop`; an empty queue panics.
unfoldable pub pop : QueueAction Entry
unfolding entry_at rm_received
pop = do
  size ← query (λ (q : Queue). ok (length q.st_list))
  e ← entry_at (size - 1)
  modify (drop_hash e)
  modify (rm_received e.caller (size - 1))
  modify (λ (q : Queue). record q { st_list = take (size - 1) q.st_list })
  pure e

-- The indices of the entries behind a removed one, from the first argument on, fall by 1.
unfoldable pub renumber : ℕ → List Entry → Queue → Queue
unfolding update
renumber i [] q = q
renumber i (e ∷ es) q = renumber (suc i) es (update e.caller (nonce_of e) (with_idx (i - 1)) q)

-- The last loop of `remove`: `down` from so many indices below.
unfoldable pub settle_below : ℕ → QueueAction (Unit {0})
unfolding down
settle_below zero = pure tt
settle_below (suc i) = do
  size ← query (λ (q : Queue). ok (length q.st_list))
  down i (size - 1)
  settle_below i

-- `remove`
unfoldable pub remove : ℕ → QueueAction (Unit {0})
unfolding entry_at rm_received renumber settle_below
remove idx = do
  size ← query (λ (q : Queue). ok (length q.st_list))
  (if leb size idx then pure tt else (do
    e ← entry_at idx
    modify (rm_received e.caller idx)
    modify (drop_hash e)
    modify (λ (q : Queue). renumber (suc idx) (drop (suc idx) q.st_list) q)
    modify (λ (q : Queue). record q { st_list = take idx q.st_list ++ drop (suc idx) q.st_list })
    settle_below idx))

abbrev pub exists : {A : Type 0} → Option A → Bool
exists none = false
exists (some a) = true

-- `HashExist`
unfoldable pub hash_exist : Bytes → Queue → Bool
unfolding lookup_key
hash_exist hash q = exists (lookup_key hash q.hash_buffer)

-- `getAddrAndNonceByHash`
unfoldable pub get_addr_and_nonce_by_hash : Bytes → Queue → Option (Bytes × ℕ)
unfolding lookup_key
get_addr_and_nonce_by_hash hash q = lookup_key hash q.hash_buffer

-- `getIndex`
unfoldable pub get_index : Bytes → ℕ → Queue → Option Received
unfolding received_of find_received
get_index caller n q = find_received n (received_of caller q.rst_buffer)
