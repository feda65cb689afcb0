-- ===== src/Pool/Queue.antt =====
-- pkg/txpool/queue.go, the state and its index: the ordered queue of the pool. The code computes
-- the text of a caller and of a hash at each use from a transaction that does not change; an entry
-- holds them beside it.
pub mod Push
pub mod Insert
use korthochain.Common.{
  ℕ, zero, suc, ◌+◌, ◌-◌, List, [], ◌∷◌, ◌++◌, Bool, true, false, not, ◌&&◌, Option, none, some,
  ltb, leb, ◌==◌, if◌then◌else◌, length, get_elem?, take, drop,
}
use korthochain.Common.Bytes.{Bytes, bytes_eq}
use korthochain.Common.Dict.{lookup_key, put_key, delete_key}
use korthochain.Common.Outcome.{Result, ok, err}
use korthochain.Common.Action.{Action, pure, raise, query, modify, ◌>>=◌, ◌>>◌}
use korthochain.Transaction.{SignedTransaction, gas_cap}
use korthochain.Pool.Overflow.{PoolError, panicked}

pub record Entry : Type 0 where
  pub st : SignedTransaction
  pub caller : Bytes
  pub hash : Bytes

abbrev pub nonce_of : Entry → ℕ
nonce_of e = e.st.transaction.nonce

abbrev pub price_of : Entry → ℕ
price_of e = gas_cap e.st.transaction

-- `receivedTransaction`, with its `option`
pub record Received : Type 0 where
  pub nonce : ℕ
  pub idx : ℕ
  pub price : ℕ
  pub timestamp : ℕ

-- `orderlyQueue`. A time stands under the caller's text and the nonce, and so does what a hash
-- names: the code joins these two into one text with `_` and `|`.
pub record Queue : Type 0 where
  pub st_list : List Entry
  pub rst_buffer : List (Bytes × List Received)
  pub time_buffer : List (Bytes × ℕ × ℕ)
  pub hash_buffer : List (Bytes × (Bytes × ℕ))

-- `newQueue`
abbrev pub new_queue : Queue
new_queue = record { st_list = []; rst_buffer = []; time_buffer = []; hash_buffer = [] }

-- The list under a key; a missing key has the empty list.
unfoldable pub received_of : Bytes → List (Bytes × List Received) → List Received
unfolding lookup_key
received_of caller buf = elim (lookup_key caller buf) [ none ↦ [] | some rs ↦ rs ]

unfoldable pub find_received : ℕ → List Received → Option Received
find_received n [] = none
find_received n (r ∷ rs) = let rest = find_received n rs in if r.nonce == n then some r else rest

-- The loop of `update` over the list of a caller: the first entry of the nonce changes.
unfoldable pub update_received : ℕ → (Received → Received) → List Received → List Received
update_received n f [] = []
update_received n f (r ∷ rs) =
    let rest = update_received n f rs in if r.nonce == n then f r ∷ rs else r ∷ rest

-- `update`
unfoldable pub update : Bytes → ℕ → (Received → Received) → Queue → Queue
unfolding received_of update_received
update caller n f q = record q {
  rst_buffer = put_key caller (update_received n f (received_of caller q.rst_buffer)) q.rst_buffer;
}

abbrev pub with_idx : ℕ → Received → Received
with_idx i r = record r { idx = i }

abbrev pub with_price : ℕ → ℕ → Received → Received
with_price price timestamp r = record r { price = price; timestamp = timestamp }

-- `addRstBuffer`
unfoldable pub add_rst_buffer : Bytes → Received → Queue → Queue
unfolding received_of
add_rst_buffer caller r q = record q {
  rst_buffer = put_key caller (received_of caller q.rst_buffer ++ r ∷ []) q.rst_buffer;
}

-- The loop of `rmRecivedTransaction`: the first entry of the index goes.
unfoldable pub without_idx : ℕ → List Received → List Received
without_idx i [] = []
without_idx i (r ∷ rs) = let rest = without_idx i rs in if r.idx == i then rs else r ∷ rest

abbrev pub store_received :
    Bytes → List Received → List (Bytes × List Received) → List (Bytes × List Received)
store_received caller [] buf = delete_key caller buf
store_received caller (r ∷ rs) buf = put_key caller (r ∷ rs) buf

-- `rmRecivedTransaction`
unfoldable pub rm_received : Bytes → ℕ → Queue → Queue
unfolding received_of without_idx delete_key
rm_received caller i q = record q {
  rst_buffer = store_received caller (without_idx i (received_of caller q.rst_buffer)) q.rst_buffer;
}

-- Whether one of the caller's transactions with a lower nonce stands below the index.
unfoldable pub lower_below : ℕ → ℕ → List Received → Bool
lower_below n i [] = false
lower_below n i (r ∷ rs) =
    let rest = lower_below n i rs in if ltb r.nonce n && ltb r.idx i then true else rest

-- `less`, with the entry `x` at the index `i`.
unfoldable pub less : Queue → ℕ → Entry → Entry → Bool
unfolding received_of lower_below
less q i x y =
    if bytes_eq y.caller x.caller
    then ltb (nonce_of x) (nonce_of y)
    else (if length (received_of y.caller q.rst_buffer) == 1
        then leb (price_of y) (price_of x)
        else (if lower_below (nonce_of y) i (received_of y.caller q.rst_buffer)
            then true
            else leb (price_of y) (price_of x)))

abbrev pub set_at {ℓ} : {A : Type ℓ} → List A → ℕ → A → List A
set_at [] i v = []
set_at (x ∷ xs) zero v = v ∷ xs
set_at (x ∷ xs) (suc i) v = x ∷ set_at xs i v

abbrev pub QueueAction : Type 0 → Type 0
QueueAction A = Action Queue PoolError A

abbrev pub found : Option Entry → Result PoolError Entry
found none = err panicked
found (some x) = ok x

-- `q.stList[i]`, which panics out of range.
unfoldable pub entry_at : ℕ → QueueAction Entry
entry_at i = query (λ q. found (get_elem? q.st_list i))

-- The new index of a transaction is kept, and the transaction written there.
unfoldable pub place : Entry → ℕ → QueueAction (Unit {0})
unfolding update
place x i q =
    let q' = update x.caller (nonce_of x) (with_idx i) q in
    if ltb i (length q.st_list)
    then (ok tt, record q' { st_list = set_at q.st_list i x })
    else (err panicked, q')

-- The loop of `up` from the index below the first argument: the index where it stops, plus 1.
unfoldable pub up_loop : ℕ → Entry → QueueAction ℕ
unfolding entry_at less place
up_loop zero value = pure 0
up_loop (suc i) value = do
  x ← entry_at i
  smaller ← query (λ q. ok (less q i x value))
  elim smaller [ false ↦ pure (suc i) | true ↦ (place x (suc i) >> up_loop i value) ]

-- `up`
unfoldable pub up : ℕ → QueueAction (Unit {0})
unfolding entry_at up_loop place
up j = do value ← entry_at j; i ← up_loop j value; place value i

-- The loop of `down` over so many indices from `i` on: the index where it stops.
unfoldable pub down_loop : ℕ → ℕ → Entry → QueueAction ℕ
unfolding entry_at less place
down_loop zero i value = pure i
down_loop (suc n) i value = do
  x ← entry_at i
  smaller ← query (λ q. ok (less q i x value))
  elim smaller [ true ↦ pure i | false ↦ (place x (i - 1) >> down_loop n (suc i) value) ]

-- `down`, to the last index `j`
unfoldable pub down : ℕ → ℕ → QueueAction (Unit {0})
unfolding entry_at down_loop place
down i j = do value ← entry_at i; k ← down_loop (j - i) (suc i) value; place value (k - 1)

-- The end of `push` for a nonce that is known: `down` from the index on, so many times.
unfoldable pub sink_from : ℕ → ℕ → QueueAction (Unit {0})
unfolding down
sink_from zero i = pure tt
sink_from (suc n) i = do
  size ← query (λ (q : Queue). ok (length q.st_list))
  down i (size - 1)
  sink_from n (suc i)

abbrev pub name_hash : Entry → Queue → Queue
name_hash e q = record q { hash_buffer = put_key e.hash (e.caller, nonce_of e) q.hash_buffer }

abbrev pub drop_hash : Entry → Queue → Queue
drop_hash e q = record q { hash_buffer = delete_key e.hash q.hash_buffer }

-- The time under a caller and a nonce
unfoldable pub time_of : Bytes → ℕ → List (Bytes × ℕ × ℕ) → Option ℕ
time_of caller n [] = none
time_of caller n ((c, m, t) ∷ rest) =
    let later = time_of caller n rest in if bytes_eq c caller && (m == n) then some t else later

abbrev pub stamp : Entry → ℕ → Queue → Queue
stamp e now q = record q { time_buffer = (e.caller, nonce_of e, now) ∷ q.time_buffer }
