-- ===== src/Store.antt =====
-- pkg/storage/store: keys and values under a transaction of badger, which the store only calls,
-- and which is a parameter; with the maps of pkg/storage/store/bg/bg.go on top of it.
pub mod Lists
pub mod Deque
pub mod Indexes
pub mod Tests
use korthochain.Common.{
  ℕ, ◌≤◌, ◌≡◌, ◌≢◌, refl, ap, [], ◌∷◌, Bool, true, false, Option, none, some, length, if◌then◌else◌,
  inl, inr,
}
use korthochain.Common.Bytes.{Bytes, bytes_eq, bytes_eq_self}
use korthochain.Common.Outcome.{Result, ok, err, Result-cases}
use korthochain.Common.Action.{Action}
use korthochain.Codec.{e_map_key}

-- `NotExist`, `OutOfSize`, badger's own errors, and a slice out of range.
pub data StoreError : Type 0 where
  not_exist out_of_size refused panicked : StoreError

-- badger: the state of a transaction, reads of it, and the calls that change it.
pub record Kv (T : Type 0) : Type 0 where
  pub get : Bytes → T → Result StoreError Bytes
  pub set : Bytes → Bytes → Action T StoreError (Unit {0})
  pub delete : Bytes → Action T StoreError (Unit {0})

-- A key that badger accepts: it is not empty, not longer than 65000 bytes, and does not begin with
-- the `!` of badger's own keys.
abbrev pub IsKey : Bytes → Type 0
IsKey [] = ⊥
IsKey (x ∷ k) = (x ≢ 33) × (length (x ∷ k) ≤ 65000)

-- What badger does, within the limits on the size of a transaction: it accepts every key above, a
-- key holds what was last written to it, and a call that fails writes nothing.
pub record IsKv {T : Type 0} (kv : Kv T) : Type 0 where
  pub set-accepts : (k v : Bytes) (t : T) → IsKey k → (kv.set k v t).0 ≡ ok tt
  pub delete-accepts : (k : Bytes) (t : T) → IsKey k → (kv.delete k t).0 ≡ ok tt
  pub get-set :
      (k v : Bytes) (t : T) (j : Bytes)
      → (kv.set k v t).0 ≡ ok tt
      → kv.get j (kv.set k v t).1 ≡ (if bytes_eq k j then ok v else kv.get j t)
  pub get-delete :
      (k : Bytes) (t : T) (j : Bytes)
      → (kv.delete k t).0 ≡ ok tt
      → kv.get j (kv.delete k t).1 ≡ (if bytes_eq k j then err not_exist else kv.get j t)
  pub set-fails :
      (k v : Bytes) (t : T) {e : StoreError} → (kv.set k v t).0 ≡ err e → (kv.set k v t).1 ≡ t
  pub delete-fails :
      (k : Bytes) (t : T) {e : StoreError} → (kv.delete k t).0 ≡ err e → (kv.delete k t).1 ≡ t

module _ {T : Type 0} (kv : Kv T) where
  -- `mset`, `mget` and `mdel`
  unfoldable pub mset : Bytes → Bytes → Bytes → Action T StoreError (Unit {0})
  mset m k v = kv.set (e_map_key m k) v

  unfoldable pub mget : Bytes → Bytes → T → Result StoreError Bytes
  mget m k = kv.get (e_map_key m k)

  unfoldable pub mdel : Bytes → Bytes → Action T StoreError (Unit {0})
  mdel m k = kv.delete (e_map_key m k)

module _ {T : Type 0} (kv : Kv T) (laws : IsKv kv) where
  -- A write leaves every other key alone, whether it succeeds or fails.
  pub get-set_other :
      (k v : Bytes) (t : T) (j : Bytes)
      → bytes_eq k j ≡ false
      → kv.get j (kv.set k v t).1 ≡ kv.get j t
  get-set_other k v t j h = elim (Result-cases (kv.set k v t).0) [
    | inl (u, e) ↦ rw (laws.get-set k v t j e, h)
    | inr (x, e) ↦ rw (laws.set-fails k v t e)
  ]

  -- A write of an accepted key succeeds.
  pub set-run : (k v : Bytes) (t : T) → IsKey k → kv.set k v t ≡ (ok tt, (kv.set k v t).1)
  set-run k v t key = ap (λ r. (r, (kv.set k v t).1)) (laws.set-accepts k v t key)

  pub get-set_self : (k v : Bytes) (t : T) → IsKey k → kv.get k (kv.set k v t).1 ≡ ok v
  get-set_self k v t key = rw (laws.get-set k v t k (laws.set-accepts k v t key), bytes_eq_self k)
