-- ===== src/Store/Lists.antt =====
-- The lists of pkg/storage/store/bg/bg.go. A list is kept under a key for its bounds, `start` and
-- `end`, and a key for each element; both bounds are int64, in two's complement.
use korthochain.Common.{
  ℕ, ◌^◌, [], ◌++◌, Bool, ◌||◌, ltb, not, ◌==◌, if◌then◌else◌, length, take, drop,
}
use korthochain.Common.Word.{◌+64◌, ◌-64◌}
use korthochain.Common.Bytes.{Bytes, ascii}
use korthochain.Common.Outcome.{Result, ok, err}
use korthochain.Common.Action.{Action, pure, raise, query, raise_if, ◌>>=◌, ◌>>◌}
use korthochain.Codec.{CodecError, e64func, d64func}
use korthochain.Store.{Kv, StoreError, out_of_size, panicked}

-- `eListMetaKey`
abbrev pub list_meta_key : Bytes → Bytes
list_meta_key k = ascii "l" ++ k

-- `eListKey`
abbrev pub list_key : Bytes → ℕ → Bytes
list_key k idx = (ascii "l" ++ k) ++ e64func idx

-- `eListMetaValue`
abbrev pub list_meta_value : ℕ → ℕ → Bytes
list_meta_value start end = e64func start ++ e64func end

-- The error of `D64func` is dropped, and its value is 0 then.
abbrev pub or_zero : Result CodecError ℕ → ℕ
or_zero (ok n) = n
or_zero (err e) = 0

-- `dListMetaValue`: shorter values are out of range.
unfoldable pub list_bounds : Bytes → Result StoreError (ℕ × ℕ)
list_bounds buf =
    if ltb (length buf) 16
    then err panicked
    else ok (or_zero (d64func (take 8 buf)), or_zero (d64func (take 8 (drop 8 buf))))

abbrev pub bounds_of : Result StoreError Bytes → Result StoreError (ℕ × ℕ)
bounds_of (ok v) = list_bounds v
bounds_of (err e) = err e

-- `<` on int64.
abbrev pub less_int64 : ℕ → ℕ → Bool
less_int64 a b = ltb (a +64 2 ^ 63) (b +64 2 ^ 63)

-- The place of an index: one that is negative counts from the end.
unfoldable pub place : ℕ → ℕ → ℕ → ℕ
place start end idx = if ltb idx (2 ^ 63) then idx +64 start else idx +64 end

module _ {T : Type 0} (kv : Kv T) where
  -- `listStartEnd`
  unfoldable pub list_start_end : Bytes → T → Result StoreError (ℕ × ℕ)
  list_start_end k t = bounds_of (kv.get (list_meta_key k) t)

  -- `lnew`
  unfoldable pub lnew : Bytes → Action T StoreError (Unit {0})
  lnew k = kv.set (list_meta_key k) (list_meta_value 0 0)

  -- The bounds for a push: after an error that is not a panic a new list is begun.
  unfoldable pub bounds_or_new : Bytes → Result StoreError (ℕ × ℕ) → Action T StoreError (ℕ × ℕ)
  unfolding lnew
  bounds_or_new k (ok bounds) = pure bounds
  bounds_or_new k (err panicked) = raise panicked
  bounds_or_new k (err e) = do lnew k; pure (0, 0)

  -- `llpush`
  unfoldable pub llpush : Bytes → Bytes → Action T StoreError ℕ
  unfolding list_start_end bounds_or_new
  llpush k v t =
      (do
        bounds ← bounds_or_new k (list_start_end k t)
        raise_if ((bounds.0 -64 1) == bounds.1) out_of_size
        kv.set (list_key k (bounds.0 -64 1)) v
        kv.set (list_meta_key k) (list_meta_value (bounds.0 -64 1) bounds.1)
        pure (bounds.1 -64 bounds.0 +64 1))
        t

  -- `lrpush`
  unfoldable pub lrpush : Bytes → Bytes → Action T StoreError ℕ
  unfolding list_start_end bounds_or_new
  lrpush k v t =
      (do
        bounds ← bounds_or_new k (list_start_end k t)
        raise_if (bounds.0 == (bounds.1 +64 1)) out_of_size
        kv.set (list_key k bounds.1) v
        kv.set (list_meta_key k) (list_meta_value bounds.0 (bounds.1 +64 1))
        pure (bounds.1 -64 bounds.0 +64 1))
        t

  -- `llpop`: the element's key stays.
  unfoldable pub llpop : Bytes → Action T StoreError Bytes
  unfolding list_start_end
  llpop k = do
    bounds ← query (list_start_end k)
    raise_if (bounds.0 == bounds.1) out_of_size
    v ← query (kv.get (list_key k bounds.0))
    kv.set (list_meta_key k) (list_meta_value (bounds.0 +64 1) bounds.1)
    pure v

  -- `lrpop`
  unfoldable pub lrpop : Bytes → Action T StoreError Bytes
  unfolding list_start_end
  lrpop k = do
    bounds ← query (list_start_end k)
    raise_if (bounds.0 == bounds.1) out_of_size
    v ← query (kv.get (list_key k (bounds.1 -64 1)))
    kv.set (list_meta_key k) (list_meta_value bounds.0 (bounds.1 -64 1))
    pure v

  -- `lset`: the start is added once more for the key.
  unfoldable pub lset : Bytes → ℕ → Bytes → Action T StoreError (Unit {0})
  unfolding list_start_end place
  lset k idx v = do
    bounds ← query (list_start_end k)
    let at = place bounds.0 bounds.1 idx
    raise_if (less_int64 at bounds.0 || not (less_int64 at bounds.1)) out_of_size
    kv.set (list_key k (at +64 bounds.0)) v

  -- `lindex`: out of range there is an empty value.
  unfoldable pub lindex : Bytes → ℕ → T → Result StoreError Bytes
  unfolding list_start_end place
  lindex k idx t = bounds_of_index (list_start_end k t)
    where
      bounds_of_index : Result StoreError (ℕ × ℕ) → Result StoreError Bytes
      bounds_of_index (ok bounds) =
          let at = place bounds.0 bounds.1 idx in
          if less_int64 at bounds.0 || not (less_int64 at bounds.1)
          then ok []
          else kv.get (list_key k at) t
      bounds_of_index (err e) = err e

  -- `llen`: an error counts as an empty list.
  unfoldable pub llen : Bytes → T → ℕ
  unfolding list_start_end
  llen k t = elim (list_start_end k t) [ ok bounds ↦ bounds.1 -64 bounds.0 | err e ↦ 0 ]
