-- ===== src/Codec.antt =====
-- The byte encodings of pkg/storage/miscellaneous/miscellaneous.go: integers of fixed width in
-- both byte orders, length-prefixed slices and the keys of maps in the store. The same functions
-- stand once more at the end of pkg/contract/parser/operate.go.
pub mod Laws
mod Tests
use mathlib.Core.List.{reverse}
use korthochain.Common.{
  ℕ, ◌*◌, ◌%◌, ◌^◌, List, [], ◌∷◌, ◌++◌, length, take, drop, ltb, ◌==◌, if◌then◌else◌,
}
use korthochain.Common.Bytes.{Bytes, ascii}
use korthochain.Common.Digits.{digits_value, fixed_digits}
use korthochain.Common.Outcome.{Result, ok, err, ◌>>=◌}

-- `errors.New("...: Illegal slice length")`
pub data CodecError : Type 0 where
  illegal_length : CodecError

-- `binary.LittleEndian.PutUint16` and its kin, `n` bytes wide.
unfoldable pub put_le : ℕ → ℕ → Bytes
put_le n a = fixed_digits 256 n a

-- `binary.BigEndian.PutUint16` and its kin.
unfoldable pub put_be : ℕ → ℕ → Bytes
put_be n a = reverse (fixed_digits 256 n a)

-- A decoder of `n` bytes: it refuses any other length.
unfoldable pub get_le : ℕ → Bytes → Result CodecError ℕ
get_le n a = if length a == n then ok (digits_value 256 a) else err illegal_length

unfoldable pub get_be : ℕ → Bytes → Result CodecError ℕ
get_be n a = if length a == n then ok (digits_value 256 (reverse a)) else err illegal_length

unfoldable pub e8func : ℕ → Bytes
e8func a = a % 256 ∷ []

unfoldable pub d8func : Bytes → Result CodecError ℕ
unfolding get_le
d8func = get_le 1

unfoldable pub e16func : ℕ → Bytes
unfolding put_le
e16func = put_le 2

unfoldable pub d16func : Bytes → Result CodecError ℕ
unfolding get_le
d16func = get_le 2

unfoldable pub e32func : ℕ → Bytes
unfolding put_le
e32func = put_le 4

unfoldable pub d32func : Bytes → Result CodecError ℕ
unfolding get_le
d32func = get_le 4

unfoldable pub e64func : ℕ → Bytes
unfolding put_le
e64func = put_le 8

unfoldable pub d64func : Bytes → Result CodecError ℕ
unfolding get_le
d64func = get_le 8

unfoldable pub eb16func : ℕ → Bytes
unfolding put_be
eb16func = put_be 2

unfoldable pub db16func : Bytes → Result CodecError ℕ
unfolding get_be
db16func = get_be 2

unfoldable pub eb32func : ℕ → Bytes
unfolding put_be
eb32func = put_be 4

unfoldable pub db32func : Bytes → Result CodecError ℕ
unfolding get_be
db32func = get_be 4

unfoldable pub eb64func : ℕ → Bytes
unfolding put_be
eb64func = put_be 8

unfoldable pub db64func : Bytes → Result CodecError ℕ
unfolding get_be
db64func = get_be 8

-- `Dup`: a copy, equal to what it copies.
abbrev pub dup : Bytes → Bytes
dup a = a

-- slice length || slice; the length is converted to uint32
unfoldable pub eslice : Bytes → Bytes
eslice a = e32func (length a % 2 ^ 32) ++ a

-- The first part, a copy, and what follows it.
unfoldable pub dslice : Bytes → Result CodecError (Bytes × Bytes)
dslice data_ =
    if ltb (length data_) 4
    then err illegal_length
    else (d32func (take 4 data_) >>= λ n.
        let rest = drop 4 data_ in
        if ltb (length rest % 2 ^ 32) n
        then err illegal_length
        else ok (dup (take n rest), drop n rest))

-- `EMapKey`: the key under which the store keeps entry `k` of map `m`.
unfoldable pub e_map_key : Bytes → Bytes → Bytes
e_map_key m k = (ascii "m" ++ e32func (length m % 2 ^ 32)) ++ (m ++ (ascii "+" ++ k))
