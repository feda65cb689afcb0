-- ===== src/Codec/Laws.antt =====
-- Round trips of the encodings of miscellaneous.go, and what they refuse.
use mathlib.Core.List.{reverse, reverse-reverse, append_assoc}
use korthochain.Common.{
  ℕ, ◌%◌, ◌^◌, ◌<◌, ◌≡◌, ◌∙◌, ap, List, ◌++◌, arith, length, drop, length-append, take-append,
  drop-append, ◌==◌, le→ltb, ==_self, take_of_length, drop_of_length, append-injective,
  length-reverse, Bool-cases, inl, inr,
}
use korthochain.Common.Bytes.{Bytes, IsBytes, ascii}
use korthochain.Common.Digits.{
  digits_value, fixed_digits, length-fixed_digits, digits_value-fixed_digits,
  fixed_digits-digits_value,
}
use korthochain.Common.Outcome.{ok}
use korthochain.Codec.{
  put_le, put_be, get_le, get_be, e8func, d8func, e16func, d16func, e32func, d32func, e64func,
  d64func, eb16func, db16func, eb32func, db32func, eb64func, db64func, eslice, dslice, e_map_key,
}

pub length-put_le : (n a : ℕ) → length (put_le n a) ≡ n
unfolding put_le
length-put_le n a = length-fixed_digits 256 n a

pub get_le-put_le : (n a : ℕ) → a < 256 ^ n → get_le n (put_le n a) ≡ ok a
unfolding get_le put_le
get_le-put_le n a h =
    rw (length-fixed_digits 256 n a, ==_self n)
      (rw (digits_value-fixed_digits 256 n a (omega arith) h))

pub get_be-put_be : (n a : ℕ) → a < 256 ^ n → get_be n (put_be n a) ≡ ok a
unfolding get_be put_be
get_be-put_be n a h =
    let ds : List ℕ = fixed_digits 256 n a in
    let size : length (reverse ds) ≡ n = length-reverse ds ∙ length-fixed_digits 256 n a in
    rw (size, ==_self n, reverse-reverse ds)
      (rw (digits_value-fixed_digits 256 n a (omega arith) h))

-- Bytes that the decoder of any width accepts are the encoding of the number it returned.
pub put_le-get_le : (n a : ℕ) (b : Bytes) → IsBytes b → get_le n b ≡ ok a → put_le n a ≡ b
unfolding get_le put_le
put_le-get_le n a b h e = elim (Bool-cases (length b == n)) [
  | inl size ↦
      let same : length b ≡ n = ground arith in
      let value : digits_value 256 b ≡ a = ground arith in
      rw (← same, ← value) (fixed_digits-digits_value 256 b h)
  | inr size ↦ absurd (ground arith)
]

pub d32func-e32func : (a : ℕ) → a < 2 ^ 32 → d32func (e32func a) ≡ ok a
unfolding d32func e32func
d32func-e32func a h = get_le-put_le 4 a h

pub d64func-e64func : (a : ℕ) → a < 2 ^ 64 → d64func (e64func a) ≡ ok a
unfolding d64func e64func
d64func-e64func a h = get_le-put_le 8 a h

-- The round trips of every integer codec: decoding what was encoded gives the number back, for
-- every number of the codec's width.
pub codecs_round_trip :
    (a b c d : ℕ)
    → a < 2 ^ 8
    → b < 2 ^ 16
    → c < 2 ^ 32
    → d < 2 ^ 64
    → (d8func (e8func a) ≡ ok a)
      × ((d16func (e16func b) ≡ ok b) × (db16func (eb16func b) ≡ ok b))
      × ((d32func (e32func c) ≡ ok c) × (db32func (eb32func c) ≡ ok c))
      × ((d64func (e64func d) ≡ ok d) × (db64func (eb64func d) ≡ ok d))
unfolding d16func e16func db16func eb16func db32func eb32func db64func eb64func d8func e8func put_le
    fixed_digits
codecs_round_trip a b c d ha hb hc hd = (
  get_le-put_le 1 a ha,
  (get_le-put_le 2 b hb, get_be-put_be 2 b hb),
  (d32func-e32func c hc, get_be-put_be 4 c hc),
  (d64func-e64func d hd, get_be-put_be 8 d hd),
)

pub length-e32func : (a : ℕ) → length (e32func a) ≡ 4
unfolding e32func
length-e32func a = length-put_le 4 a

pub length-e64func : (a : ℕ) → length (e64func a) ≡ 8
unfolding e64func
length-e64func a = length-put_le 8 a

pub e32func-injective : (a b : ℕ) → a < 2 ^ 32 → b < 2 ^ 32 → e32func a ≡ e32func b → a ≡ b
e32func-injective a b ha hb e = cc (d32func-e32func a ha, d32func-e32func b hb, ap d32func e)

-- A slice that was encoded comes back with whatever followed it, where the two together are
-- shorter than 2 ^ 32.
pub dslice-eslice :
    (a rest : Bytes) → length (a ++ rest) < 2 ^ 32 → dslice (eslice a ++ rest) ≡ ok (a, rest)
unfolding dslice eslice
dslice-eslice a rest h =
    let size = length-append a rest in
    let small : length a % 2 ^ 32 ≡ length a = omega (arith, size) in
    let fits : length (a ++ rest) % 2 ^ 32 ≡ length (a ++ rest) = omega arith in
    let prefix : Bytes = e32func (length a) in
    let four : length prefix ≡ 4 = length-e32func (length a) in
    rw (small, append_assoc)
      (rw (
        le→ltb (length (prefix ++ (a ++ rest))) 4 (omega (arith, length-append prefix (a ++ rest))),
        take_of_length 4 prefix (a ++ rest) four,
        drop_of_length 4 prefix (a ++ rest) four,
        d32func-e32func (length a) (omega (arith, size)),
        fits,
        le→ltb (length (a ++ rest)) (length a) (omega (arith, size)),
        take-append a rest,
        drop-append a rest,
      ))

-- Two map entries with equal store keys have the same map name and the same key, where the names
-- are shorter than 2 ^ 32.
e_map_key-injective :
    (m k m' k' : Bytes)
    → length m < 2 ^ 32
    → length m' < 2 ^ 32
    → e_map_key m k ≡ e_map_key m' k'
    → (m ≡ m') × (k ≡ k')
unfolding e_map_key
e_map_key-injective m k m' k' h h' e =
    let head =
      append-injective (ascii "m" ++ e32func (length m % 2 ^ 32)) (m ++ (ascii "+" ++ k))
        (ascii "m" ++ e32func (length m' % 2 ^ 32)) (m' ++ (ascii "+" ++ k'))
        (omega (arith, length-e32func (length m % 2 ^ 32), length-e32func (length m' % 2 ^ 32)))
        e in
    let sizes : length m ≡ length m' = omega (
      arith,
      e32func-injective (length m % 2 ^ 32) (length m' % 2 ^ 32) (omega arith) (omega arith)
          (ap (drop 1) head.0),
    ) in
    let parts = append-injective m (ascii "+" ++ k) m' (ascii "+" ++ k') sizes head.1 in
    (parts.0, ap (drop 1) parts.1)
