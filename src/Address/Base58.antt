-- ===== src/Address/Base58.antt =====
-- pkg/util/addrcodec: the base-58 text of a byte string, padded to a width.
use mathlib.Core.List.{reverse}
use korthochain.Common.{
  ℕ, ◌+◌, ◌-◌, ◌*◌, ◌/◌, [], ◌∷◌, ◌++◌, map, Option, none, some, ◌&&◌, length, get_elem?, ltb, leb,
  ◌==◌, if◌then◌else◌,
}
use korthochain.Common.Bytes.{Bytes, ascii}
use korthochain.Common.Digits.{replicate, digits_value, digits}

abbrev pub alphabet : Bytes
alphabet = ascii "123456789ABCDEFGHJKLMNPQRSTUVWXYZabcdefghijkmnopqrstuvwxyz"

-- `alphabet[d]`; every index the code uses is below 58.
unfoldable pub alphabet_at : ℕ → ℕ
alphabet_at d = elim (get_elem? alphabet d) [ none ↦ 0 | some c ↦ c ]

-- The table `b58`, by its runs: the digit of a character, and 255 for what is no digit.
unfoldable pub b58 : ℕ → ℕ
b58 c =
    if leb b'1' c && leb c b'9'
    then c - b'1'
    else if leb b'A' c && leb c b'H'
    then c - b'A' + 9
    else if leb b'J' c && leb c b'N'
    then c - b'J' + 17
    else if leb b'P' c && leb c b'Z'
    then c - b'P' + 22
    else if leb b'a' c && leb c b'k'
    then c - b'a' + 33
    else if leb b'm' c && leb c b'z'
    then c - b'm' + 44
    else 255

-- `EncodeAddr`: the digits, then '1's up to the width, then all of it reversed. `big.Int.SetBytes`
-- reads the bytes with the most significant first.
unfoldable pub encode_addr : Bytes → Bytes
encode_addr input =
    let x = digits_value 256 (reverse input) in
    let answer = map alphabet_at (digits 58 x) in
    reverse (answer ++ replicate (length input * 136 / 100 + 1 - length answer) b'1')

-- The loop of `DecodeAddr` over the text from its end: `j` is the weight of the next digit.
-- `none` is the early return.
unfoldable pub decode_loop : Bytes → ℕ → ℕ → Option ℕ
decode_loop [] j answer = some answer
decode_loop (c ∷ cs) j answer =
    let rest = decode_loop cs (j * 58) (answer + j * b58 c) in if b58 c == 255 then none else rest

-- `DecodeAddr`: 32 bytes, filled with zeros on the left. A character that is no digit gives the
-- empty byte string. `none` is a panic: a text that spells more than 32 bytes makes `numZeros`
-- negative, and the slice expression behind it fails.
unfoldable pub decode_addr : Bytes → Option Bytes
decode_addr b = elim (decode_loop (reverse b) 1 0) [
  | none ↦ some []
  | some answer ↦
      let tmpval = reverse (digits 256 answer) in
      if ltb 32 (length tmpval) then none else some (replicate (32 - length tmpval) 0 ++ tmpval)
]
