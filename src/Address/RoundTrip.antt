-- ===== src/Address/RoundTrip.antt =====
-- The text form of an address reads back as the address.
use mathlib.Core.List.{reverse, reverse-reverse, reverse-append, map-append}
use native.Mathlib.Nat.{pow-le-pow_right}
use native.Mathlib.Decide.{dec_lt}
use korthochain.Common.{
  reverse-map, ◌↔◌, ℕ, zero, suc, ◌+◌, ◌-◌, ◌*◌, ◌/◌, ◌^◌, ◌<◌, ◌≤◌, ◌≡◌, ◌≢◌, refl, sym, ◌∙◌, ap,
  List, [], ◌∷◌, ◌++◌, map, none, some, Bool, true, false, ◌&&◌, arith, length, length-append,
  length-reverse, length-map, All-reverse, ◌==◌, Bool-cases, inl, inr, All, take_of_length, le→ltb,
}
use korthochain.Common.Bytes.{Bytes, IsBytes, bytes_eq}
use korthochain.Common.Digits.{
  replicate, digits_value, digits, digits_value-digits, digits-All, digits-pad, digits_value-pad,
  fixed_digits-digits_value, reverse-replicate, map-replicate, digits_value-lt_pow, length-digits,
  length-replicate, All-append-replicate,
}
use korthochain.Common.Outcome.{ok}
use korthochain.Address.{
  Network, mainnet, testnet, protocol, unknown, ed25519, secp256k1, encode, decode, decode_body,
  parse_protocol, prefix_set, new_address,
}
use korthochain.Address.Hex.{hex_encode, hex_decode-hex_encode, length-hex_encode}
use korthochain.Address.Base58.{alphabet_at, b58, encode_addr, decode_loop, decode_addr}

-- Whether the table undoes the alphabet on every digit below a bound.
undoes_to : ℕ → Bool
undoes_to zero = true
undoes_to (suc bound) = undoes_to bound && (b58 (alphabet_at bound) == bound)

undone : (bound : ℕ) → undoes_to bound ≡ true → (d : ℕ) → d < bound → b58 (alphabet_at d) ≡ d
unfolding undoes_to
undone zero fine d h = absurd (omega arith)
undone (suc bound) fine d h = elim (Bool-cases (d == bound)) [
  | inl last ↦ ground arith
  | inr other ↦ undone bound (ground arith) d (ground arith)
]

alphabet_undone : undoes_to 58 ≡ true
unfolding undoes_to b58 alphabet_at
alphabet_undone = refl

-- The table undoes the alphabet.
b58-alphabet_at : (d : ℕ) → d < 58 → b58 (alphabet_at d) ≡ d
b58-alphabet_at d h = undone 58 alphabet_undone d h

decode_loop-alphabet :
    (ds : List ℕ) (j answer : ℕ)
    → All (λ d. d < 58) ds
    → decode_loop (map alphabet_at ds) j answer ≡ some (answer + j * digits_value 58 ds)
unfolding decode_loop digits_value
decode_loop-alphabet [] j answer h = ap some (omega arith)
decode_loop-alphabet (d ∷ ds) j answer h =
    let digit = b58-alphabet_at d h.0 in
    let proper : (d == 255) ≡ false = ground arith in
    rw (digit, proper)
      (decode_loop-alphabet ds (j * 58) (answer + j * d) h.1 ∙ ap some (omega arith))

-- The text of a byte string is its base-58 digits, padded, from the most significant.
encode_addr-digits :
    (input : Bytes)
    → (k : ℕ) × (encode_addr input
        ≡ reverse (map alphabet_at (digits 58 (digits_value 256 (reverse input)) ++ replicate k 0)))
unfolding encode_addr alphabet_at
encode_addr-digits input =
    let ds : List ℕ = digits 58 (digits_value 256 (reverse input)) in
    let k : ℕ = length input * 136 / 100 + 1 - length (map alphabet_at ds) in
    (
      k,
      ap reverse (
          ap (λ l. map alphabet_at ds ++ l) (sym (map-replicate alphabet_at k 0))
          ∙ sym (map-append alphabet_at ds (replicate k 0))),
    )

-- The number that a byte string spells, most significant byte first.
abbrev spelled : Bytes → ℕ
spelled input = digits_value 256 (reverse input)

spelled-lt : (input : Bytes) → IsBytes input → length input ≡ 32 → spelled input < 256 ^ 32
spelled-lt input h size =
    rw (length-reverse input ∙ size) at
      (digits_value-lt_pow 256 (reverse input) (All-reverse _ input h))

decode_loop-encode_addr :
    (input : Bytes) → decode_loop (reverse (encode_addr input)) 1 0 ≡ some (spelled input)
decode_loop-encode_addr input =
    let (k, text) = encode_addr-digits input in
    let ds : List ℕ = digits 58 (spelled input) in
    let proper =
      All-append-replicate 58 k ds (omega arith) (digits-All 58 (spelled input) (omega arith)) in
    rw (text, reverse-reverse (map alphabet_at (ds ++ replicate k 0)))
      (decode_loop-alphabet (ds ++ replicate k 0) 1 0 proper
        ∙ ap some (
            omega (
              arith,
              digits_value-pad 58 k ds,
              digits_value-digits 58 (spelled input) (omega arith),
            )))

-- Reversed and filled with zeros, the digits of what 32 bytes spell are those bytes.
bytes_of_spelled :
    (input : Bytes)
    → IsBytes input
    → length input ≡ 32
    → let tmpval = reverse (digits 256 (spelled input)) in
      replicate (32 - length tmpval) 0 ++ tmpval ≡ input
bytes_of_spelled input h size =
    let x : ℕ = spelled input in
    let same = fixed_digits-digits_value 256 (reverse input) (All-reverse _ input h) in
    let padded =
      digits-pad 256 32 x (omega arith) (spelled-lt input h size)
      ∙ (rw (length-reverse input ∙ size) at same) in
    let k : ℕ = 32 - length (digits 256 x) in
    rw length-reverse (
      ap (λ l. l ++ reverse (digits 256 x)) (sym (reverse-replicate k 0))
      ∙ sym (reverse-append (digits 256 x) (replicate k 0))
      ∙ ap reverse padded
      ∙ reverse-reverse input)

-- The base-58 text of any 32 bytes is read back as those bytes.
pub decode_addr-encode_addr :
    (input : Bytes)
    → IsBytes input
    → length input ≡ 32
    → decode_addr (encode_addr input) ≡ some input
unfolding decode_addr
decode_addr-encode_addr input h size =
    let short = length-digits 256 (spelled input) 32 (omega arith) (spelled-lt input h size) in
    rw (decode_loop-encode_addr input, decode_addr)
      (rw (le→ltb 32 (length (reverse (digits 256 (spelled input)))) (rw length-reverse short))
        (ap some (bytes_of_spelled input h size)))

-- A key of 32 bytes always takes 44 characters.
pub length-encode_addr :
    (input : Bytes) → IsBytes input → length input ≡ 32 → length (encode_addr input) ≡ 44
unfolding encode_addr
length-encode_addr input h size =
    let ds : List ℕ = digits 58 (spelled input) in
    let short : length ds ≤ 44 =
      length-digits 58 (spelled input) 44 (omega arith) (omega (arith, spelled-lt input h size)) in
    let k : ℕ = length input * 136 / 100 + 1 - length (map alphabet_at ds) in
    length-reverse (map alphabet_at ds ++ replicate k b'1')
    ∙ omega (
      arith,
      length-append (map alphabet_at ds) (replicate k b'1'),
      length-replicate {A = ℕ} k b'1',
      length-map alphabet_at ds,
    )

decode-prefix :
    (network : Network) (body : Bytes)
    → 41 ≤ length body
    → decode network (prefix_set network ++ body) ≡ decode_body body
unfolding decode prefix_set bytes_eq
decode-prefix mainnet body h = ground arith
decode-prefix testnet body h = ground arith

parse_protocol-ed25519 : (body : Bytes) → length body ≡ 44 → parse_protocol body ≡ ed25519
unfolding parse_protocol
parse_protocol-ed25519 [] h = ground arith
parse_protocol-ed25519 (c ∷ body) h = ground arith

parse_protocol-secp256k1 :
    (body : Bytes) → length body ≡ 40 → parse_protocol (b'0' ∷ body) ≡ secp256k1
unfolding parse_protocol
parse_protocol-secp256k1 body h = ground arith

decode_body-ed25519 :
    (p : Bytes)
    → IsBytes p
    → length p ≡ 32
    → decode_body (encode_addr p) ≡ ok (record { payload = p })
unfolding decode_body new_address
decode_body-ed25519 p h size = rw (
  parse_protocol-ed25519 (encode_addr p) (length-encode_addr p h size),
  decode_addr-encode_addr p h size,
  decode_body,
)

decode_body-secp256k1 :
    (p : Bytes)
    → IsBytes p
    → length p ≡ 20
    → decode_body (b'0' ∷ hex_encode p) ≡ ok (record { payload = 0 ∷ p })
unfolding decode_body new_address
decode_body-secp256k1 p h size = rw (
  parse_protocol-secp256k1 (hex_encode p) (omega (arith, length-hex_encode p)),
  hex_decode-hex_encode p h,
  take_of_length 20 p (replicate 20 0) size,
  decode_body,
)

abbrev ReadsBack : Network → Bytes → Type 0
ReadsBack network p =
    (text : Bytes) × (encode network (record { payload = p }) ≡ ok text)
    × (decode network text ≡ ok (record { payload = p }))

-- The three ways in which `Protocol` reads a payload that is not empty.
encode-payload :
    (network : Network) (b : ℕ) (rest : Bytes)
    → IsBytes (b ∷ rest)
    → protocol (record { payload = b ∷ rest }) ≢ unknown
    → ReadsBack network (b ∷ rest)
unfolding encode protocol bytes_eq
encode-payload network b rest h known = elim (Bool-cases ((b == 0) && (length (b ∷ rest) == 21))) [
  | inl secp ↦
      let zero_tag : b ≡ 0 = ground arith in
      let size : length rest ≡ 20 = ground arith in
      let long = length-hex_encode rest in
      (
        prefix_set network ++ (b'0' ∷ hex_encode rest),
        rw secp,
        rw zero_tag (
            decode-prefix network (b'0' ∷ hex_encode rest) (omega arith)
            ∙ decode_body-secp256k1 rest h.1 size),
      )
  | inr other ↦ elim (Bool-cases (length (b ∷ rest) == 32)) [
    | inl key ↦
        let size : length (b ∷ rest) ≡ 32 = ground arith in
        let long = length-encode_addr (b ∷ rest) h size in
        (
          prefix_set network ++ encode_addr (b ∷ rest),
          rw (other, key),
          decode-prefix network (encode_addr (b ∷ rest)) (omega arith)
              ∙ decode_body-ed25519 (b ∷ rest) h size,
        )
    | inr neither ↦ absurd (known (rw (other, neither)))
  ]
]

-- Every address of bytes whose protocol is known has a text, on either network, and the text
-- reads back as the address.
pub decode-encode :
    (network : Network) (p : Bytes)
    → IsBytes p
    → protocol (record { payload = p }) ≢ unknown
    → (text : Bytes) × (encode network (record { payload = p }) ≡ ok text)
      × (decode network text ≡ ok (record { payload = p }))
unfolding protocol
decode-encode network [] h known = absurd (known refl)
decode-encode network (b ∷ rest) h known = encode-payload network b rest h known

digits-long : (b n x : ℕ) → 1 < b → b ^ n ≤ x → n < length (digits b x)
digits-long b n x hb h =
    let below = digits_value-lt_pow b (digits b x) (digits-All b x (omega arith)) in
    let value = digits_value-digits b x hb in
    elim (dec_lt n (length (digits b x))) [
      | yes p ↦ p
      | no p ↦
          let grows =
            pow-le-pow_right {n = b} (omega arith) {i = length (digits b x)} {j = n}
              (omega arith) in
          absurd (omega arith)
    ]

-- A text of base-58 digits makes the decoder panic exactly where it spells 2 ^ 256 or more.
decode_addr-panics :
    (ds : List ℕ)
    → All (λ d. d < 58) ds
    → (decode_addr (map alphabet_at ds) ≡ none) ↔ (256 ^ 32 ≤ digits_value 58 (reverse ds))
unfolding decode_addr
decode_addr-panics ds h =
    let x : ℕ = digits_value 58 (reverse ds) in
    let read : decode_loop (reverse (map alphabet_at ds)) 1 0 ≡ some x =
      rw (reverse-map alphabet_at ds)
        (decode_loop-alphabet (reverse ds) 1 0 (All-reverse _ ds h) ∙ ap some (omega arith)) in
    rw (read, decode_addr)
      (ground (arith, length-digits 256 x 32, digits-long 256 32 x, length-reverse (digits 256 x)))
