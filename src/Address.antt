-- ===== src/Address.antt =====
-- pkg/address/address.go and the base-58 codec of pkg/util/addrcodec/ED25519.go: addresses as
-- payloads of bytes, their text form on a network, and the account that a payload names.
mod Base58
mod Hex
pub mod RoundTrip
mod Tests
unfoldable pub use Base58.{alphabet, b58, encode_addr, decode_addr}
unfoldable pub use Hex.{hex_digit, from_hex_char, hex_encode, hex_decode}
use korthochain.Common.{
  ℕ, suc, List, [], ◌∷◌, ◌++◌, Bool, true, false, ◌&&◌, Option, none, some, length, take, drop, ltb,
  ◌==◌, if◌then◌else◌,
}
use korthochain.Common.Bytes.{Bytes, ascii, bytes_eq}
use korthochain.Common.Digits.{replicate}
use korthochain.Common.Outcome.{Result, ok, err, ◌>>=◌}

-- `crypto.SigType`; the other values play no part in addresses.
pub data SigType : Type 0 where
  secp256k1 ed25519 unknown : SigType

-- `NetWork`
pub data Network : Type 0 where
  mainnet testnet : Network

pub data AddressError : Type 0 where
  undef_address unknown_type unknown_protocol bad_length bad_network bad_hex bad_bytes :
      AddressError
  panicked : AddressError

-- `Address`: the string it wraps, as bytes.
pub record Address : Type 0 where
  pub payload : Bytes

abbrev pub address_size : ℕ
address_size = 44

abbrev pub secp_address_size : ℕ
secp_address_size = 44

abbrev pub ed25519_address_size : ℕ
ed25519_address_size = 47

abbrev pub ed25519_pub_key_size : ℕ
ed25519_pub_key_size = 32

abbrev pub secp256k1_payload_size : ℕ
secp256k1_payload_size = 21

-- `Undef`
abbrev pub undef : Address
undef = record { payload = [] }

-- `prefixSet`
unfoldable pub prefix_set : Network → Bytes
prefix_set mainnet = ascii "Kto"
prefix_set testnet = ascii "otK"

-- `newAddress`; an unknown protocol gives an error. For a
-- secp256k1 address a buffer of 21 bytes takes the tag 0 and as much of the payload as fits; the
-- rest stays 0.
unfoldable pub new_address : SigType → Bytes → Result AddressError Address
new_address ed25519 payload = ok (record { payload = payload })
new_address secp256k1 payload = ok (record { payload = 0 ∷ take 20 (payload ++ replicate 20 0) })
new_address unknown payload = err unknown_type

-- `Protocol`: told by the length, and the first byte.
protocol_of : Bytes → SigType
protocol_of [] = unknown
protocol_of (b ∷ rest) =
    if (b == 0) && (length (b ∷ rest) == secp256k1_payload_size)
    then secp256k1
    else (if length (b ∷ rest) == ed25519_pub_key_size then ed25519 else unknown)

unfoldable pub protocol : Address → SigType
unfolding protocol_of
protocol a = protocol_of a.payload

-- `encode`: the text of an address on a network.
unfoldable pub encode : Network → Address → Result AddressError Bytes
unfolding protocol_of
encode network a = if bytes_eq a.payload [] then ok [] else (elim (protocol_of a.payload) [
  | secp256k1 ↦ ok (prefix_set network ++ (ascii "0" ++ hex_encode (drop 1 a.payload)))
  | ed25519 ↦ ok (prefix_set network ++ encode_addr a.payload)
  | unknown ↦ err unknown_protocol
])

-- Whether `String` returns: it panics where the address has no text.
unfoldable pub has_text : Network → Address → Bool
unfolding encode
has_text network a = elim (encode network a) [ ok text ↦ true | err e ↦ false ]

-- `parseAddrStrProtocol`, on the text behind the prefix, which is not empty.
unfoldable pub parse_protocol : Bytes → SigType
parse_protocol [] = unknown
parse_protocol (c ∷ rest) =
    if (c == b'0') && (length (c ∷ rest) == 41)
    then secp256k1
    else (if length (c ∷ rest) == 44 then ed25519 else unknown)

-- The part of `decode` behind the test of the prefix: `body` is the text after the prefix.
unfoldable pub decode_body : Bytes → Result AddressError Address
decode_body body = elim (parse_protocol body) [
  | secp256k1 ↦ elim (hex_decode (drop 1 body)) [
    | none ↦ err bad_hex
    | some payload ↦ new_address secp256k1 payload
  ]
  | ed25519 ↦ elim (decode_addr body) [
    | none ↦ err panicked
    | some payload ↦ new_address ed25519 payload
  ]
  | unknown ↦ err unknown_type
]

-- `decode`: the address that a text stands for. It reads only texts of the current network.
unfoldable pub decode : Network → Bytes → Result AddressError Address
decode network str =
    if ltb (length str) address_size
    then err bad_length
    else (if bytes_eq (take 3 str) (prefix_set network)
        then decode_body (drop 3 str)
        else err bad_network)

-- `NewFromBytes`
unfoldable pub new_from_bytes : Bytes → Result AddressError Address
new_from_bytes addr =
    if length addr == 0
    then ok undef
    else (if ltb (length addr) secp256k1_payload_size
        then err bad_bytes
        else ok (record { payload = addr }))

-- `NewCommonAddr`: the account of an address. `sha1` is the digest of a text, twenty bytes long,
-- as `common.HexToAddress` reads its hexadecimal form back; `common.BytesToAddress` of the
-- twenty bytes behind the tag are those bytes.
unfoldable pub new_common_addr : (Bytes → Bytes) → Network → Address → Result AddressError Bytes
unfolding protocol_of
new_common_addr sha1 network a =
    if bytes_eq a.payload [] then err undef_address else (elim (protocol_of a.payload) [
      | ed25519 ↦ (encode network a >>= λ text. ok (sha1 text))
      | secp256k1 ↦ ok (drop 1 a.payload)
      | unknown ↦ err unknown_type
    ])
