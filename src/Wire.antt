-- ===== src/Wire.antt =====
-- The binary form of transactions and blocks: the MarshalCBOR and UnmarshalCBOR methods of
-- pkg/address, pkg/crypto, pkg/transaction and pkg/block. The headers are coded by the library
-- cbor-gen, which is a parameter; a reader is the list of the bytes that it has left.
pub mod Reads
pub mod Transactions
pub mod Blocks
pub mod RoundTrip
pub mod BlockRoundTrip
pub mod Tests
use korthochain.Common.{
  ℕ, ◌-◌, ◌<◌, ◌≡◌, List, [], ◌∷◌, ◌++◌, Option, none, some, take, drop, length, ltb, ◌==◌, not,
  if◌then◌else◌,
}
use korthochain.Common.Word.{IsU64}
use korthochain.Common.Bytes.{Bytes}
use korthochain.Common.Digits.{replicate}
use korthochain.Common.Outcome.{Result, ok, err}
use korthochain.Common.Action.{Action, pure, ◌>>=◌, ◌>>◌, raise_if}
use korthochain.Address.{AddressError}

-- cbor-gen: `WriteMajorTypeHeader`, `CborReadHeader` with what it leaves unread, and
-- `ByteArrayMaxLen`; and the length beyond which Go's `make` panics.
pub record Cbor : Type 0 where
  pub write_header : ℕ → ℕ → Bytes
  pub read_header : Bytes → Option (ℕ × ℕ × Bytes)
  pub byte_array_max : ℕ
  pub max_alloc : ℕ

-- A header that was written is read back, and the byte 130 is the header of an array of two.
pub record IsCbor (c : Cbor) : Type 0 where
  pub read-write :
      (major extra : ℕ) (rest : Bytes)
      → major < 8
      → IsU64 extra
      → c.read_header (c.write_header major extra ++ rest) ≡ some (major, extra, rest)
  pub read-pair : (rest : Bytes) → c.read_header (130 ∷ rest) ≡ some (4, 2, rest)

pub data WireError : Type 0 where
  bad_header wrong_type wrong_length too_large truncated empty unknown_signature nil_difficulty :
      WireError
  bad_address : AddressError → WireError
  panicked : WireError

abbrev pub Decoder : Type 0 → Type 0
Decoder A = Action Bytes WireError A

-- `MajUnsignedInt`, `MajByteString`, `MajArray`
abbrev pub maj_unsigned_int : ℕ
maj_unsigned_int = 0

abbrev pub maj_byte_string : ℕ
maj_byte_string = 2

abbrev pub maj_array : ℕ
maj_array = 4

-- `io.ReadFull` into a buffer of `n` bytes.
unfoldable pub read_full : ℕ → Decoder Bytes
read_full n s = if ltb (length s) n then (err truncated, s) else (ok (take n s), drop n s)

-- One call of `Read` into a zeroed buffer of `n` bytes: it takes what is there, and fails only
-- where nothing is left.
unfoldable pub read_some : ℕ → Decoder Bytes
read_some n s =
    if n == 0
    then (ok [], s)
    else (if length s == 0
        then (err truncated, s)
        else (ok (take n s ++ replicate (n - length s) 0), drop n s))

module _ (c : Cbor) where
  unfoldable pub read_header : Decoder (ℕ × ℕ)
  read_header s = elim (c.read_header s) [
    | none ↦ (err bad_header, s)
    | some found ↦ (ok (found.0, found.1), found.2)
  ]

  -- A header of the given major type; its value.
  unfoldable pub expect : ℕ → Decoder ℕ
  expect major = do found ← read_header; raise_if (not (found.0 == major)) wrong_type; pure found.1

  -- `make([]byte, n)`
  unfoldable pub make : ℕ → Decoder (Unit {0})
  make n = raise_if (ltb c.max_alloc n) panicked
