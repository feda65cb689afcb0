-- ===== src/Wire/Transactions.antt =====
-- MarshalCBOR and UnmarshalCBOR of addresses, signatures and transactions.
use korthochain.Common.{ℕ, ◌+◌, [], ◌∷◌, ◌++◌, length, ltb, leb, ◌==◌, not, if◌then◌else◌}
use korthochain.Common.Bytes.{Bytes, bytes_eq}
use korthochain.Common.Outcome.{Result, ok, err}
use korthochain.Common.Action.{pure, query, ◌>>=◌, ◌>>◌, raise_if}
use korthochain.Address.{Address, AddressError, new_from_bytes}
use korthochain.Transaction.{Signature, SignedTransaction, Transaction, FinishedTransaction}
use korthochain.Wire.{
  Cbor, WireError, wrong_type, wrong_length, too_large, empty, unknown_signature, bad_address,
  truncated, Decoder, maj_unsigned_int, maj_byte_string, maj_array, read_full, read_header, expect,
  make,
}

-- `SignatureMaxLength`
abbrev pub signature_max_length : ℕ
signature_max_length = 130

abbrev pub of_address : Result AddressError Address → Result WireError Address
of_address (ok a) = ok a
of_address (err e) = err (bad_address e)

-- The tail of `Signature.UnmarshalCBOR`: the first byte is the type.
unfoldable pub signature_of : Bytes → Result WireError Signature
signature_of [] = err empty
signature_of (t ∷ data_) =
    if leb t 2 then ok (record { sig_type = t; data_ = data_ }) else err unknown_signature

module _ (c : Cbor) where
  -- `Address.MarshalCBOR`
  unfoldable pub marshal_address : Address → Bytes
  marshal_address a = c.write_header maj_byte_string (length a.payload) ++ a.payload

  -- `Address.UnmarshalCBOR`
  unfoldable pub unmarshal_address : Decoder Address
  unmarshal_address = do
    extra ← expect c maj_byte_string
    make c extra
    buf ← read_full extra
    addr ← query (λ _. of_address (new_from_bytes buf))
    raise_if (bytes_eq addr.payload []) empty
    pure addr

  -- `Signature.MarshalCBOR`
  unfoldable pub marshal_signature : Signature → Bytes
  marshal_signature s =
      c.write_header maj_byte_string (length s.data_ + 1) ++ (s.sig_type ∷ s.data_)

  -- `Signature.UnmarshalCBOR`
  unfoldable pub unmarshal_signature : Decoder Signature
  unmarshal_signature = do
    l ← expect c maj_byte_string
    raise_if (ltb (signature_max_length + 1) l) too_large
    raise_if (l == 0) empty
    buf ← read_full l
    s ← query (λ _. signature_of buf)
    pure s

  -- `Transaction.MarshalCBOR`
  unfoldable pub marshal_transaction : Transaction → Bytes
  marshal_transaction t =
      c.write_header maj_unsigned_int t.version
      ++ ((c.write_header maj_byte_string 1 ++ (t.kind ∷ []))
          ++ (marshal_address t.from
              ++ (marshal_address t.to
                  ++ (c.write_header maj_unsigned_int t.amount
                      ++ (c.write_header maj_unsigned_int t.nonce
                          ++ (c.write_header maj_unsigned_int t.gas_fee_cap
                              ++ (c.write_header maj_unsigned_int t.gas_limit
                                  ++ (c.write_header maj_unsigned_int t.gas_price
                                      ++ (c.write_header maj_byte_string (length t.input)
                                          ++ t.input)))))))))

  -- The one byte of the field `Type`.
  unfoldable pub unmarshal_type : Decoder ℕ
  unmarshal_type = do
    extra ← expect c maj_byte_string
    raise_if (not (extra == 1)) wrong_length
    type_bytes ← read_full 1
    query (λ _. elim type_bytes [ [] ↦ err truncated | b ∷ _ ↦ ok b ])

  -- The field `Input`. The bound is tested before the major type is.
  unfoldable pub unmarshal_input : Decoder Bytes
  unmarshal_input = do
    found ← read_header c
    raise_if (ltb c.byte_array_max found.1) too_large
    raise_if (not (found.0 == maj_byte_string)) wrong_type
    make c found.1
    read_full found.1

  -- `Transaction.UnmarshalCBOR`
  unfoldable pub unmarshal_transaction : Decoder Transaction
  unmarshal_transaction = do
    version ← expect c maj_unsigned_int
    kind ← unmarshal_type
    from ← unmarshal_address
    to ← unmarshal_address
    amount ← expect c maj_unsigned_int
    nonce ← expect c maj_unsigned_int
    gas_fee_cap ← expect c maj_unsigned_int
    gas_limit ← expect c maj_unsigned_int
    gas_price ← expect c maj_unsigned_int
    input ← unmarshal_input
    pure (record {
      version = version;
      kind = kind;
      from = from;
      to = to;
      amount = amount;
      nonce = nonce;
      gas_limit = gas_limit;
      gas_fee_cap = gas_fee_cap;
      gas_price = gas_price;
      input = input;
    })

  -- The header of an array of two, which the transactions with a signature start with.
  unfoldable pub expect_pair : Decoder (Unit {0})
  expect_pair = do extra ← expect c maj_array; raise_if (not (extra == 2)) wrong_length

  -- `SignedTransaction.MarshalCBOR`
  unfoldable pub marshal_signed : SignedTransaction → Bytes
  marshal_signed st =
      (130 ∷ []) ++ (marshal_transaction st.transaction ++ marshal_signature st.signature)

  -- `SignedTransaction.UnmarshalCBOR`
  unfoldable pub unmarshal_signed : Decoder SignedTransaction
  unmarshal_signed = do
    expect_pair
    transaction ← unmarshal_transaction
    signature ← unmarshal_signature
    pure (record { transaction = transaction; signature = signature })

  -- `FinishedTransaction.MarshalCBOR`
  unfoldable pub marshal_finished : FinishedTransaction → Bytes
  marshal_finished ft =
      (130 ∷ [])
      ++ (marshal_signed ft.signed
          ++ (c.write_header maj_unsigned_int ft.gas_used
              ++ c.write_header maj_unsigned_int ft.block_num))

  -- `FinishedTransaction.UnmarshalCBOR`
  unfoldable pub unmarshal_finished : Decoder FinishedTransaction
  unmarshal_finished = do
    expect_pair
    signed ← unmarshal_signed
    gas_used ← expect c maj_unsigned_int
    block_num ← expect c maj_unsigned_int
    pure (record { signed = signed; gas_used = gas_used; block_num = block_num })
