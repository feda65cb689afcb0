-- ===== src/Wire/RoundTrip.antt =====
-- What is encoded is read back: addresses, signatures, transactions and blocks.
use korthochain.Common.{
  ℕ, ◌+◌, ◌≤◌, ◌≡◌, refl, ◌∙◌, [], ◌∷◌, ◌++◌, true, false, arith, length, ltb, leb, ◌==◌,
}
use korthochain.Common.Word.{IsU64}
use korthochain.Common.Bytes.{Bytes, bytes_eq}
use korthochain.Common.Outcome.{ok}
use korthochain.Common.Action.{>>=-ok}
use korthochain.Address.{Address, new_from_bytes}
use korthochain.Transaction.{Signature, SignedTransaction, Transaction, FinishedTransaction}
use korthochain.Wire.{
  Cbor, IsCbor, maj_unsigned_int, maj_byte_string, read_full, read_header, expect, make,
}
use korthochain.Wire.Transactions.{
  marshal_address, unmarshal_address, marshal_signature, unmarshal_signature, signature_of,
  marshal_transaction, unmarshal_transaction, unmarshal_type, unmarshal_input, marshal_signed,
  unmarshal_signed, marshal_finished, unmarshal_finished, expect_pair,
}
use korthochain.Wire.Reads.{
  Reads, Reads->>=, Reads-last, Reads-read_full, Reads-header, Reads-expect, Reads-make,
}

-- An address that `NewFromBytes` makes, and that fits the memory.
abbrev pub IsAddress : Cbor → Address → Type 0
IsAddress c a =
    (21 ≤ length a.payload) × (length a.payload ≤ c.max_alloc) × IsU64 (length a.payload)

-- A signature of a known type, of at most 130 bytes.
abbrev pub IsSignature : Signature → Type 0
IsSignature s = (s.sig_type ≤ 2) × (length s.data_ ≤ 130)

-- A transaction whose numbers fit machine words and whose input is not too long.
pub record IsTransaction (c : Cbor) (t : Transaction) : Type 0 where
  pub version : IsU64 t.version
  pub from : IsAddress c t.from
  pub to : IsAddress c t.to
  pub amount : IsU64 t.amount
  pub nonce : IsU64 t.nonce
  pub gas_limit : IsU64 t.gas_limit
  pub gas_fee_cap : IsU64 t.gas_fee_cap
  pub gas_price : IsU64 t.gas_price
  pub input_allowed : length t.input ≤ c.byte_array_max
  pub input_alloc : length t.input ≤ c.max_alloc
  pub input_fits : IsU64 (length t.input)

pub record IsFinished (c : Cbor) (ft : FinishedTransaction) : Type 0 where
  pub transaction : IsTransaction c ft.signed.transaction
  pub signature : IsSignature ft.signed.signature
  pub gas_used : IsU64 ft.gas_used
  pub block_num : IsU64 ft.block_num

module _ (c : Cbor) (laws : IsCbor c) where
  pub uint :
      (n : ℕ) → IsU64 n → Reads (expect c maj_unsigned_int) (c.write_header maj_unsigned_int n) n
  uint n h = Reads-expect c laws maj_unsigned_int n (omega arith) h

  address_made : (a : Address) → 21 ≤ length a.payload → new_from_bytes a.payload ≡ ok a
  unfolding new_from_bytes
  address_made a h = ground arith

  named : (p : Bytes) → 21 ≤ length p → bytes_eq p [] ≡ false
  unfolding bytes_eq
  named [] h = absurd (omega arith)
  named (x ∷ p) h = refl

  pub address_lem :
      (a : Address) → IsAddress c a → Reads (unmarshal_address c) (marshal_address c a) a
  unfolding unmarshal_address marshal_address
  address_lem a h =
      let n : ℕ = length a.payload in
      Reads->>= (expect c maj_byte_string) _ (c.write_header maj_byte_string n) a.payload
        (Reads-expect c laws maj_byte_string n (omega arith) h.2)
        (Reads->>= (make c n) _ [] a.payload (Reads-make c laws n h.1) (λ rest.
          >>=-ok (read_full n) _ _ (Reads-read_full n a.payload refl rest)
          ∙ rw (address_made a h.0, named a.payload h.0) refl))

  signature_lem :
      (s : Signature) → IsSignature s → Reads (unmarshal_signature c) (marshal_signature c s) s
  unfolding unmarshal_signature marshal_signature signature_of
  signature_lem s h =
      let n : ℕ = length s.data_ + 1 in
      let small : ltb 131 n ≡ false = ground arith in
      let there : (n == 0) ≡ false = ground arith in
      let known : leb s.sig_type 2 ≡ true = ground (arith, h.0) in
      Reads->>= (expect c maj_byte_string) _ (c.write_header maj_byte_string n)
        (s.sig_type ∷ s.data_)
        (Reads-expect c laws maj_byte_string n (omega arith) (omega (arith, h.1)))
        (λ rest.
          rw (small, there)
            (>>=-ok (read_full n) _ _ (Reads-read_full n (s.sig_type ∷ s.data_) (omega arith) rest)
              ∙ rw known refl))

  type_lem : (k : ℕ) → Reads (unmarshal_type c) (c.write_header maj_byte_string 1 ++ (k ∷ [])) k
  unfolding unmarshal_type
  type_lem k =
      Reads->>= (expect c maj_byte_string) _ (c.write_header maj_byte_string 1) (k ∷ [])
        (Reads-expect c laws maj_byte_string 1 (omega arith) (omega arith))
        (λ rest. >>=-ok (read_full 1) _ _ (Reads-read_full 1 (k ∷ []) refl rest))

  input_lem :
      (b : Bytes)
      → length b ≤ c.byte_array_max
      → length b ≤ c.max_alloc
      → IsU64 (length b)
      → Reads (unmarshal_input c) (c.write_header maj_byte_string (length b) ++ b) b
  unfolding unmarshal_input
  input_lem b allowed alloc fits =
      let n : ℕ = length b in
      let small : ltb c.byte_array_max n ≡ false = ground arith in
      Reads->>= (read_header c) _ (c.write_header maj_byte_string n) b
        (Reads-header c laws maj_byte_string n (omega arith) fits)
        (λ rest.
          rw small (
            Reads->>= (make c n) _ [] b (Reads-make c laws n alloc) (Reads-read_full n b refl)
              rest))

  pair_lem : Reads (expect_pair c) (130 ∷ []) tt
  unfolding expect_pair expect read_header
  pair_lem rest = rw (laws.read-pair rest, read_header) refl

  -- Reading what `Transaction.MarshalCBOR` wrote, whatever follows it, gives the transaction back
  -- and leaves what follows, where the numbers are in uint64, both addresses have at least 21 bytes,
  -- and the input is within the limit of the library.
  pub transaction_round_trip :
      (t : Transaction)
      → IsTransaction c t
      → Reads (unmarshal_transaction c) (marshal_transaction c t) t
  unfolding unmarshal_transaction marshal_transaction
  transaction_round_trip t h =
      let head : ℕ → Bytes = c.write_header maj_unsigned_int in
      let last : Bytes = c.write_header maj_byte_string (length t.input) ++ t.input in
      Reads->>= (expect c 0) _ (head t.version) _ (uint t.version h.version) (
        Reads->>= (unmarshal_type c) _ (c.write_header maj_byte_string 1 ++ (t.kind ∷ [])) _
          (type_lem t.kind)
          (Reads->>= (unmarshal_address c) _ (marshal_address c t.from) _
            (address_lem t.from h.from)
            (Reads->>= (unmarshal_address c) _ (marshal_address c t.to) _ (address_lem t.to h.to) (
              Reads->>= (expect c 0) _ (head t.amount) _ (uint t.amount h.amount) (
                Reads->>= (expect c 0) _ (head t.nonce) _ (uint t.nonce h.nonce) (
                  Reads->>= (expect c 0) _ (head t.gas_fee_cap) _ (uint t.gas_fee_cap h.gas_fee_cap)
                    (Reads->>= (expect c 0) _ (head t.gas_limit) _ (uint t.gas_limit h.gas_limit) (
                      Reads->>= (expect c 0) _ (head t.gas_price) _ (uint t.gas_price h.gas_price) (
                        Reads-last (unmarshal_input c) _ last
                          (input_lem t.input h.input_allowed h.input_alloc h.input_fits))))))))))

  signed_lem :
      (st : SignedTransaction)
      → IsTransaction c st.transaction
      → IsSignature st.signature
      → Reads (unmarshal_signed c) (marshal_signed c st) st
  unfolding unmarshal_signed marshal_signed
  signed_lem st h sig = Reads->>= (expect_pair c) _ (130 ∷ []) _ pair_lem (
      Reads->>= (unmarshal_transaction c) _ (marshal_transaction c st.transaction) _
        (transaction_round_trip st.transaction h)
        (Reads-last (unmarshal_signature c) _ (marshal_signature c st.signature)
          (signature_lem st.signature sig)))

  pub finished_lem :
      (ft : FinishedTransaction)
      → IsFinished c ft
      → Reads (unmarshal_finished c) (marshal_finished c ft) ft
  unfolding unmarshal_finished marshal_finished
  finished_lem ft h = Reads->>= (expect_pair c) _ (130 ∷ []) _ pair_lem (
      Reads->>= (unmarshal_signed c) _ (marshal_signed c ft.signed) _
        (signed_lem ft.signed h.transaction h.signature)
        (Reads->>= (expect c 0) _ (c.write_header 0 ft.gas_used) _ (uint ft.gas_used h.gas_used) (
          Reads-last (expect c 0) _ (c.write_header 0 ft.block_num)
            (uint ft.block_num h.block_num))))
