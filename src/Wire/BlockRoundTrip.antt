-- ===== src/Wire/BlockRoundTrip.antt =====
-- A block that was serialized is deserialized to itself.
use mathlib.Core.List.{reverse-reverse}
use korthochain.Common.{
  ℕ, ◌*◌, ◌≤◌, ◌≡◌, refl, ◌∙◌, ap, List, [], ◌∷◌, ◌++◌, some, arith, length, All,
}
use korthochain.Common.Word.{IsU64}
use korthochain.Common.Bytes.{Bytes}
use korthochain.Common.Digits.{digits_value-digits}
use korthochain.Common.Outcome.{ok}
use korthochain.Transaction.{FinishedTransaction}
use korthochain.Wire.{Cbor, IsCbor, maj_byte_string, expect, make}
use korthochain.Wire.Transactions.{
  marshal_address, unmarshal_address, marshal_finished, unmarshal_finished,
}
use korthochain.Wire.Blocks.{
  Block, big_bytes, big_of, marshal_bytes, unmarshal_bytes, unmarshal_big, marshal_all,
  marshal_transactions, unmarshal_all, unmarshal_transactions, marshal_tail,
  unmarshal_proof_of_work, marshal_fields, marshal_block, unmarshal_block, serialize, deserialize,
}
use korthochain.Wire.Reads.{Reads, Reads->>=, Reads-last, Reads-read_some, Reads-expect, Reads-make}
use korthochain.Wire.RoundTrip.{IsAddress, IsFinished, uint, address_lem, finished_lem}

-- A byte string that the memory holds.
abbrev pub Fits : Cbor → Bytes → Type 0
Fits c b = (length b ≤ c.max_alloc) × IsU64 (length b)

-- A block whose numbers and lengths are in uint64 and in memory, and whose transactions are well
-- formed.
pub record IsBlock (c : Cbor) (b : Block) : Type 0 where
  pub height : IsU64 b.height
  pub prev_hash : Fits c b.prev_hash
  pub hash : Fits c b.hash
  pub transactions : All (IsFinished c) b.transactions
  pub count : (8 * length b.transactions ≤ c.max_alloc) × IsU64 (length b.transactions)
  pub root : Fits c b.root
  pub snap_root : Fits c b.snap_root
  pub version : IsU64 b.version
  pub timestamp : IsU64 b.timestamp
  pub used_time : IsU64 b.used_time
  pub miner : IsAddress c b.miner
  pub nonce : IsU64 b.nonce
  pub gas_limit : IsU64 b.gas_limit
  pub gas_used : IsU64 b.gas_used

module _ (c : Cbor) (laws : IsCbor c) where
  bytes_lem : (b : Bytes) → Fits c b → Reads (unmarshal_bytes c) (marshal_bytes c b) b
  unfolding unmarshal_bytes marshal_bytes
  bytes_lem b h =
      let n : ℕ = length b in
      Reads->>= (expect c maj_byte_string) _ (c.write_header maj_byte_string n) b
        (Reads-expect c laws maj_byte_string n (omega arith) h.1)
        (Reads->>= (make c n) _ [] b (Reads-make c laws n h.0) (Reads-read_some n b refl))

  big_of-big_bytes : (x : ℕ) → big_of (big_bytes x) ≡ x
  unfolding big_of big_bytes
  big_of-big_bytes x = rw reverse-reverse (digits_value-digits 256 x (omega arith))

  big_lem :
      (x : ℕ)
      → Fits c (big_bytes x)
      → Reads (unmarshal_big c) (marshal_bytes c (big_bytes x)) (some x)
  unfolding unmarshal_big
  big_lem x h rest =
      Reads-last (unmarshal_bytes c) (λ b. some (big_of b)) (marshal_bytes c (big_bytes x))
        (bytes_lem (big_bytes x) h) rest
      ∙ ap (λ y. (ok (some y), rest)) (big_of-big_bytes x)

  all_lem :
      (txs : List FinishedTransaction)
      → All (IsFinished c) txs
      → Reads (unmarshal_all c (length txs)) (marshal_all c txs) txs
  unfolding unmarshal_all marshal_all
  all_lem [] h rest = refl
  all_lem (tx ∷ txs) h rest =
      Reads->>= (unmarshal_finished c) _ (marshal_finished c tx) _ (finished_lem c laws tx h.0)
        (Reads-last (unmarshal_all c (length txs)) _ (marshal_all c txs) (all_lem txs h.1)) rest

  transactions_lem :
      (txs : List FinishedTransaction)
      → All (IsFinished c) txs
      → (8 * length txs ≤ c.max_alloc) × IsU64 (length txs)
      → Reads (unmarshal_transactions c) (marshal_transactions c txs) txs
  unfolding unmarshal_transactions marshal_transactions
  transactions_lem txs h count =
      Reads->>= (expect c 0) _ (c.write_header 0 (length txs)) _ (uint c laws (length txs) count.1)
        (Reads->>= (make c (8 * length txs)) _ [] _ (Reads-make c laws (8 * length txs) count.0)
          (all_lem txs h))

  work_lem :
      (b : Block) (d g : ℕ)
      → IsBlock c b
      → Fits c (big_bytes d)
      → Fits c (big_bytes g)
      → Reads
          (unmarshal_proof_of_work c)
          (marshal_tail c b d g)
          (some d, some g, b.nonce, b.gas_limit, b.gas_used)
  unfolding unmarshal_proof_of_work marshal_tail
  work_lem b d g h hd hg =
      Reads->>= (unmarshal_big c) _ (marshal_bytes c (big_bytes d)) _ (big_lem d hd) (
        Reads->>= (unmarshal_big c) _ (marshal_bytes c (big_bytes g)) _ (big_lem g hg) (
          Reads->>= (expect c 0) _ (c.write_header 0 b.nonce) _ (uint c laws b.nonce h.nonce) (
            Reads->>= (expect c 0) _ (c.write_header 0 b.gas_limit) _
              (uint c laws b.gas_limit h.gas_limit)
              (Reads-last (expect c 0) _ (c.write_header 0 b.gas_used)
                (uint c laws b.gas_used h.gas_used)))))

  fields_lem :
      (b : Block) (d g : ℕ)
      → IsBlock c b
      → Fits c (big_bytes d)
      → Fits c (big_bytes g)
      → b.difficulty ≡ some d
      → b.global_difficulty ≡ some g
      → Reads (unmarshal_block c) (marshal_fields c b d g) b
  unfolding unmarshal_block marshal_fields
  fields_lem b d g h hd hg ed eg rest =
      Reads->>= (expect c 0) _ (c.write_header 0 b.height) _ (uint c laws b.height h.height)
        (Reads->>= (unmarshal_bytes c) _ (marshal_bytes c b.prev_hash) _
          (bytes_lem b.prev_hash h.prev_hash)
          (Reads->>= (unmarshal_bytes c) _ (marshal_bytes c b.hash) _ (bytes_lem b.hash h.hash) (
            Reads->>= (unmarshal_transactions c) _ (marshal_transactions c b.transactions) _
              (transactions_lem b.transactions h.transactions h.count)
              (Reads->>= (unmarshal_bytes c) _ (marshal_bytes c b.root) _ (bytes_lem b.root h.root)
                (Reads->>= (unmarshal_bytes c) _ (marshal_bytes c b.snap_root) _
                  (bytes_lem b.snap_root h.snap_root)
                  (Reads->>= (expect c 0) _ (c.write_header 0 b.version) _
                    (uint c laws b.version h.version)
                    (Reads->>= (expect c 0) _ (c.write_header 0 b.timestamp) _
                      (uint c laws b.timestamp h.timestamp)
                      (Reads->>= (expect c 0) _ (c.write_header 0 b.used_time) _
                        (uint c laws b.used_time h.used_time)
                        (Reads->>= (unmarshal_address c) _ (marshal_address c b.miner) _
                          (address_lem c laws b.miner h.miner)
                          (Reads-last (unmarshal_proof_of_work c) _ (marshal_tail c b d g)
                            (work_lem b d g h hd hg)))))))))))
        rest
      ∙ rw (← ed, ← eg) refl

  -- A well-formed block whose two difficulties are given is serialized, and deserializing the
  -- bytes, whatever follows them, gives the block back.
  pub deserialize-serialize :
      (b : Block) (d g : ℕ) (rest : Bytes)
      → IsBlock c b
      → Fits c (big_bytes d)
      → Fits c (big_bytes g)
      → b.difficulty ≡ some d
      → b.global_difficulty ≡ some g
      → (bytes : Bytes) × (serialize c b ≡ ok bytes) × (deserialize c (bytes ++ rest) ≡ ok b)
  unfolding serialize deserialize marshal_block marshal_fields marshal_tail
  deserialize-serialize b d g rest h hd hg ed eg = (
    marshal_fields c b d g,
    rw (ed, eg) refl,
    ap (λ r. r.0) (fields_lem b d g h hd hg ed eg rest),
  )
