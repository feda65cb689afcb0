-- ===== src/Wire/Blocks.antt =====
-- pkg/block/types.go: blocks, and their MarshalCBOR and UnmarshalCBOR.
use mathlib.Core.List.{reverse}
use korthochain.Common.{ℕ, zero, suc, ◌*◌, List, [], ◌∷◌, ◌++◌, Option, none, some, length}
use korthochain.Common.Bytes.{Bytes}
use korthochain.Common.Digits.{digits, digits_value}
use korthochain.Common.Outcome.{Result, ok, err}
use korthochain.Common.Action.{pure, ◌>>=◌, ◌>>◌}
use korthochain.Address.{Address}
use korthochain.Transaction.{FinishedTransaction}
use korthochain.Wire.{
  Cbor, WireError, nil_difficulty, Decoder, maj_unsigned_int, maj_byte_string, read_some, expect,
  make,
}
use korthochain.Wire.Transactions.{
  marshal_address, unmarshal_address, marshal_finished, unmarshal_finished,
}

-- `Block`. A difficulty is a pointer to a `big.Int`, which may be nil.
pub record Block : Type 0 where
  pub height : ℕ
  pub prev_hash : Bytes
  pub hash : Bytes
  pub transactions : List FinishedTransaction
  pub root : Bytes
  pub snap_root : Bytes
  pub version : ℕ
  pub timestamp : ℕ
  pub used_time : ℕ
  pub miner : Address
  pub difficulty : Option ℕ
  pub global_difficulty : Option ℕ
  pub nonce : ℕ
  pub gas_limit : ℕ
  pub gas_used : ℕ

-- The bytes of a `big.Int`, most significant first, without leading zeros.
unfoldable pub big_bytes : ℕ → Bytes
big_bytes x = reverse (digits 256 x)

-- `SetBytes`
unfoldable pub big_of : Bytes → ℕ
big_of b = digits_value 256 (reverse b)

module _ (c : Cbor) where
  -- A field that is a byte string.
  unfoldable pub marshal_bytes : Bytes → Bytes
  marshal_bytes b = c.write_header maj_byte_string (length b) ++ b

  -- It is read by one call of `Read`, which may leave the end of the buffer at zero.
  unfoldable pub unmarshal_bytes : Decoder Bytes
  unmarshal_bytes = do val ← expect c maj_byte_string; make c val; read_some val

  unfoldable pub unmarshal_big : Decoder (Option ℕ)
  unmarshal_big = do bytes ← unmarshal_bytes; pure (some (big_of bytes))

  unfoldable pub marshal_all : List FinishedTransaction → Bytes
  marshal_all [] = []
  marshal_all (tx ∷ txs) = marshal_finished c tx ++ marshal_all txs

  unfoldable pub marshal_transactions : List FinishedTransaction → Bytes
  unfolding marshal_all
  marshal_transactions txs = c.write_header maj_unsigned_int (length txs) ++ marshal_all txs

  -- The loop over the number of transactions that the header gives.
  unfoldable pub unmarshal_all : ℕ → Decoder (List FinishedTransaction)
  unmarshal_all zero = pure []
  unmarshal_all (suc n) = do ft ← unmarshal_finished c; rest ← unmarshal_all n; pure (ft ∷ rest)

  -- The slice is made first, with eight bytes for a pointer to each transaction.
  unfoldable pub unmarshal_transactions : Decoder (List FinishedTransaction)
  unmarshal_transactions = do val ← expect c maj_unsigned_int; make c (8 * val); unmarshal_all val

  -- The end of `Block.MarshalCBOR`, from the difficulty on.
  unfoldable pub marshal_tail : Block → ℕ → ℕ → Bytes
  marshal_tail b difficulty global_difficulty =
      marshal_bytes (big_bytes difficulty)
      ++ (marshal_bytes (big_bytes global_difficulty)
          ++ (c.write_header maj_unsigned_int b.nonce
              ++ (c.write_header maj_unsigned_int b.gas_limit
                  ++ c.write_header maj_unsigned_int b.gas_used)))

  -- `Block.MarshalCBOR` on a block whose difficulties are given.
  unfoldable pub marshal_fields : Block → ℕ → ℕ → Bytes
  marshal_fields b difficulty global_difficulty =
      c.write_header maj_unsigned_int b.height
      ++ (marshal_bytes b.prev_hash
          ++ (marshal_bytes b.hash
              ++ (marshal_transactions b.transactions
                  ++ (marshal_bytes b.root
                      ++ (marshal_bytes b.snap_root
                          ++ (c.write_header maj_unsigned_int b.version
                              ++ (c.write_header maj_unsigned_int b.timestamp
                                  ++ (c.write_header maj_unsigned_int b.used_time
                                      ++ (marshal_address c b.miner
                                          ++ marshal_tail b difficulty global_difficulty)))))))))

  -- `Block.MarshalCBOR`: a nil difficulty is an error.
  unfoldable pub marshal_block : Block → Result WireError Bytes
  marshal_block b = elim b.difficulty [
    | none ↦ err nil_difficulty
    | some difficulty ↦ elim b.global_difficulty [
      | none ↦ err nil_difficulty
      | some global_difficulty ↦ ok (marshal_fields b difficulty global_difficulty)
    ]
  ]

  -- The end of `Block.UnmarshalCBOR`, from the difficulty on: the two difficulties, the nonce, the
  -- gas limit and the gas used.
  unfoldable pub unmarshal_proof_of_work : Decoder (Option ℕ × Option ℕ × ℕ × ℕ × ℕ)
  unmarshal_proof_of_work = do
    difficulty ← unmarshal_big
    global_difficulty ← unmarshal_big
    nonce ← expect c maj_unsigned_int
    gas_limit ← expect c maj_unsigned_int
    gas_used ← expect c maj_unsigned_int
    pure (difficulty, global_difficulty, nonce, gas_limit, gas_used)

  -- `Block.UnmarshalCBOR`
  unfoldable pub unmarshal_block : Decoder Block
  unmarshal_block = do
    height ← expect c maj_unsigned_int
    prev_hash ← unmarshal_bytes
    hash ← unmarshal_bytes
    transactions ← unmarshal_transactions
    root ← unmarshal_bytes
    snap_root ← unmarshal_bytes
    version ← expect c maj_unsigned_int
    timestamp ← expect c maj_unsigned_int
    used_time ← expect c maj_unsigned_int
    miner ← unmarshal_address c
    work ← unmarshal_proof_of_work
    pure (record {
      height = height;
      prev_hash = prev_hash;
      hash = hash;
      transactions = transactions;
      root = root;
      snap_root = snap_root;
      version = version;
      timestamp = timestamp;
      used_time = used_time;
      miner = miner;
      difficulty = work.0;
      global_difficulty = work.1;
      nonce = work.2;
      gas_limit = work.3;
      gas_used = work.4;
    })

  -- `Serialize`
  unfoldable pub serialize : Block → Result WireError Bytes
  serialize b = marshal_block b

  -- `Deserialize`: what follows the block is ignored.
  unfoldable pub deserialize : Bytes → Result WireError Block
  deserialize data_ = (unmarshal_block data_).0
