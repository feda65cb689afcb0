-- ===== src/Chain.antt =====
-- pkg/blockchain/blockchain.go: the chain of blocks in the store. This file holds what the chain
-- stands on, its keys, and the reads of the store.
pub mod Apply
pub mod AddBlock
pub mod Frame
pub mod Build
pub mod Laws
pub mod History
pub mod Branch
pub mod Uncles
pub mod TempBlock
pub mod Delete
pub mod Back
pub mod BackTests
pub mod DeleteBlock
pub mod TakeOff
pub mod CheckBlock
pub mod Reorganize
pub mod Tests
mod SearchTests
use korthochain.Common.{ℕ, List, Bool, true, false, ◌++◌, ◌==◌, ltb, if◌then◌else◌}
use korthochain.Common.Bytes.{Bytes, ascii, bytes_eq}
use korthochain.Common.Digits.{replicate}
use korthochain.Common.Outcome.{Result, ok, err, ◌>>=◌, ◌>>◌, fail_if}
use korthochain.Common.Action.{Action}
use korthochain.Codec.{CodecError, e64func, d64func}
use korthochain.Store.{Kv, StoreError, not_exist}
use korthochain.Ledger.State.{Env, LedgerError}
use korthochain.Transaction.{FinishedTransaction}
use korthochain.Wire.{Cbor, WireError}
use korthochain.Wire.Blocks.{Block, deserialize}

pub data ChainError : Type 0 where
  of_store : StoreError → ChainError
  of_codec : CodecError → ChainError
  of_ledger : LedgerError → ChainError
  of_wire : WireError → ChainError
  state_failed contract_failed parameter_error : ChainError
  snap_root_changed snap_root_differs wrong_height below_init_height too_much_gas : ChainError

-- What the chain calls: badger with `commit` of a transaction; go-ethereum's StateDB with the
-- `Commit` of the state and of its trie, and `state.New`; `common.BytesToHash`; sha256; the JSON of
-- an index entry; and the bridge to the virtual machine, which reads the transaction of the store,
-- changes the state, and gives back the gas that it says is left and the transaction; the gas limit
-- of its configuration is read after it.
-- `T` is what a transaction of the store reads; the nodes of the trie, which go to the same store
-- under their hashes, belong to the state `S`.
pub record Machine (T S : Type 0) : Type 0 where
  pub kv : Kv T
  pub commit : T → Result StoreError T
  pub env : Env S
  pub commit_state : Action S ChainError Bytes
  pub commit_trie : Bytes → Action S ChainError (Unit {0})
  pub open_state : T → Bytes → Result ChainError S
  pub bytes_to_hash : Bytes → Bytes
  pub sha256 : Bytes → Bytes
  pub marshal_index : ℕ → ℕ → Bytes
  pub run_contract :
      Block → T → FinishedTransaction → ℕ → Action S ChainError (ℕ × FinishedTransaction)
  pub evm_gas_limit : S → ℕ
  pub cbor : Cbor

-- `InitHeight`
abbrev pub init_height : ℕ
init_height = 60350422

-- `SnapRootKey`, `HeightKey`, `SnapRootPrefix`, `HeightPrefix`
abbrev pub snap_root_key : Bytes
snap_root_key = ascii "snapRoot"

abbrev pub height_key : Bytes
height_key = ascii "height"

abbrev pub snap_root_prefix : Bytes
snap_root_prefix = ascii "blockSnap"

abbrev pub height_prefix : Bytes
height_prefix = ascii "blockheight"

-- `append(HeightPrefix, E64func(height)...)`, and the same for the roots.
abbrev pub hash_key : ℕ → Bytes
hash_key height = height_prefix ++ e64func height

abbrev pub root_key : ℕ → Bytes
root_key height = snap_root_prefix ++ e64func height

abbrev pub store_result : {A : Type 0} → Result StoreError A → Result ChainError A
store_result (ok a) = ok a
store_result (err e) = err (of_store e)

abbrev pub codec_result : {A : Type 0} → Result CodecError A → Result ChainError A
codec_result (ok a) = ok a
codec_result (err e) = err (of_codec e)

abbrev pub wire_result : {A : Type 0} → Result WireError A → Result ChainError A
wire_result (ok a) = ok a
wire_result (err e) = err (of_wire e)

-- The height that the store holds; a store without one is at 0.
abbrev pub stored_height : Result StoreError Bytes → Result ChainError ℕ
stored_height (ok height_bytes) = codec_result (d64func height_bytes)
stored_height (err not_exist) = ok 0
stored_height (err e) = err (of_store e)

-- The root that the store holds; a store without one has the hash of zeros.
unfoldable pub stored_root : (Bytes → Bytes) → Result StoreError Bytes → Result ChainError Bytes
unfolding replicate
stored_root bytes_to_hash (ok sr) = ok (bytes_to_hash sr)
stored_root bytes_to_hash (err not_exist) = ok (replicate 32 0)
stored_root bytes_to_hash (err e) = err (of_store e)

module _ {T S : Type 0} (m : Machine T S) where
  -- `getMaxBlockHeight`
  unfoldable pub get_max_block_height : T → Result ChainError ℕ
  get_max_block_height t = stored_height (m.kv.get height_key t)

  -- `getHash`
  unfoldable pub get_hash : ℕ → T → Result ChainError Bytes
  get_hash height t = store_result (m.kv.get (hash_key height) t)

  -- `getBlockByHash`
  unfoldable pub get_block_by_hash : Bytes → T → Result ChainError Block
  get_block_by_hash hash t = do
    block_data ← store_result (m.kv.get hash t)
    wire_result (deserialize m.cbor block_data)

  -- `getBlockByHeight`
  unfoldable pub get_block_by_height : ℕ → T → Result ChainError Block
  get_block_by_height height t = do
    fail_if (ltb height 1) parameter_error
    hash ← store_result (m.kv.get (hash_key height) t)
    block_data ← store_result (m.kv.get hash t)
    wire_result (deserialize m.cbor block_data)

  -- `Tip`
  unfoldable pub tip : T → Result ChainError Block
  unfolding get_max_block_height get_hash
  tip t = do
    h ← get_max_block_height t
    hash ← get_hash h t
    block_data ← store_result (m.kv.get hash t)
    wire_result (deserialize m.cbor block_data)

  -- `IsMainChainBlock`
  unfoldable pub is_main_chain_block : Bytes → T → Result ChainError Bool
  unfolding get_block_by_hash get_hash
  is_main_chain_block hash t = do
    block ← get_block_by_hash hash t
    main_chain_hash ← get_hash block.height t
    ok (bytes_eq hash main_chain_hash)

  -- `getSnapRoot`
  unfoldable pub get_snap_root : T → Result ChainError Bytes
  unfolding stored_root
  get_snap_root t = stored_root m.bytes_to_hash (m.kv.get snap_root_key t)
