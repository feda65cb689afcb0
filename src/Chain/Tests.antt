-- ===== src/Chain/Tests.antt =====
-- Runs of `AddBlock` on a store that is a function, with the accounts of the ledger's tests.
use korthochain.Common.{
  false, ℕ, ◌+◌, ◌≡◌, ◌≢◌, ◌≤◌, refl, ap, [], ◌∷◌, arith, length, if◌then◌else◌,
}
use korthochain.Common.Bytes.{Bytes, bytes_eq}
use korthochain.Common.Digits.{replicate, fixed_digits, digits_value}
use korthochain.Common.Outcome.{ok, err}
use korthochain.Codec.{e_map_key, e64func, d64func}
use korthochain.Address.{new_common_addr, has_text}
use korthochain.Transaction.{FinishedTransaction, coin_base_transaction}
use korthochain.Ledger.{set_miner_fee, set_to_account, get_balance, common_addr}
use korthochain.Ledger.Tests.{Accounts, plain_env, start, payment, address}
use korthochain.Store.{IsKey, mset, not_exist}
use korthochain.Store.Tests.{Contents, table, table-IsKv}
use korthochain.Wire.Blocks.{Block, serialize, marshal_block, big_bytes}
use korthochain.Wire.BlockRoundTrip.{IsBlock}
use korthochain.Wire.Tests.{coding, coding-IsCbor, big_size, block}
use korthochain.Chain.{
  wrong_height, Machine, init_height, height_key, snap_root_key, root_key, get_hash,
  get_max_block_height, get_snap_root, get_block_by_height, get_block_by_hash, tip,
}
use korthochain.Chain.Apply.{
  Work, apply_all, apply_transaction, apply_coin_base, set_tx_by_addr_kv, transaction_hash,
}
use korthochain.Chain.AddBlock.{Node, fact_commit, add_block}
use korthochain.Chain.Frame.{IsDigest}
use korthochain.Chain.Laws.{IsCommit, add_block-root, add_block-read}
use korthochain.Chain.Uncles.{add_uncle_block, add_uncle_block-get_block_by_hash}
use korthochain.Chain.History.{Calls, calls_stack}

abbrev pub machine : Machine Contents Accounts
machine = record {
  kv = table;
  commit = λ t. ok t;
  env = plain_env;
  commit_state = λ s. (ok (replicate 32 7), s);
  commit_trie = λ h s. (ok tt, s);
  open_state = λ t root. ok start;
  bytes_to_hash = λ b. b;
  sha256 = λ b. replicate 32 6;
  marshal_index = λ height index. [];
  run_contract = λ b t tx index s. (ok (0, tx), s);
  evm_gas_limit = λ s. 0;
  cbor = coding;
}

digest : IsDigest machine.sha256
unfolding replicate
digest b = refl

pub commits : IsCommit machine
commits t d e j = cc

-- The chain is at the height before the first block.
abbrev pub at_init : Node Contents Accounts
at_init = record {
  db = λ j.
      if bytes_eq j height_key
      then ok (e64func init_height)
      else (if bytes_eq j snap_root_key then ok (replicate 32 5) else err not_exist);
  sdb = start;
}

abbrev coin_base : FinishedTransaction
coin_base = record (payment 7) {
  signed = record ((payment 7).signed) {
    transaction = record ((payment 7).signed.transaction) { kind = coin_base_transaction };
  };
}

abbrev of_height : ℕ → Block
of_height h = record block { height = h; transactions = coin_base ∷ []; miner = address 3 }

abbrev first : Block
first = of_height (init_height + 1)

abbrev stored : Block
stored = record first {
  snap_root = replicate 32 7;
  transactions = record coin_base { gas_used = 10 } ∷ [];
  gas_used = 10;
}

abbrev after : Node Contents Accounts
after = (add_block machine first at_init).1

first-size : length first.hash ≡ 32
unfolding replicate
first-size = refl

first-added : add_block machine first at_init ≡ (ok stored, after)
unfolding add_block bytes_eq d64func e64func replicate fixed_digits digits_value apply_all
    apply_transaction apply_coin_base set_tx_by_addr_kv set_miner_fee set_to_account has_text
    common_addr new_common_addr get_balance serialize marshal_block
first-added = refl

-- A block whose height is not the next one is refused.
abbrev late : Block
late = of_height (init_height + 5)

abbrev again : Node Contents Accounts
again = record { db = after.db; sdb = start }

late-refused : add_block machine late after ≡ (err wrong_height, again)
unfolding add_block bytes_eq d64func e64func replicate fixed_digits digits_value apply_all
    apply_transaction apply_coin_base set_tx_by_addr_kv set_miner_fee set_to_account has_text
    common_addr new_common_addr get_balance serialize marshal_block transaction_hash mset e_map_key
late-refused = refl

late-root : get_snap_root machine after.db ≡ ok (replicate 32 7)
unfolding get_snap_root add_block bytes_eq d64func e64func replicate fixed_digits digits_value
    apply_all apply_transaction apply_coin_base set_tx_by_addr_kv set_miner_fee set_to_account
    has_text common_addr new_common_addr get_balance serialize marshal_block
late-root = refl

add_block-root_example :
    (table.get snap_root_key after.db ≡ ok (replicate 32 7))
    × (table.get (root_key (init_height + 1)) after.db ≡ ok (replicate 32 7))
add_block-root_example =
    add_block-root machine table-IsKv digest commits first stored at_init after first-size
      first-added

stored-IsBlock : IsBlock coding stored
unfolding coding replicate
stored-IsBlock = record {
  height = omega arith;
  prev_hash = (omega arith, omega arith);
  hash = (omega arith, omega arith);
  transactions = (
    record {
      transaction = record {
        version = omega arith;
        from = (omega arith, omega arith, omega arith);
        to = (omega arith, omega arith, omega arith);
        amount = omega arith;
        nonce = omega arith;
        gas_limit = omega arith;
        gas_fee_cap = omega arith;
        gas_price = omega arith;
        input_allowed = omega arith;
        input_alloc = omega arith;
        input_fits = omega arith;
      };
      signature = (omega arith, omega arith);
      gas_used = omega arith;
      block_num = omega arith;
    },
    tt,
  );
  count = (omega arith, omega arith);
  root = (omega arith, omega arith);
  snap_root = (omega arith, omega arith);
  version = omega arith;
  timestamp = omega arith;
  used_time = omega arith;
  miner = (omega arith, omega arith, omega arith);
  nonce = omega arith;
  gas_limit = omega arith;
  gas_used = omega arith;
}

add_block-read_example :
    (get_block_by_height machine (init_height + 1) after.db ≡ ok stored)
    × (get_block_by_hash machine (replicate 32 4) after.db ≡ ok stored)
    × (tip machine after.db ≡ ok stored)
unfolding big_bytes coding
add_block-read_example =
    add_block-read machine table-IsKv digest commits first stored at_init after first-size
      first-added coding-IsCbor (omega arith) 70000 300 stored-IsBlock
      (omega (arith, big_size.0), omega (arith, big_size.0))
      (omega (arith, big_size.1), omega (arith, big_size.1)) refl refl

stored-IsKey : IsKey stored.hash
unfolding replicate
stored-IsKey = (λ e. omega (arith, e), omega arith)

add_uncle_block-get_block_by_hash_example :
    let (r, n) = add_uncle_block machine stored at_init in
    (r ≡ ok tt)
    × (get_block_by_hash machine stored.hash n.db ≡ ok stored)
    × ((j : Bytes)
        → bytes_eq stored.hash j ≡ false
        → machine.kv.get j n.db ≡ machine.kv.get j at_init.db)
    × (n.sdb ≡ at_init.sdb)
unfolding big_bytes coding
add_uncle_block-get_block_by_hash_example =
    add_uncle_block-get_block_by_hash machine table-IsKv commits stored at_init stored-IsKey
      (λ t. (t, refl)) coding-IsCbor 70000 300 stored-IsBlock
      (omega (arith, big_size.0), omega (arith, big_size.0))
      (omega (arith, big_size.1), omega (arith, big_size.1)) refl refl

pub at_init-height : get_max_block_height machine at_init.db ≡ ok init_height
unfolding get_max_block_height bytes_eq d64func e64func fixed_digits digits_value
at_init-height = refl

-- One block is accepted, and then one is refused.
abbrev two_calls : Calls machine at_init (first ∷ []) (again)
two_calls =
    Calls.refused late wrong_height (Calls.accepted first stored Calls.start first-size first-added)
      late-refused

calls_stack_example :
    (get_max_block_height machine after.db ≡ ok (init_height + 1))
    × ((get_hash machine (init_height + 1) after.db ≡ ok (replicate 32 4)) × Unit {0})
    × ((i : ℕ) → i ≤ init_height → get_hash machine i after.db ≡ get_hash machine i at_init.db)
calls_stack_example =
    calls_stack machine table-IsKv digest commits at_init (again) init_height (first ∷ []) two_calls
      at_init-height (omega arith)

-- The store holds a root that is not the state's.
abbrev kept_root : Bytes
kept_root = replicate 32 5

abbrev state_root : Bytes
state_root = replicate 32 7

abbrev moved : Work Contents Accounts
moved = record { txn = at_init.db; sdb = start }

moved-root : at_init.db snap_root_key ≡ ok kept_root
unfolding bytes_eq
moved-root = refl

moved-commit : fact_commit machine moved ≡ (ok state_root, moved)
unfolding fact_commit
moved-commit = refl

roots-differ : kept_root ≢ state_root
unfolding replicate
roots-differ e = omega (arith, ap {B = ℕ} (λ l. elim l [ [] ↦ 0 | x ∷ xs ↦ x ]) e)
