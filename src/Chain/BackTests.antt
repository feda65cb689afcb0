-- ===== src/Chain/BackTests.antt =====
-- Runs of `DeleteTempBlockTest`, `DeleteBlock` and `ReorganizeChain` that take one block off.
use korthochain.Common.{◌-◌, ◌≡◌, refl, ap, [], ◌∷◌, arith, if◌then◌else◌}
use korthochain.Common.Bytes.{Bytes, bytes_eq}
use korthochain.Common.Digits.{replicate, fixed_digits, digits_value}
use korthochain.Common.Outcome.{ok, err}
use korthochain.Codec.{e64func, d64func, e_map_key}
use korthochain.Address.{new_common_addr}
use korthochain.Ledger.{common_addr}
use korthochain.Ledger.Tests.{Accounts, start}
use korthochain.Store.{not_exist, mdel}
use korthochain.Store.Tests.{Contents, table-IsKv}
use korthochain.Wire.Blocks.{marshal_fields}
use korthochain.Wire.Tests.{coding, block}
use korthochain.Chain.{
  of_store, get_block_by_hash, height_key, hash_key, root_key, get_max_block_height,
  get_block_by_height, get_snap_root,
}
use korthochain.Chain.Apply.{Work, transaction_hash}
use korthochain.Chain.Back.{AtRoot, delete_temp_blocks-height}
use korthochain.Chain.Delete.{
  delete_temp_blocks, delete_down, delete_at, delete_transactions, delete_transaction,
  delete_tx_by_addr_kv, delete_token, step_back, reopen,
}
use korthochain.Chain.Reorganize.{reorganize_chain, reorganize_from, switch, connect, commit_branch}
use korthochain.Chain.Tests.{machine, commits}
use korthochain.Chain.AddBlock.{Node}
use korthochain.Chain.DeleteBlock.{take_off, take_off_turn, take_off_down, open_again, delete_block}
use korthochain.Chain.TakeOff.{IsOpened, delete_block-height}
use korthochain.Chain.SearchTests.{top, decoded}

-- The heights 6 and 7 hold the same block.
abbrev high : Contents
high = λ j.
    if bytes_eq j height_key
    then ok (e64func 7)
    else (if bytes_eq j top
        then ok (marshal_fields coding block 70000 300)
        else (if bytes_eq j (root_key (block.height - 1))
            then ok (replicate 32 5)
            else (if bytes_eq j (hash_key 7)
                then ok top
                else (if bytes_eq j (hash_key 6) then ok top else err not_exist))))

at_7 : get_block_by_height machine 7 high ≡ ok block
unfolding get_block_by_height bytes_eq e64func fixed_digits replicate
at_7 = rw decoded refl

at_6 : get_block_by_height machine 6 high ≡ ok block
unfolding get_block_by_height bytes_eq e64func fixed_digits replicate
at_6 = rw decoded refl

high-top : get_max_block_height machine high ≡ ok 7
unfolding get_max_block_height bytes_eq e64func d64func fixed_digits digits_value
high-top = refl

abbrev before : Work Contents Accounts
before = record { txn = high; sdb = start }

abbrev lowered : Work Contents Accounts
lowered = (delete_temp_blocks machine high 7 before).1

ended : (delete_temp_blocks machine high 7 before).0 ≡ ok tt
unfolding delete_temp_blocks delete_at delete_transactions delete_transaction delete_tx_by_addr_kv
    delete_token step_back reopen mdel common_addr new_common_addr bytes_eq e64func fixed_digits
    replicate transaction_hash e_map_key
ended = rw (high-top, at_7) refl

went_back : delete_temp_blocks machine high 7 before ≡ (ok tt, lowered)
went_back = ap (λ r. (r, lowered)) ended

delete_temp_blocks-height_example :
    (get_max_block_height machine lowered.txn ≡ ok 6) × AtRoot machine high lowered
delete_temp_blocks-height_example =
    delete_temp_blocks-height machine table-IsKv high 7 7 before lowered (omega arith) (omega arith)
      high-top went_back

abbrev node : Node Contents Accounts
node = record { db = high; sdb = start }

abbrev shorter : Node Contents Accounts
shorter = (delete_block machine 7 node).1

took_off : (delete_block machine 7 node).0 ≡ ok tt
unfolding delete_block take_off_down take_off_turn take_off open_again delete_transactions
    delete_transaction delete_tx_by_addr_kv delete_token mdel bytes_eq e64func fixed_digits
    replicate transaction_hash e_map_key get_snap_root
took_off = rw (high-top, at_7) refl

delete_block-height_example :
    (get_max_block_height machine shorter.db ≡ ok 6) × IsOpened machine shorter
delete_block-height_example =
    delete_block-height machine table-IsKv commits 7 7 node shorter (omega arith) (omega arith)
      (omega arith) high-top (ap (λ r. (r, shorter)) took_off)

-- The other branch names a block that is not in the store.
abbrev missing : Bytes
missing = replicate 32 9

abbrev stays : Node Contents Accounts
stays = (reorganize_chain machine (λ b db t. ok tt) (missing ∷ []) 7 node).1

not_found :
    (reorganize_chain machine (λ b db t. ok tt) (missing ∷ []) 7 node).0 ≡ err (of_store not_exist)
unfolding reorganize_chain reorganize_from switch connect commit_branch delete_temp_blocks
    delete_down delete_at delete_transactions delete_transaction delete_tx_by_addr_kv delete_token
    step_back reopen mdel common_addr new_common_addr bytes_eq e64func fixed_digits replicate
    transaction_hash e_map_key get_snap_root get_block_by_hash
not_found = rw (high-top, at_7) refl

no_root : get_snap_root machine high ≡ ok (replicate 32 0)
unfolding get_snap_root bytes_eq e64func fixed_digits replicate
no_root = refl
