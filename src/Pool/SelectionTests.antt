-- ===== src/Pool/SelectionTests.antt =====
-- Runs of the queue and of `Pending` on three transactions.
use korthochain.Common.{ℕ, ◌≡◌, ◌≢◌, ◌≤◌, ◌-◌, refl, [], ◌∷◌, ◌++◌, false, length, take, drop}
use korthochain.Common.Bytes.{bytes_eq}
use korthochain.Common.Digits.{replicate}
use korthochain.Common.Outcome.{ok}
use korthochain.Address.{
  decode, encode, prefix_set, hex_encode, hex_digit, mainnet, decode_body, parse_protocol,
  hex_decode, from_hex_char, new_address,
}
use korthochain.Pool.Overflow.{add_uint64_overflow, sub_uint64_overflow}
use korthochain.Pool.Figures.{after_transfer}
use korthochain.Pool.{
  Chain, key_of, find_trader, get_trader_info, load_trader, load_single, complete_trader,
  compare_nonce, transaction_pre_calculated, transfer_pre_calculated,
}
use korthochain.Pool.Queue.{Entry, Queue, Received, new_queue, received_of, find_received}
use korthochain.Pool.Queue.Push.{push}
use korthochain.Pool.Queue.Insert.{push-inserts}
use korthochain.Pool.Selection.{pending, pick_loop, judge, remove_all}
use korthochain.Pool.Selection.Nonces.{Follows, Starts}
use korthochain.Pool.Selection.Pending.{pending-Follows}
use korthochain.Pool.Eviction.{evict_old, cache_out}
use korthochain.Pool.Eviction.Limits.{cache_out_keeps}
use korthochain.Pool.Tests.{tx_of, key, keys_apart}
use korthochain.Ledger.Tests.{address}

-- Every account has 1000 and the nonce 5.
abbrev even_chain : Chain
even_chain = record {
  get_available_balance = λ a. ok 1000;
  get_all_freeze_balance = λ a. ok 0;
  get_nonce = λ a. ok 5;
  get_single_freeze_balance = λ a to. ok 0;
  network = mainnet;
}

abbrev entry : ℕ → Entry
entry n = record {
  st = record {
    transaction = record (tx_of 50 (address 2)) { nonce = n };
    signature = record { sig_type = 1; data_ = [] };
  };
  caller = key 1;
  hash = n ∷ [];
}

-- The nonce 9 comes too early.
abbrev waiting : Queue
waiting = record new_queue { st_list = entry 9 ∷ entry 6 ∷ entry 5 ∷ [] }

picks : pending even_chain waiting ≡ (ok (entry 5 ∷ entry 6 ∷ []), waiting)
unfolding pending pick_loop judge remove_all compare_nonce get_trader_info load_trader load_single
    complete_trader find_trader key_of transaction_pre_calculated transfer_pre_calculated
    after_transfer add_uint64_overflow sub_uint64_overflow encode bytes_eq hex_encode replicate
    prefix_set hex_digit
picks = refl

even_chain-Starts : Starts even_chain (λ k. 5)
even_chain-Starts a k n named read = cc read

entry_named : (n : ℕ) → key_of even_chain (entry n).st.transaction.from ≡ ok (key 1)
unfolding key_of encode bytes_eq hex_encode replicate prefix_set hex_digit
entry_named n = refl

receiver_named : (n : ℕ) → key_of even_chain (entry n).st.transaction.to ≡ ok (key 2)
unfolding key_of encode bytes_eq hex_encode replicate prefix_set hex_digit
receiver_named n = refl

keys_differ : bytes_eq (key 2) (key 1) ≡ false
unfolding bytes_eq hex_encode replicate hex_digit
keys_differ = refl

apart : (n : ℕ) → key_of even_chain (entry n).st.transaction.to ≢ ok (key 1)
apart n e = let same : key 2 ≡ key 1 = cc (receiver_named n, e) in keys_apart 2 1 keys_differ same

pending-Follows_example :
    Follows (λ k. 5) (entry 5 ∷ entry 6 ∷ []) × (length (entry 5 ∷ entry 6 ∷ []) ≤ 100)
pending-Follows_example =
    pending-Follows even_chain (λ k. 5) even_chain-Starts waiting waiting (entry 5 ∷ entry 6 ∷ [])
      ((entry_named 9, apart 9), ((entry_named 6, apart 6), ((entry_named 5, apart 5), tt))) picks

push-inserts_example :
    (k : ℕ) × (q' : Queue) × (push (entry 7) 1600000000 30 waiting ≡ (ok tt, q'))
    × (q'.st_list ≡ take k waiting.st_list ++ entry 7 ∷ drop k waiting.st_list)
unfolding received_of find_received
push-inserts_example = push-inserts (entry 7) 1600000000 30 waiting refl

-- The transaction of the nonce 5 is old, that of 6 is not.
abbrev aged : Queue
aged = record {
  st_list = entry 6 ∷ entry 5 ∷ [];
  rst_buffer = (key 1, received 5 1 ∷ received 6 0 ∷ []) ∷ [];
  time_buffer = (key 1, 6, 900) ∷ (key 1, 5, 100) ∷ [];
  hash_buffer = [];
}
  where
    received : ℕ → ℕ → Received
    received n i = record { nonce = n; idx = i; price = 50; timestamp = 1 }

abbrev without_old : Queue
without_old = (evict_old even_chain 1000 aged.time_buffer aged).1

old_out : evict_old even_chain 1000 aged.time_buffer aged ≡ (ok tt, without_old)
unfolding evict_old decode bytes_eq hex_encode replicate hex_digit prefix_set decode_body
    parse_protocol hex_decode from_hex_char new_address encode
old_out = refl

cache_out_keeps_example :
    (q' : Queue) × (cache_out even_chain 1000 aged ≡ (ok tt, q'))
    × (q'.st_list ≡ drop (length without_old.st_list - 6666) without_old.st_list)
cache_out_keeps_example = cache_out_keeps even_chain 1000 aged without_old old_out

one_left : without_old.st_list ≡ entry 6 ∷ []
unfolding evict_old decode bytes_eq hex_encode replicate hex_digit prefix_set decode_body
    parse_protocol hex_decode from_hex_char new_address encode
one_left = refl
