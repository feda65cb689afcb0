-- ===== src/Wire/Tests.antt =====
-- A run of the round trips with a concrete header coding: the short form below 24, and the form
-- of eight bytes from there.
use korthochain.Common.{
  ℕ, ◌+◌, ◌*◌, ◌/◌, ◌%◌, ◌≡◌, refl, false, length-append, [], ◌∷◌, ◌++◌, Option, none, some, arith,
  take, drop, ltb, if◌then◌else◌, length, take_of_length, drop_of_length, Bool-cases, inl, inr,
}
use korthochain.Common.Bytes.{Bytes, ascii}
use korthochain.Common.Digits.{
  digits, replicate, digits_value, fixed_digits, length-fixed_digits, digits_value-fixed_digits,
}
use korthochain.Common.Outcome.{ok}
use korthochain.Address.{Address}
use korthochain.Transaction.{Transaction}
use korthochain.Wire.{Cbor, IsCbor}
use korthochain.Wire.Blocks.{Block, serialize, deserialize, big_bytes}
use korthochain.Wire.RoundTrip.{IsTransaction}
use korthochain.Wire.BlockRoundTrip.{IsBlock, deserialize-serialize}

unfoldable pub read : Bytes → Option (ℕ × ℕ × Bytes)
read [] = none
read (b ∷ s) =
    if ltb (b % 32) 24
    then some (b / 32, b % 32, s)
    else (if ltb (length s) 8 then none else some (b / 32, digits_value 256 (take 8 s), drop 8 s))

unfoldable pub write : ℕ → ℕ → Bytes
write major extra =
    if ltb extra 24 then (major * 32 + extra) ∷ [] else (major * 32 + 27) ∷ fixed_digits 256 8 extra

unfoldable pub coding : Cbor
unfolding read write
coding = record {
  write_header = write;
  read_header = read;
  byte_array_max = 2097152;
  max_alloc = 1073741824;
}

pub coding-IsCbor : IsCbor coding
unfolding coding read write
coding-IsCbor = record {
  read-write = λ major extra rest hm he. elim (Bool-cases (ltb extra 24)) [
    | inl short ↦ ground arith
    | inr long ↦
        let ds : Bytes = fixed_digits 256 8 extra in
        let size : length ds ≡ 8 = length-fixed_digits 256 8 extra in
        let value : digits_value 256 ds ≡ extra =
          digits_value-fixed_digits 256 8 extra (omega arith) (omega arith) in
        let enough : ltb (length (ds ++ rest)) 8 ≡ false = ground (arith, length-append ds rest) in
        let major_back : (major * 32 + 27) / 32 ≡ major = omega arith in
        let low : (major * 32 + 27) % 32 ≡ 27 = omega arith in
        rw
          (
            long,
            low,
            enough,
            major_back,
            take_of_length 8 ds rest size,
            drop_of_length 8 ds rest size,
            value,
          )
          refl
  ];
  read-pair = λ rest. refl;
}

abbrev pub party : ℕ → Address
party n = record { payload = 0 ∷ replicate 20 n }

abbrev sample : Transaction
sample = record {
  version = 1;
  kind = 0;
  from = party 1;
  to = party 2;
  amount = 1000000;
  nonce = 5;
  gas_limit = 10;
  gas_fee_cap = 30;
  gas_price = 2;
  input = ascii "memo";
}

pub sample-IsTransaction : IsTransaction coding sample
unfolding replicate coding
sample-IsTransaction = record {
  version = omega arith;
  from = (omega arith, omega arith, omega arith);
  to = (omega arith, omega arith, omega arith);
  amount = omega arith;
  nonce = omega arith;
  gas_limit = omega arith;
  gas_fee_cap = omega arith;
  gas_price = omega arith;
  input_allowed = omega arith;
  input_alloc = omega arith;
  input_fits = omega arith;
}

abbrev pub block : Block
block = record {
  height = 7;
  prev_hash = replicate 32 3;
  hash = replicate 32 4;
  transactions =
      record {
        signed = record {
          transaction = sample;
          signature = record { sig_type = 1; data_ = replicate 64 9 };
        };
        gas_used = 20;
        block_num = 7;
      }
      ∷ [];
  root = replicate 32 5;
  snap_root = [];
  version = 1;
  timestamp = 1600000000;
  used_time = 12;
  miner = party 8;
  difficulty = some 70000;
  global_difficulty = some 300;
  nonce = 99;
  gas_limit = 1000;
  gas_used = 20;
}

pub block-IsBlock : IsBlock coding block
unfolding replicate coding
block-IsBlock = record {
  height = omega arith;
  prev_hash = (omega arith, omega arith);
  hash = (omega arith, omega arith);
  transactions = (
    record {
      transaction = sample-IsTransaction;
      signature = (omega arith, omega arith);
      gas_used = omega arith;
      block_num = omega arith;
    },
    tt,
  );
  count = (omega arith, omega arith);
  root = (omega arith, omega arith);
  snap_root = (omega arith, omega arith);
  version = omega arith;
  timestamp = omega arith;
  used_time = omega arith;
  miner = (omega arith, omega arith, omega arith);
  nonce = omega arith;
  gas_limit = omega arith;
  gas_used = omega arith;
}

pub big_size : (length (big_bytes 70000) ≡ 3) × (length (big_bytes 300) ≡ 2)
unfolding big_bytes digits
big_size = (refl, refl)

deserialize-serialize_example :
    (bytes : Bytes) × (serialize coding block ≡ ok bytes)
    × (deserialize coding (bytes ++ ascii "rest") ≡ ok block)
unfolding big_bytes coding
deserialize-serialize_example =
    deserialize-serialize coding coding-IsCbor block 70000 300 (ascii "rest") block-IsBlock
      (omega (arith, big_size.0), omega (arith, big_size.0))
      (omega (arith, big_size.1), omega (arith, big_size.1)) refl refl
