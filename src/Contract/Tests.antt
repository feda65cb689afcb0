-- ===== src/Contract/Tests.antt =====
-- Runs of the script codec, with a receiver that was used before, and of the token contracts.
use korthochain.Common.{
  List, ◌≢◌, take, false, none, some, if◌then◌else◌, ℕ, ◌≡◌, refl, [], ◌∷◌, ◌++◌, arith, length,
  inr,
}
use korthochain.Common.Bytes.{ascii, Bytes, bytes_eq, bytes_eq_self}
use korthochain.Common.Digits.{replicate, fixed_digits}
use korthochain.Common.Outcome.{ok, err}
use korthochain.Codec.{e32func, e64func, eslice, put_le}
use korthochain.Contract.Script.{
  ScriptArgument, Script, read_script, number, text, show_script, show_all, show_argument,
  show_value,
}
use korthochain.Address.{
  mainnet, decode, decode_body, parse_protocol, hex_decode, from_hex_char, new_common_addr,
  prefix_set, new_address,
}
use korthochain.Contract.Tokens.{
  TokenEnv, t_key, b_key, f_key, figure, insufficient, deal_transfer, deal_mint, c_key,
  text_argument, number_argument, receiver_of, find_entry,
}
use korthochain.Contract.TokenTransfers.{IsTokenTransfer, deal_transfer_lem, deal_transfer-refused}
use korthochain.Contract.TokenFreezes.{IsFreeze}
use korthochain.Contract.TokenMints.{IsMint, deal_mint_lem}
use korthochain.Contract.Scripts.{read_script-show_script, behind}

abbrev amount_of : ℕ → ScriptArgument
amount_of v = record { typ = 1; value = number v }

abbrev transfer_script : Script
transfer_script = record {
  name = ascii "transfer";
  args = record { typ = 2; value = text (ascii "Kto1") } ∷ amount_of 500 ∷ [];
}

-- A receiver with three arguments.
abbrev used : Script
used = record { name = ascii "mint"; args = amount_of 7 ∷ amount_of 8 ∷ amount_of 9 ∷ [] }

short_enough : length (show_script transfer_script ++ ascii "rest") ≡ 44
unfolding show_script show_all show_argument show_value e32func e64func eslice put_le fixed_digits
short_enough = refl

read_script-show_script_example :
    read_script used (show_script transfer_script ++ ascii "rest")
    ≡ ok (
      record { name = ascii "transfer"; args = transfer_script.args ++ behind 2 used.args },
      ascii "rest",
    )
read_script-show_script_example =
    read_script-show_script transfer_script used (ascii "rest")
      ((omega arith, (refl, refl)), ((omega arith, (refl, omega arith)), tt)) (omega arith)
      (omega arith) (omega (arith, short_enough))

abbrev token : Bytes
token = ascii "kto"

abbrev party : ℕ → Bytes
party n = replicate 20 n

-- The first party has 100 tokens, of which `frozen` are frozen, and the second has 50.
abbrev tokens : ℕ → TokenEnv
tokens frozen = record {
  lookup = λ k. if bytes_eq k token then some (party 9) else none;
  figure_of = λ k.
      if bytes_eq k (b_key token (party 1))
      then 100
      else if bytes_eq k (b_key token (party 2))
      then 50
      else if bytes_eq k (f_key token (party 1))
      then frozen
      else 0;
  sha1 = λ b. take 20 b;
  account_text = λ b. b;
  network = mainnet;
}

abbrev transfer_of : ℕ → List ScriptArgument
transfer_of amount =
    record { typ = 3; value = text token }
    ∷ amount_of amount
    ∷ record { typ = 2; value = text (ascii "Kto00202020202020202020202020202020202020202") }
    ∷ []

keys_apart : (k k' : Bytes) → bytes_eq k k' ≡ false → k ≢ k'
keys_apart k k' h e = absurd (cc (h, e, bytes_eq_self k'))

tokens-IsTokenTransfer :
    (frozen amount : ℕ)
    → IsTokenTransfer
        (tokens frozen)
        []
        (party 1)
        (transfer_of amount)
        token
        (party 2)
        amount
        frozen
        100
        50
unfolding text_argument number_argument receiver_of find_entry figure bytes_eq replicate decode
    decode_body parse_protocol hex_decode from_hex_char new_common_addr prefix_set new_address
tokens-IsTokenTransfer frozen amount = record {
  id_arg = refl;
  amount_arg = refl;
  to_text = ascii "Kto00202020202020202020202020202020202020202";
  to_arg = refl;
  receiver = refl;
  made = inr (party 9, refl, refl);
  apart = keys_apart (b_key token (party 2)) (b_key token (party 1)) refl;
  free_figure = refl;
  from_figure = refl;
  to_figure = refl;
}

deal_transfer_lem_example :
    ((deal_transfer (tokens 30) (party 1) (transfer_of 70) []).0 ≡ ok tt)
    × (figure
          (tokens 30)
          (b_key token (party 1))
          (deal_transfer (tokens 30) (party 1) (transfer_of 70) []).1
        ≡ ok 30)
    × (figure
          (tokens 30)
          (b_key token (party 2))
          (deal_transfer (tokens 30) (party 1) (transfer_of 70) []).1
        ≡ ok 120)
    × (figure
          (tokens 30)
          (b_key token (party 3))
          (deal_transfer (tokens 30) (party 1) (transfer_of 70) []).1
        ≡ figure (tokens 30) (b_key token (party 3)) [])
unfolding bytes_eq replicate
deal_transfer_lem_example =
    deal_transfer_lem (tokens 30) [] (party 1) (transfer_of 70) (tokens-IsTokenTransfer 30 70)
      (b_key token (party 3)) (keys_apart (b_key token (party 2)) (b_key token (party 3)) refl)
      (keys_apart (b_key token (party 1)) (b_key token (party 3)) refl) (omega arith) (omega arith)
      (omega arith)

deal_transfer-refused_example :
    deal_transfer (tokens 30) (party 1) (transfer_of 71) [] ≡ (err insufficient, [])
deal_transfer-refused_example =
    deal_transfer-refused (tokens 30) [] (party 1) (transfer_of 71) (tokens-IsTokenTransfer 30 71)
      (omega arith) (omega arith)

-- A token with a total of 1000, of which nothing has been minted.
abbrev mintable : TokenEnv
mintable = record (tokens 0) {
  figure_of = λ k. if bytes_eq k (t_key token (party 9)) then 1000 else 0;
}

abbrev mint_of : ℕ → List ScriptArgument
mint_of amount = record { typ = 3; value = text token } ∷ amount_of amount ∷ []

mintable-IsMint : (amount : ℕ) → IsMint mintable [] (party 9) (mint_of amount) token amount 1000 0 0
unfolding text_argument number_argument find_entry figure bytes_eq replicate
mintable-IsMint amount = record {
  id_arg = refl;
  amount_arg = refl;
  owned = refl;
  total_figure = refl;
  minted_figure = refl;
  balance_figure = refl;
}

abbrev freeze_of : ℕ → List ScriptArgument
freeze_of amount =
    record { typ = 3; value = text token }
    ∷ record { typ = 2; value = text (party 1) }
    ∷ amount_of amount
    ∷ []

tokens-IsFreeze :
    (amount : ℕ)
    → IsFreeze (tokens 30) [] (party 9) (freeze_of amount) token (party 1) amount 100 30
unfolding text_argument number_argument find_entry figure bytes_eq replicate
tokens-IsFreeze amount = record {
  id_arg = refl;
  addr_arg = refl;
  amount_arg = refl;
  owned = refl;
  balance_figure = refl;
  frozen_figure = refl;
}

deal_mint_lem_example :
    ((deal_mint mintable (party 9) (mint_of 40) []).0 ≡ ok tt)
    × (figure mintable (c_key token (party 9)) (deal_mint mintable (party 9) (mint_of 40) []).1
        ≡ ok 40)
    × (figure mintable (b_key token (party 9)) (deal_mint mintable (party 9) (mint_of 40) []).1
        ≡ ok 40)
deal_mint_lem_example =
    deal_mint_lem mintable [] (party 9) (mint_of 40) (mintable-IsMint 40) (omega arith)
      (omega arith) (omega arith) (omega arith)
