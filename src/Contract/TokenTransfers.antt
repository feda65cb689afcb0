-- ===== src/Contract/TokenTransfers.antt =====
-- What a transfer of tokens does to the figures of its two parties.
use korthochain.Common.{
  ℕ, ◌+◌, ◌-◌, ◌^◌, ◌<◌, ◌≤◌, ◌≡◌, ◌≢◌, refl, sym, ◌∙◌, ap, List, [], ◌∷◌, true, false, none, some,
  arith, length, ltb, take, take_of_length, append-nil, le→ltb, ◌⊎◌, inl, inr,
}
use korthochain.Common.Word.{◌+64◌, ◌-64◌, IsU64}
use korthochain.Common.Bytes.{Bytes, bytes_eq_self, bytes_eq_ne}
use korthochain.Common.Digits.{digits_value-fixed_digits}
use korthochain.Common.Outcome.{ok, err}
use korthochain.Codec.{e64func, put_le}
use korthochain.Codec.Laws.{length-e64func}
use korthochain.Contract.Script.{ScriptArgument}
use korthochain.Contract.Tokens.{
  TokenEnv, insufficient, TokenMap, find_entry, b_key, read_u64, figure, settle_transfer,
  deal_transfer, text_argument, number_argument, receiver_of, a_key, f_key,
}

read_u64-e64func : (v : ℕ) → IsU64 v → read_u64 (e64func v) ≡ ok v
unfolding read_u64 e64func put_le
read_u64-e64func v h =
    let whole =
      ap (take 8) (sym (append-nil (e64func v)))
      ∙ take_of_length 8 (e64func v) [] (length-e64func v) in
    rw (le→ltb (length (e64func v)) 8 (omega (arith, length-e64func v)), whole)
      (ap ok (digits_value-fixed_digits 256 8 v (omega arith) h))

-- A token exists where the map has an entry for its owner, or where the store has one.
abbrev pub IsMade : TokenEnv → TokenMap → Bytes → Type 0
IsMade env mp id =
    ((owner : Bytes) × (find_entry mp (a_key id) ≡ some owner))
    ⊎ ((owner : Bytes) × (find_entry mp (a_key id) ≡ none) × (env.lookup (a_key id) ≡ some owner))

-- The arguments of a transfer of `amount` tokens that exist, between two figures of their own: what
-- the executor has frozen, what it has, and what the receiver has.
pub record IsTokenTransfer (env : TokenEnv) (mp : TokenMap) (executor : Bytes)
    (args : List ScriptArgument) (id to_addr : Bytes) (amount free from to : ℕ) : Type 0 where
  pub id_arg : text_argument args 0 ≡ ok id
  pub amount_arg : number_argument args 1 ≡ ok amount
  pub to_text : Bytes
  pub to_arg : text_argument args 2 ≡ ok to_text
  pub receiver : receiver_of env to_text ≡ ok to_addr
  pub made : IsMade env mp id
  pub apart : b_key id to_addr ≢ b_key id executor
  pub free_figure : figure env (f_key id executor) mp ≡ ok free
  pub from_figure : figure env (b_key id executor) mp ≡ ok from
  pub to_figure : figure env (b_key id to_addr) mp ≡ ok to

module _ (env : TokenEnv) (mp : TokenMap) where
  pub figure-put_self : (k : Bytes) (v : ℕ) → IsU64 v → figure env k ((k, e64func v) ∷ mp) ≡ ok v
  unfolding figure find_entry
  figure-put_self k v h = rw (bytes_eq_self k, figure) (read_u64-e64func v h)

  pub figure-put_ne : (k k' v : Bytes) → k ≢ k' → figure env k' ((k, v) ∷ mp) ≡ figure env k' mp
  unfolding figure find_entry
  figure-put_ne k k' v h = rw (bytes_eq_ne k k' h, figure) refl

module _ (env : TokenEnv) (mp : TokenMap) (executor : Bytes) (args : List ScriptArgument)
    {id to_addr : Bytes} {amount free from to : ℕ}
    (h : IsTokenTransfer env mp executor args id to_addr amount free from to) where
  deal_lem :
      deal_transfer env executor args mp
      ≡ settle_transfer env id executor to_addr amount free from mp
  unfolding deal_transfer
  deal_lem = elim h.made [
    | inl (owner, entered) ↦
        rw
          (
            h.id_arg, h.amount_arg, h.to_arg, h.receiver, entered, h.free_figure, h.from_figure,
            deal_transfer,
          )
          refl
    | inr (owner, unwritten, stored) ↦
        rw
          (
            h.id_arg, h.amount_arg, h.to_arg, h.receiver, unwritten, stored, h.free_figure,
            h.from_figure, deal_transfer,
          )
          refl
  ]

  -- The map after a transfer that passes the test.
  abbrev moved : TokenMap
  moved =
      (b_key id to_addr, e64func (to +64 amount))
      ∷ (b_key id executor, e64func (from -64 amount))
      ∷ mp

  passes : ltb from (amount +64 free) ≡ false → deal_transfer env executor args mp ≡ (ok tt, moved)
  unfolding settle_transfer
  passes enough =
      deal_lem
      ∙ rw
          (
            enough,
            h.to_figure,
            bytes_eq_ne (b_key id to_addr) (b_key id executor) h.apart,
            settle_transfer,
          )
          refl

  sender_figure : figure env (b_key id executor) moved ≡ ok (from -64 amount)
  sender_figure =
      figure-put_ne env ((b_key id executor, e64func (from -64 amount)) ∷ mp) (b_key id to_addr)
        (b_key id executor) (e64func (to +64 amount)) h.apart
      ∙ figure-put_self env mp (b_key id executor) (from -64 amount) (omega arith)

  receiver_figure : figure env (b_key id to_addr) moved ≡ ok (to +64 amount)
  receiver_figure =
      figure-put_self env ((b_key id executor, e64func (from -64 amount)) ∷ mp) (b_key id to_addr)
        (to +64 amount) (omega arith)

  -- A transfer of a token that exists, in the map or in the store, between different figures, of an
  -- amount that the executor has beyond what is frozen, with room at the receiver and figures in
  -- uint64, moves the amount between the two figures and leaves every other figure as it was.
  pub deal_transfer_lem :
      (key : Bytes)
      → b_key id to_addr ≢ key
      → b_key id executor ≢ key
      → IsU64 from
      → amount + free ≤ from
      → to + amount < 2 ^ 64
      → ((deal_transfer env executor args mp).0 ≡ ok tt)
        × (figure env (b_key id executor) (deal_transfer env executor args mp).1
            ≡ ok (from - amount))
        × (figure env (b_key id to_addr) (deal_transfer env executor args mp).1 ≡ ok (to + amount))
        × (figure env key (deal_transfer env executor args mp).1 ≡ figure env key mp)
  deal_transfer_lem key nt nf hf cover room = rw (passes (ground arith)) (
    refl,
    sender_figure ∙ ap ok (omega arith),
    receiver_figure ∙ ap ok (omega arith),
    figure-put_ne env _ (b_key id to_addr) key _ nt
        ∙ figure-put_ne env mp (b_key id executor) key _ nf,
  )

  -- In a transfer of a token that exists, between different figures in uint64, an amount that makes
  -- 2 ^ 64 with the frozen tokens passes the test whatever the executor has: it gains as many
  -- tokens as are frozen, and the receiver, who must have that many, loses them.
  deal_transfer_wraps :
      amount + free ≡ 2 ^ 64
      → IsU64 amount
      → from + free < 2 ^ 64
      → free ≤ to
      → IsU64 to
      → ((deal_transfer env executor args mp).0 ≡ ok tt)
        × (figure env (b_key id executor) (deal_transfer env executor args mp).1 ≡ ok (from + free))
        × (figure env (b_key id to_addr) (deal_transfer env executor args mp).1 ≡ ok (to - free))
  deal_transfer_wraps sum ha room enough ht =
      rw (passes (ground arith))
        (refl, sender_figure ∙ ap ok (omega arith), receiver_figure ∙ ap ok (omega arith))

  -- A transfer of a token that exists, in the map or in the store, between different figures,
  -- beyond what the executor has and has not frozen is refused, with the map as it was, where
  -- amount and frozen tokens together stay below 2 ^ 64.
  pub deal_transfer-refused :
      amount + free < 2 ^ 64
      → from < amount + free
      → deal_transfer env executor args mp ≡ (err insufficient, mp)
  unfolding settle_transfer
  deal_transfer-refused fits short =
      let less : ltb from (amount +64 free) ≡ true = ground arith in
      deal_lem ∙ rw (less, settle_transfer) refl
