-- ===== src/Contract/TokenMints.antt =====
-- What minting does to the figures of a token's owner.
use korthochain.Common.{
  ℕ, ◌+◌, ◌-◌, ◌^◌, ◌<◌, ◌≤◌, ◌≡◌, ◌≢◌, refl, ◌∙◌, ap, List, [], ◌∷◌, true, false, some, arith,
}
use korthochain.Common.Word.{◌+64◌, ◌-64◌, IsU64}
use korthochain.Common.Bytes.{Bytes, bytes_eq_self}
use korthochain.Common.Outcome.{ok, err}
use korthochain.Codec.{e64func}
use korthochain.Contract.Script.{ScriptArgument}
use korthochain.Contract.Tokens.{
  TokenEnv, overflow, TokenMap, a_key, b_key, c_key, t_key, figure, check_owner, deal_mint,
  int64_less, text_argument, number_argument,
}
use korthochain.Contract.TokenTransfers.{figure-put_self, figure-put_ne}

-- The arguments of a mint by the owner of a token: the total, what has been minted, and what the
-- owner has.
pub record IsMint (env : TokenEnv) (mp : TokenMap) (executor : Bytes) (args : List ScriptArgument)
    (id : Bytes) (amount total minted balance : ℕ) : Type 0 where
  pub id_arg : text_argument args 0 ≡ ok id
  pub amount_arg : number_argument args 1 ≡ ok amount
  pub owned : env.lookup (a_key id) ≡ some executor
  pub total_figure : figure env (t_key id executor) mp ≡ ok total
  pub minted_figure : figure env (c_key id executor) mp ≡ ok minted
  pub balance_figure : figure env (b_key id executor) mp ≡ ok balance

first : Bytes → ℕ
first [] = 0
first (x ∷ xs) = x

module _ (env : TokenEnv) (mp : TokenMap) (executor : Bytes) (args : List ScriptArgument)
    {id : Bytes} {amount total minted balance : ℕ}
    (h : IsMint env mp executor args id amount total minted balance) where
  c≢b : c_key id executor ≢ b_key id executor
  unfolding first
  c≢b e = omega (arith, ap first e)

  b≢c : b_key id executor ≢ c_key id executor
  unfolding first
  b≢c e = omega (arith, ap first e)

  abbrev counted : TokenMap
  counted = (c_key id executor, e64func (minted +64 amount)) ∷ mp

  abbrev grown : TokenMap
  grown = (b_key id executor, e64func (balance +64 amount)) ∷ counted

  mint_passes :
      int64_less (total -64 amount) minted ≡ false → deal_mint env executor args mp ≡ (ok tt, grown)
  unfolding deal_mint check_owner
  mint_passes within =
      let still : figure env (b_key id executor) counted ≡ ok balance =
        figure-put_ne env mp (c_key id executor) (b_key id executor) (e64func (minted +64 amount))
          c≢b
        ∙ h.balance_figure in
      rw
        (
          h.id_arg,
          h.amount_arg,
          h.owned,
          bytes_eq_self executor,
          h.total_figure,
          h.minted_figure,
          within,
          still,
          deal_mint,
          check_owner,
        )
        refl

  minted_lem : figure env (c_key id executor) grown ≡ ok (minted +64 amount)
  minted_lem =
      figure-put_ne env counted (b_key id executor) (c_key id executor)
        (e64func (balance +64 amount)) b≢c
      ∙ figure-put_self env mp (c_key id executor) (minted +64 amount) (omega arith)

  -- A mint by the owner that the store names, within the total, where amount and total are below 2 ^ 63 and the balance
  -- has room, adds the amount to what has been minted and to the owner's balance.
  pub deal_mint_lem :
      amount < 2 ^ 63
      → total < 2 ^ 63
      → minted + amount ≤ total
      → balance + amount < 2 ^ 64
      → ((deal_mint env executor args mp).0 ≡ ok tt)
        × (figure env (c_key id executor) (deal_mint env executor args mp).1 ≡ ok (minted + amount))
        × (figure env (b_key id executor) (deal_mint env executor args mp).1
            ≡ ok (balance + amount))
  deal_mint_lem ha ht within room = rw (mint_passes (ground arith)) (
    refl,
    minted_lem ∙ ap ok (omega arith),
    figure-put_self env counted (b_key id executor) (balance +64 amount) (omega arith)
        ∙ ap ok (omega arith),
  )

  -- A mint by the owner that would exceed the total is refused, with the map as it was, where the
  -- amount and the figures are below 2 ^ 63.
  deal_mint-refused :
      amount < 2 ^ 63
      → total < 2 ^ 63
      → minted < 2 ^ 63
      → total < minted + amount
      → deal_mint env executor args mp ≡ (err overflow, mp)
  unfolding deal_mint check_owner
  deal_mint-refused ha ht hm over =
      let beyond : int64_less (total -64 amount) minted ≡ true = ground arith in
      rw
        (
          h.id_arg,
          h.amount_arg,
          h.owned,
          bytes_eq_self executor,
          h.total_figure,
          h.minted_figure,
          beyond,
          deal_mint,
          check_owner,
        )
        refl

  -- An amount of 2 ^ 63 or more counts as negative in the test: where the total with 2 ^ 64 less
  -- the amount stays below 2 ^ 63 and is at least what has been minted, and the balance has room,
  -- the mint by the owner succeeds, and the owner ends with more tokens than the total.
  deal_mint_wraps :
      2 ^ 63 ≤ amount
      → IsU64 amount
      → total + (2 ^ 64 - amount) < 2 ^ 63
      → minted ≤ total + (2 ^ 64 - amount)
      → balance + amount < 2 ^ 64
      → ((deal_mint env executor args mp).0 ≡ ok tt)
        × (total < balance + amount)
        × (figure env (b_key id executor) (deal_mint env executor args mp).1
            ≡ ok (balance + amount))
  deal_mint_wraps large ha small behind room = rw (mint_passes (ground arith)) (
    refl,
    omega arith,
    figure-put_self env counted (b_key id executor) (balance +64 amount) (omega arith)
        ∙ ap ok (omega arith),
  )
