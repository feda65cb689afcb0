-- ===== src/Contract/TokenFreezes.antt =====
-- What freezing and unfreezing tokens do to the frozen figure of an address.
use korthochain.Common.{
  ℕ, ◌+◌, ◌-◌, ◌≤◌, ◌≡◌, refl, ◌∙◌, ap, List, ◌∷◌, some, arith, ltb, if◌then◌else◌,
}
use korthochain.Common.Word.{IsU64, ◌+64◌}
use korthochain.Common.Bytes.{Bytes, bytes_eq_self}
use korthochain.Common.Outcome.{ok}
use korthochain.Common.Action.{◌>>◌, >>=-ok}
use korthochain.Codec.{e64func}
use korthochain.Contract.Script.{ScriptArgument}
use korthochain.Contract.Tokens.{
  TokenEnv, TokenMap, a_key, b_key, f_key, figure, check_owner, deal_freeze, deal_unfreeze,
  text_argument, number_argument,
}
use korthochain.Contract.TokenTransfers.{figure-put_self}

-- The arguments of a freeze by the owner of a token: what the address has and has frozen.
pub record IsFreeze (env : TokenEnv) (mp : TokenMap) (executor : Bytes) (args : List ScriptArgument)
    (id addr : Bytes) (amount balance frozen : ℕ) : Type 0 where
  pub id_arg : text_argument args 0 ≡ ok id
  pub addr_arg : text_argument args 1 ≡ ok addr
  pub amount_arg : number_argument args 2 ≡ ok amount
  pub owned : env.lookup (a_key id) ≡ some executor
  pub balance_figure : figure env (b_key id addr) mp ≡ ok balance
  pub frozen_figure : figure env (f_key id addr) mp ≡ ok frozen

module _ (env : TokenEnv) (mp : TokenMap) (executor : Bytes) (args : List ScriptArgument)
    {id addr : Bytes} {amount balance frozen : ℕ}
    (h : IsFreeze env mp executor args id addr amount balance frozen) where
  abbrev capped : ℕ
  capped = if ltb balance (frozen +64 amount) then balance else frozen +64 amount

  abbrev put : TokenMap → ℕ → TokenMap
  put m v = (f_key id addr, e64func v) ∷ m

  freeze_runs : deal_freeze env executor args mp ≡ (ok tt, put mp capped)
  unfolding deal_freeze check_owner
  freeze_runs =
      rw
        (
          h.id_arg,
          h.addr_arg,
          h.amount_arg,
          h.owned,
          bytes_eq_self executor,
          h.balance_figure,
          h.frozen_figure,
          deal_freeze,
          check_owner,
        )
        refl

  unfreeze_runs :
      (m : TokenMap) (t : ℕ)
      → figure env (f_key id addr) m ≡ ok t
      → deal_unfreeze env executor args m ≡ (ok tt, put m (if ltb t amount then 0 else t - amount))
  unfolding deal_unfreeze check_owner
  unfreeze_runs m t now =
      rw
        (
          h.id_arg,
          h.addr_arg,
          h.amount_arg,
          h.owned,
          bytes_eq_self executor,
          now,
          deal_unfreeze,
          check_owner,
        )
        refl

  -- Freezing an amount as the owner adds it to the frozen figure of the address, and unfreezing it
  -- again brings the figure back, where the address has, in uint64, at least what was frozen and the
  -- amount together.
  deal_unfreeze-deal_freeze :
      frozen + amount ≤ balance
      → IsU64 balance
      → (figure env (f_key id addr) (deal_freeze env executor args mp).1 ≡ ok (frozen + amount))
        × (((deal_freeze env executor args >> deal_unfreeze env executor args) mp).0 ≡ ok tt)
        × (figure env
              (f_key id addr)
              ((deal_freeze env executor args >> deal_unfreeze env executor args) mp).1
            ≡ ok frozen)
  deal_unfreeze-deal_freeze within fits =
      let exact : capped ≡ frozen + amount = ground arith in
      let after : figure env (f_key id addr) (put mp capped) ≡ ok (frozen + amount) =
        figure-put_self env mp (f_key id addr) capped (rw exact (omega arith)) ∙ ap ok exact in
      let both =
        >>=-ok (deal_freeze env executor args) (λ _. deal_unfreeze env executor args) mp freeze_runs
        ∙ unfreeze_runs (put mp capped) (frozen + amount) after in
      let back : (if ltb (frozen + amount) amount then 0 else frozen + amount - amount) ≡ frozen =
        ground arith in
      (
        rw freeze_runs after,
        ap (λ r. r.0) both,
        ap (λ r. figure env (f_key id addr) r.1) both
            ∙ figure-put_self env (put mp capped) (f_key id addr)
                (if ltb (frozen + amount) amount then 0 else frozen + amount - amount)
                (rw back (omega arith))
            ∙ ap ok back,
      )
