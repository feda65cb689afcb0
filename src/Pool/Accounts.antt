-- ===== src/Pool/Accounts.antt =====
-- The buffer of traders after a transaction: what changes, and what does not.
use korthochain.Common.{
  ◌+◌, ◌-◌, ◌^◌, ◌<◌, ◌≤◌, ◌≡◌, ◌≢◌, ◌∙◌, refl, sym, ◌∷◌, true, none, some, arith,
}
use korthochain.Common.Word.{IsU64, ◌+64◌}
use korthochain.Common.Bytes.{Bytes, bytes_eq_self, bytes_eq_ne}
use korthochain.Common.Outcome.{ok}
use korthochain.Common.Action.{>>=-ok}
use korthochain.Address.{Address}
use korthochain.Transaction.{Transaction, gas_cap}
use korthochain.Pool.Figures.{TraderInfo, after_unlock}
use korthochain.Pool.Laws.{IsInfo, after_transfer_lem}
use korthochain.Pool.{
  Chain, TraderBuf, find_trader, key_of, get_trader_info, complete_trader, load_single, calculate,
  transfer_pre_calculated, unlock_pre_calculated,
}

find-put_self :
    (buf : TraderBuf) (k : Bytes) (info : TraderInfo) → find_trader ((k, info) ∷ buf) k ≡ some info
unfolding find_trader
find-put_self buf k info = rw bytes_eq_self refl

find-put_ne :
    (buf : TraderBuf) (k k' : Bytes) (info : TraderInfo)
    → k ≢ k'
    → find_trader ((k, info) ∷ buf) k' ≡ find_trader buf k'
unfolding find_trader
find-put_ne buf k k' info h = rw (bytes_eq_ne k k' h) refl

-- A trader with a text, whose figures the buffer holds.
abbrev pub IsKnown : Chain → TraderBuf → Address → Bytes → TraderInfo → Type 0
IsKnown chain buf addr key info = (key_of chain addr ≡ ok key) × (find_trader buf key ≡ some info)

module _ (chain : Chain) (buf : TraderBuf) where
  known_info :
      (addr : Address) (key : Bytes) (info : TraderInfo)
      → IsKnown chain buf addr key info
      → get_trader_info chain addr none buf ≡ (ok info, buf)
  unfolding get_trader_info
  known_info addr key info h = rw (h.0, h.1, get_trader_info) refl

  -- What a transfer leaves where the two parties have the figures given: both entries are written,
  -- the receiver's last.
  transfer_runs :
      (tx : Transaction) (kf kt : Bytes) (caller receiver : TraderInfo)
      → IsKnown chain buf tx.from kf caller
      → IsKnown chain buf tx.to kt receiver
      → IsInfo caller
      → IsU64 receiver.available_balance
      → IsU64 tx.amount
      → tx.amount + gas_cap tx ≤ caller.available_balance
      → receiver.available_balance + tx.amount < 2 ^ 64
      → transfer_pre_calculated chain tx buf ≡ (
        ok tt,
        (kt, record receiver { available_balance = receiver.available_balance + tx.amount })
            ∷ (
              kf,
              record caller {
                available_balance = caller.available_balance - (tx.amount + gas_cap tx);
                next_nonce = caller.next_nonce +64 1;
              },
            )
            ∷ buf,
      )
  unfolding transfer_pre_calculated
  transfer_runs tx kf kt caller receiver hf ht hc hr ha cover room =
      >>=-ok (get_trader_info chain tx.from none) _ buf (known_info tx.from kf caller hf)
      ∙ >>=-ok (get_trader_info chain tx.to none) _ buf (known_info tx.to kt receiver ht)
      ∙ rw (after_transfer_lem caller tx hc ha receiver hr, hf.0, ht.0)
          (ground (arith, cover, room, hc.0))

  -- A transfer between traders with different texts, both in the buffer with figures in uint64,
  -- where the caller is covered with the gas cap and the receiver has room: the caller's available
  -- balance falls by amount and gas cap and its next nonce goes up, the receiver's available
  -- balance rises by the amount, and no third trader changes.
  transfer_pre_calculated_lem :
      (tx : Transaction) (kf kt k : Bytes) (caller receiver : TraderInfo)
      → IsKnown chain buf tx.from kf caller
      → IsKnown chain buf tx.to kt receiver
      → kf ≢ kt
      → k ≢ kf
      → k ≢ kt
      → IsInfo caller
      → IsU64 receiver.available_balance
      → IsU64 tx.amount
      → tx.amount + gas_cap tx ≤ caller.available_balance
      → receiver.available_balance + tx.amount < 2 ^ 64
      → ((transfer_pre_calculated chain tx buf).0 ≡ ok tt)
        × (find_trader (transfer_pre_calculated chain tx buf).1 kf
            ≡ some (record caller {
              available_balance = caller.available_balance - (tx.amount + gas_cap tx);
              next_nonce = caller.next_nonce +64 1;
            }))
        × (find_trader (transfer_pre_calculated chain tx buf).1 kt
            ≡ some (record receiver { available_balance = receiver.available_balance + tx.amount }))
        × (find_trader (transfer_pre_calculated chain tx buf).1 k ≡ find_trader buf k)
  transfer_pre_calculated_lem tx kf kt k caller receiver hf ht apart nf nt hc hr ha cover room =
      rw (transfer_runs tx kf kt caller receiver hf ht hc hr ha cover room) (
        refl,
        find-put_ne _ kt kf _ (λ e. apart (sym e)) ∙ find-put_self buf kf _,
        find-put_self _ kt _,
        find-put_ne _ kt k _ (λ e. nt (sym e)) ∙ find-put_ne buf kf k _ (λ e. nf (sym e)),
      )

  -- A transfer of a trader in the buffer to itself, covered with the gas cap, of figures in uint64
  -- and with room for the amount, is accepted: the available balance rises by the amount, no gas is
  -- taken and the next nonce stays.
  pub self_transfer_mints :
      (tx : Transaction) (k : Bytes) (info : TraderInfo)
      → IsKnown chain buf tx.from k info
      → tx.to ≡ tx.from
      → IsInfo info
      → IsU64 tx.amount
      → tx.amount + gas_cap tx ≤ info.available_balance
      → info.available_balance + tx.amount < 2 ^ 64
      → ((transfer_pre_calculated chain tx buf).0 ≡ ok tt)
        × (find_trader (transfer_pre_calculated chain tx buf).1 k
            ≡ some (record info { available_balance = info.available_balance + tx.amount }))
  self_transfer_mints tx k info h same hi ha cover room =
      rw (transfer_runs tx k k info info h (rw same h.0, h.1) hi hi.0 ha cover room)
        (refl, find-put_self _ k _)

  -- Where the buffer holds the caller with a locked amount that has been read for some notary, an
  -- unlock gives the same result for every notary.
  unlock_ignores_notary :
      (tx : Transaction) (notary : Address) (key : Bytes) (info : TraderInfo)
      → IsKnown chain buf tx.from key info
      → info.single_exist ≡ true
      → unlock_pre_calculated chain tx buf
        ≡ unlock_pre_calculated chain (record tx { to = notary }) buf
  unfolding unlock_pre_calculated calculate get_trader_info complete_trader load_single after_unlock
  unlock_ignores_notary tx notary key info h seen = rw (h.0, h.1, seen, get_trader_info) refl
