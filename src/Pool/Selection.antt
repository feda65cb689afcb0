-- ===== src/Pool/Selection.antt =====
-- pkg/txpool/pool.go: what enters the pool (`Add`, `AddList`), and what `Pending` selects.
pub mod Reads
pub mod Nonces
pub mod Calculations
pub mod Pending
use korthochain.Common.{
  ℕ, zero, suc, List, [], ◌∷◌, ◌++◌, Bool, ◌&&◌, ◌||◌, not, Option, none, some, ltb, leb, ◌==◌,
  if◌then◌else◌, length,
}
use korthochain.Common.Word.{◌*64◌}
use korthochain.Common.Bytes.{Bytes}
use korthochain.Common.Outcome.{Result, ok, err}
use korthochain.Common.Action.{pure, raise, query, raise_if, ◌>>=◌, ◌>>◌}
use korthochain.Transaction.{SignedTransaction, transfer_transaction, gas_cap}
use korthochain.Rewards.{min_gas_limit, max_gas_limit}
use korthochain.Pool.Overflow.{
  PoolError, panicked, pool_full, nonce_too_low, unsupported_input, gas_out_of_range, bad_signature,
}
use korthochain.Pool.Figures.{TraderInfo}
use korthochain.Pool.{
  Chain, TraderBuf, Calculation, key_of, get_trader_info, compare_nonce, transaction_pre_calculated,
}
use korthochain.Pool.Queue.{Entry, nonce_of, Queue, QueueAction}
use korthochain.Pool.Queue.Push.{push, remove}
use mathlib.Core.List.{reverse}
use Prim.Native.Nat.{Ordering, lt, eq, gt}

-- `PendingLimit`
abbrev pub pending_limit : ℕ
pending_limit = 100

-- `poolCap`
abbrev pub pool_cap : ℕ
pool_cap = 10000

-- What becomes of a transaction in the loop of `Pending`.
pub data Verdict : Type 0 where
  taken bad skipped : Verdict

-- After the read for the log, which may fail: then the transaction is only passed over.
abbrev pub logged :
    Verdict → Result PoolError TraderInfo × TraderBuf → Result PoolError Verdict × TraderBuf
logged v (ok info, buf) = (ok v, buf)
logged v (err e, buf) = (ok skipped, buf)

-- By how the calculation went; a panic passes by.
abbrev pub judged : Result PoolError (Unit {0}) × TraderBuf → Result PoolError Verdict × TraderBuf
judged (ok u, buf) = (ok taken, buf)
judged (err panicked, buf) = (err panicked, buf)
judged (err e, buf) = (ok bad, buf)

module _ (chain : Chain) where
  abbrev pub by_order :
      SignedTransaction → Ordering × TraderBuf → Result PoolError Verdict × TraderBuf
  by_order st (lt, buf) = logged bad (get_trader_info chain st.transaction.from none buf)
  by_order st (gt, buf) = logged skipped (get_trader_info chain st.transaction.from none buf)
  by_order st (eq, buf) = judged (transaction_pre_calculated chain st.transaction buf)

  -- One turn of the loop of `Pending`; the text of the caller comes first.
  unfoldable pub judge : SignedTransaction → Calculation Verdict
  unfolding key_of compare_nonce get_trader_info transaction_pre_calculated
  judge st = do
    key ← query (λ _. key_of chain st.transaction.from)
    (λ buf. by_order st (compare_nonce chain st.transaction.from st.transaction.nonce buf))

  -- The rest of the loop by what became of the entry, which has the index `i`: `took` is the rest
  -- with one place less, `passed` the rest with the same room.
  abbrev pub go_on :
      Entry
      → ℕ
      → Calculation (List Entry × List ℕ)
      → Calculation (List Entry × List ℕ)
      → Verdict
      → Calculation (List Entry × List ℕ)
  go_on e i took passed taken = do rest ← took; pure (e ∷ rest.0, rest.1)
  go_on e i took passed bad = do rest ← passed; pure (rest.0, i ∷ rest.1)
  go_on e i took passed skipped = passed

  -- The loop of `Pending` with room for so many, over the entries from the end of the queue on: the
  -- transactions that are picked, and the indices of the bad ones.
  unfoldable pub pick_loop : ℕ → List Entry → Calculation (List Entry × List ℕ)
  unfolding judge
  pick_loop room [] = pure ([], [])
  pick_loop zero (e ∷ es) = pure ([], [])
  pick_loop (suc room) (e ∷ es) =
      judge e.st >>= go_on e (length es) (pick_loop room es) (pick_loop (suc room) es)

  unfoldable pub remove_all : List ℕ → QueueAction (Unit {0})
  unfolding remove
  remove_all [] = pure tt
  remove_all (i ∷ is) = remove i >> remove_all is

  abbrev pub selected :
      Queue → Result PoolError (List Entry × List ℕ) → Result PoolError (List Entry) × Queue
  selected q (ok (picked, bads)) = (do remove_all bads; pure picked) q
  selected q (err e) = (err e, q)

  -- `Pending`
  unfoldable pub pending : QueueAction (List Entry)
  unfolding pick_loop remove_all
  pending q = selected q (pick_loop pending_limit (reverse q.st_list) []).0

  -- `geCallerNonce`: where the nonce cannot be read it counts as 0.
  abbrev pub read_nonce : Result PoolError ℕ → ℕ
  read_nonce (ok n) = n
  read_nonce (err e) = 0

  -- `add`
  unfoldable pub add : Entry → ℕ → ℕ → QueueAction (Unit {0})
  unfolding push
  add e now second = do
    size ← query (λ (q : Queue). ok (length q.st_list))
    raise_if (leb pool_cap size) pool_full
    raise_if (ltb (nonce_of e) (read_nonce (chain.get_nonce e.st.transaction.from))) nonce_too_low
    push e now second

  -- `Add`, where `signed` is what `VerifySign` finds.
  unfoldable pub add_transaction : Bool → Entry → ℕ → ℕ → QueueAction (Unit {0})
  unfolding add
  add_transaction signed e now second =
      let t = e.st.transaction in
      do
        raise_if ((t.kind == transfer_transaction) && not (length t.input == 0)) unsupported_input
        raise_if (ltb (gas_cap t) min_gas_limit || ltb max_gas_limit (gas_cap t)) gas_out_of_range
        raise_if (not signed) bad_signature
        add e now second
