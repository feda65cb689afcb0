-- ===== src/Ledger/Balance.antt =====
-- setBalance of pkg/blockchain/state.go, which the writes of the ledger and of the frozen amounts
-- both end in.
use korthochain.Common.{ℕ}
use korthochain.Common.Action.{query, modify, ◌>>=◌}
use korthochain.Address.{Address}
use korthochain.Ledger.State.{Env, LedgerAction}
use korthochain.Ledger.Query.{common_addr}

-- `setBalance`
unfoldable pub set_balance : {S : Type 0} → Env S → Address → ℕ → LedgerAction S (Unit {0})
set_balance env addr balance = do
  co_addr ← query (λ _. common_addr env addr)
  modify (λ s. env.put_balance s co_addr balance)
