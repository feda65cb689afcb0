-- ===== src/Chain/Frame.antt =====
-- The transactions of a block leave the chain's own keys alone: these are shorter than the hashes
-- and the map entries that `setTxbyaddrKV` writes.
use korthochain.Common.{
  ℕ, ◌+◌, ◌<◌, ◌≡◌, ◌∙◌, List, [], ◌∷◌, ◌++◌, ◌%◌, ◌^◌, Bool, false, arith, length, length-append,
}
use korthochain.Common.Word.{◌+64◌}
use korthochain.Common.Bytes.{Bytes, ascii, bytes_eq, bytes_eq-length}
use korthochain.Common.Outcome.{Result}
use korthochain.Common.Action.{Action}
use korthochain.Common.Keeps.{Keeps, Keeps-pure, Keeps->>=, keeps_rules}
use korthochain.Codec.{e_map_key, e32func}
use korthochain.Codec.Laws.{length-e32func}
use korthochain.Store.{IsKv, StoreError, mset, get-set_other}
use korthochain.Ledger.State.{LedgerAction}
use korthochain.Transaction.{Transaction, FinishedTransaction}
use korthochain.Wire.Blocks.{Block}
use korthochain.Chain.{ChainError, Machine}
use korthochain.Chain.Apply.{
  Work, on_txn, on_txn_ignored, on_ledger, logging, on_state, transaction_hash, set_tx_by_addr_kv,
  apply_coin_base, apply_freeze, apply_contract, apply_account, apply_transaction, apply_all,
}

-- The digest has 32 bytes.
abbrev pub IsDigest : (Bytes → Bytes) → Type 0
IsDigest digest = (b : Bytes) → length (digest b) ≡ 32

length-e_map_key : (k j : Bytes) → 5 + length j < length (e_map_key k j)
unfolding e_map_key
length-e_map_key k j = omega (
  arith,
  length-append (ascii "m" ++ e32func (length k % 2 ^ 32)) (k ++ (ascii "+" ++ j)),
  length-append k (ascii "+" ++ j),
  length-e32func (length k % 2 ^ 32),
)

module _ {T S : Type 0} (Q : T → Type 0) where
  -- `Q` holds of the transaction of the store.
  abbrev pub OnTxn : Work T S → Type 0
  OnTxn w = Q w.txn

  pub Keeps-on_ledger : {A : Type 0} (f : LedgerAction S A) → Keeps OnTxn (on_ledger f)
  Keeps-on_ledger f = record { at = λ w h. h }

  pub Keeps-logging :
      {A : Type 0} (has : Bool) (f : Action (Work T S) ChainError A)
      → Keeps OnTxn f
      → Keeps OnTxn (logging has f)
  Keeps-logging has f k = record { at = λ w h. k.at w h }

  pub Keeps-on_state : {A : Type 0} (f : Action S ChainError A) → Keeps OnTxn (on_state f)
  Keeps-on_state f = record { at = λ w h. h }

  pub Keeps-on_txn : {A : Type 0} (f : Action T StoreError A) → Keeps Q f → Keeps OnTxn (on_txn f)
  Keeps-on_txn f k = record { at = λ w h. k.at w.txn h }

  pub Keeps-on_txn_ignored :
      {A : Type 0} (f : Action T StoreError A) → Keeps Q f → Keeps OnTxn (on_txn_ignored f)
  Keeps-on_txn_ignored f k = record { at = λ w h. k.at w.txn h }

pub ruleset frame_rules = (
  keeps_rules, Keeps-on_ledger, Keeps-logging, Keeps-on_state, Keeps-on_txn, Keeps-on_txn_ignored,
)

-- What a read of a key gives, in the transaction of the store.
abbrev pub Reads : {T S : Type 0} → Machine T S → Bytes → Result StoreError Bytes → T → Type 0
Reads m j r t = m.kv.get j t ≡ r

module _ {T S : Type 0} (m : Machine T S) (laws : IsKv m.kv) (j : Bytes)
    (r : Result StoreError Bytes) where
  pub Keeps-set : (k v : Bytes) → bytes_eq k j ≡ false → Keeps (Reads m j r) (m.kv.set k v)
  Keeps-set k v h = record { at = λ t e. get-set_other m.kv laws k v t j h ∙ e }

module _ {T S : Type 0} (m : Machine T S) (laws : IsKv m.kv) (digest : IsDigest m.sha256)
    (j : Bytes) (r : Result StoreError Bytes) (short : length j < 32) where
  Keeps-mset : (k e v : Bytes) → length e ≡ 32 → Keeps (Reads m j r) (mset m.kv k e v)
  unfolding mset
  Keeps-mset k e v h =
      Keeps-set m laws j r (e_map_key k e) v
        (bytes_eq-length (e_map_key k e) j (λ same. omega (arith, length-e_map_key k e)))

  Keeps-set_tx_by_addr_kv :
      (addr : Bytes) (t : Transaction) (height index : ℕ)
      → Keeps
          (OnTxn {S = S} (Reads m j r))
          (set_tx_by_addr_kv m addr (transaction_hash m.sha256 t) height index)
  unfolding set_tx_by_addr_kv transaction_hash
  Keeps-set_tx_by_addr_kv addr t height index =
      let hash : Bytes = transaction_hash m.sha256 t in
      let long : length hash ≡ 32 = digest _ in
      let other : bytes_eq hash j ≡ false = bytes_eq-length hash j (λ same. omega (arith, long)) in
      Keeps->>= _ _
        (Keeps-on_txn_ignored (Reads m j r) (mset m.kv addr hash []) (Keeps-mset addr hash [] long))
        (λ _.
          Keeps-on_txn_ignored (Reads m j r) (m.kv.set hash (m.marshal_index height index))
            (Keeps-set m laws j r hash (m.marshal_index height index) other))

  ruleset apply_rules = (frame_rules, Keeps-set_tx_by_addr_kv)

  -- Whatever its kind, a transaction leaves what the key reads.
  Keeps-apply_transaction :
      (told : Bool) (db : T) (b : Block) (height index : ℕ) (tx : FinishedTransaction)
      → Keeps (OnTxn (Reads m j r)) (apply_transaction m told db b height index tx)
  unfolding apply_transaction apply_coin_base apply_freeze apply_contract apply_account
  Keeps-apply_transaction told db b height index tx = search apply_rules depth 30

  pub Keeps-apply_all :
      (told : Bool) (db : T) (b : Block) (height index gas : ℕ) (txs : List FinishedTransaction)
      → Keeps (OnTxn (Reads m j r)) (apply_all m told db b height index gas txs)
  unfolding apply_all
  Keeps-apply_all told db b height index gas [] = Keeps-pure _
  Keeps-apply_all told db b height index gas (tx ∷ txs) =
      Keeps->>= _ _ (Keeps-apply_transaction told db b height index tx) (λ done.
        Keeps->>= _ _ (Keeps-apply_all told db b height (index + 1) (gas +64 done.gas_used) txs)
          (λ rest. Keeps-pure _))
