-- ===== src/Chain/Back.antt =====
-- What taking blocks off leaves: the height below them, and the state of the root that is held.
use korthochain.Common.{ℕ, zero, suc, ◌-◌, ◌<◌, ◌≤◌, ◌≡◌, refl, subst, arith, ltb, inl, inr}
use korthochain.Common.Word.{◌-64◌, IsU64}
use korthochain.Common.Bytes.{Bytes}
use korthochain.Common.Outcome.{ok, Result-cases}
use korthochain.Common.Action.{query, raise_if}
use korthochain.Common.Keeps.{
  Keeps, Keeps-query, Keeps-const, Ensures, Ensures->>=, Ensures-at, Ensures-any, Ensures-keeps,
  Ensures-query, Ensures-raise_if, Ensures-weaken, Ensures-pure, Ensures-given, Ensures-×,
}
use korthochain.Codec.{e64func}
use korthochain.Codec.Laws.{d64func-e64func}
use korthochain.Store.{IsKv}
use korthochain.Ledger.{common_addr}
use korthochain.Wire.Blocks.{Block}
use korthochain.Chain.{
  wrong_height, Machine, height_key, hash_key, root_key, snap_root_key, store_result,
  get_max_block_height, get_block_by_height,
}
use korthochain.Chain.Apply.{Work, on_txn, on_txn_ignored, ledger_env}
use korthochain.Chain.Frame.{OnTxn, frame_rules}
use korthochain.Chain.Build.{Has, Ensures-put_ignored}
use korthochain.Chain.Delete.{
  delete_transactions, step_back, delete_at, delete_down, delete_temp_blocks, ledger_result, reopen,
}

module _ {T S : Type 0} (m : Machine T S) where
  -- The state is the one at the root that is held.
  abbrev pub AtRoot : T → Work T S → Type 0
  AtRoot db w =
      (root : Bytes) × (m.kv.get snap_root_key w.txn ≡ ok root)
      × (m.open_state db (m.bytes_to_hash root) ≡ ok w.sdb)

module _ {T S : Type 0} (m : Machine T S) (laws : IsKv m.kv) where
  Ensures-step_back :
      {P : Work T S → Type 0} (height : ℕ) (b : Block)
      → Ensures P (step_back m height b) (λ _. Has m height_key (e64func (height -64 1)))
  unfolding step_back
  Ensures-step_back height b =
      Ensures->>= (query (λ w. store_result (m.kv.get (root_key (b.height -64 1)) w.txn))) _
        (Ensures-any _)
        (λ sn. Ensures->>= (on_txn (m.kv.delete (root_key b.height))) _ (Ensures-any _) (λ _.
          Ensures->>= (on_txn (m.kv.delete (hash_key b.height))) _ (Ensures-any _) (λ _.
            Ensures->>= (on_txn_ignored (m.kv.set snap_root_key sn)) _ (Ensures-any _) (λ _.
              Ensures-weaken _
                (Ensures-put_ignored m laws height_key (e64func (height -64 1))
                  ((λ e. omega (arith, e)), omega arith) (Keeps-const {C = Unit {0}} _))
                (λ _ w h. h.1)))))

  Ensures-delete_at :
      {P : Work T S → Type 0} (db : T) (height : ℕ)
      → Ensures P (delete_at m db height) (λ _. Has m height_key (e64func (height -64 1)))
  unfolding delete_at
  Ensures-delete_at db height =
      Ensures->>= (query (λ w. get_block_by_height m height db)) _ (Ensures-any _) (λ b.
        Ensures->>= (delete_transactions m b.transactions) _ (Ensures-any _) (λ _.
          Ensures->>= (step_back m height b) _ (Ensures-step_back height b) (λ _.
            Ensures->>= (query (λ w. get_block_by_height m (height -64 1) db)) _
              (Ensures-keeps _ (Keeps-query _))
              (λ previous.
                Ensures->>=
                  (query (λ w. ledger_result (common_addr (ledger_env m db) previous.miner))) _
                  (Ensures-keeps _ (Keeps-query _)) (λ miner. Ensures-pure tt (λ w h. h))))))

  Ensures-delete_down :
      (db : T) (n height : ℕ)
      → n < height
      → IsU64 height
      → Ensures
          (λ _. Unit {0})
          (delete_down m db (suc n) height)
          (λ _. Has m height_key (e64func (height - suc n)))
  unfolding delete_down
  Ensures-delete_down db zero height low fits =
      let exact : height -64 1 ≡ height - suc zero = omega arith in
      Ensures->>= _ _ (Ensures-delete_at db height)
        (λ _. Ensures-pure tt (λ w h. subst (λ k. Has m height_key (e64func k) w) exact h))
  Ensures-delete_down db (suc n) height low fits =
      let exact : (height -64 1) - suc n ≡ height - suc (suc n) = omega arith in
      Ensures->>= _ _ (Ensures-any _) (λ _.
        Ensures-weaken _ (Ensures-delete_down db n (height -64 1) (omega arith) (omega arith))
          (λ _ w h. subst (λ k. Has m height_key (e64func k) w) exact h))

  Keeps-reopen : (Q : T → Type 0) (db : T) → Keeps (OnTxn Q) (reopen m db)
  unfolding reopen
  Keeps-reopen Q db = search frame_rules depth 30

  Ensures-reopen : {P : Work T S → Type 0} (db : T) → Ensures P (reopen m db) (λ _. AtRoot m db)
  unfolding reopen
  Ensures-reopen db = Ensures-at (reopen m db) (λ w h.
      elim (Result-cases (m.kv.get snap_root_key w.txn)) [
        | inl (root, e) ↦ elim (Result-cases (m.open_state db (m.bytes_to_hash root))) [
          | inl (s, opens) ↦ rw (e, opens) (root, e, opens)
          | inr (x, fails) ↦ rw (e, fails) tt
        ]
        | inr (x, e) ↦ rw e tt
      ])

  Ensures-delete_temp_blocks :
      (db : T) (height db_height : ℕ)
      → 1 ≤ height
      → IsU64 db_height
      → get_max_block_height m db ≡ ok db_height
      → Ensures
          (λ _. Unit {0})
          (delete_temp_blocks m db height)
          (λ _ w.
            AtRoot m db w × (Has m height_key (e64func (height - 1)) w × (height ≤ db_height)))
  unfolding delete_temp_blocks
  Ensures-delete_temp_blocks db height db_height low fits top =
      Ensures->>= {Q = λ d _. Unit {0} × (d ≡ db_height)} (query (λ w. get_max_block_height m db)) _
        (Ensures-query _ (λ w d h e. (tt, cc (e, top))))
        (λ d. Ensures-given _ (λ same.
          Ensures->>= (raise_if (ltb d height) wrong_height) _
            (Ensures-raise_if (ltb d height) wrong_height)
            (λ _. Ensures-given _ (λ above.
              let reached : height ≤ d = ground arith in
              let below : d - suc (d - height) ≡ height - 1 = omega arith in
              Ensures->>= _ _ (Ensures-delete_down db (d - height) d (omega arith) (omega arith))
                (λ _.
                  Ensures-weaken _
                    (Ensures-× (reopen m db) (Ensures-reopen db) (
                      Ensures-keeps _ (
                        Keeps-reopen
                          (λ t. m.kv.get height_key t ≡ ok (e64func (d - suc (d - height)))) db)))
                    (λ _ w h. (
                      h.0,
                      (subst (λ k. Has m height_key (e64func k) w) below h.1, omega arith),
                    )))))))

  -- After the blocks from a height of at least 1 on were taken off with success, on a store within
  -- its limits whose height is below 2 ^ 64, the chain's height is the one below, and the state is
  -- the one at the root that the store then holds.
  pub delete_temp_blocks-height :
      (db : T) (height db_height : ℕ) (w w' : Work T S)
      → 1 ≤ height
      → IsU64 db_height
      → get_max_block_height m db ≡ ok db_height
      → delete_temp_blocks m db height w ≡ (ok tt, w')
      → (get_max_block_height m w'.txn ≡ ok (height - 1)) × AtRoot m db w'
  unfolding get_max_block_height
  delete_temp_blocks-height db height db_height w w' low fits top done =
      let (opens, rest) =
        (Ensures-delete_temp_blocks db height db_height low fits top).ends w tt done in
      let (held, within) = rest in
      (rw (held, d64func-e64func (height - 1) (omega arith)) refl, opens)
