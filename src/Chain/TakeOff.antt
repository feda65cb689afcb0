-- ===== src/Chain/TakeOff.antt =====
-- What `DeleteBlock` leaves: the height below the blocks, and the state of the root that is held.
use korthochain.Common.{
  ℕ, zero, suc, ◌-◌, ◌<◌, ◌≤◌, ◌≡◌, refl, sym, ◌∙◌, subst, arith, false, ltb, inl, inr,
}
use korthochain.Common.Word.{◌-64◌, IsU64}
use korthochain.Common.Bytes.{Bytes}
use korthochain.Common.Outcome.{Result, ok, err, Result-cases}
use korthochain.Common.Action.{query, ◌>>◌}
use korthochain.Common.Keeps.{
  AtEnd, Keeps-const, Ensures-pure, Ensures, Ensures->>=, Ensures-at, Ensures-any, Ensures-weaken,
}
use korthochain.Codec.{e64func}
use korthochain.Codec.Laws.{d64func-e64func}
use korthochain.Store.{IsKv}
use korthochain.Chain.{
  ChainError, Machine, height_key, hash_key, root_key, snap_root_key, store_result,
  get_max_block_height, get_block_by_height, get_snap_root,
}
use korthochain.Chain.Apply.{Work, on_txn, on_txn_ignored}
use korthochain.Chain.AddBlock.{Node}
use korthochain.Chain.Build.{Has, Ensures-put_ignored}
use korthochain.Chain.Delete.{delete_transactions}
use korthochain.Chain.DeleteBlock.{
  commit_turn, take_off, take_off_turn, take_off_down, open_again, delete_block,
}
use korthochain.Chain.Laws.{IsCommit}

module _ {T S : Type 0} (m : Machine T S) where
  -- What a read of the height gives.
  abbrev HasHeight : ℕ → Node T S → Type 0
  HasHeight h n = m.kv.get height_key n.db ≡ ok (e64func h)

  -- The state is the one at the root that is held.
  abbrev pub IsOpened : Node T S → Type 0
  IsOpened n =
      (root : Bytes) × (get_snap_root m n.db ≡ ok root) × (m.open_state n.db root ≡ ok n.sdb)

module _ {T S : Type 0} (m : Machine T S) (laws : IsKv m.kv) (commits : IsCommit m) where
  Ensures-take_off :
      {P : Work T S → Type 0} (db : T) (height : ℕ)
      → Ensures P (take_off m db height) (λ _. Has m height_key (e64func (height -64 1)))
  unfolding take_off
  Ensures-take_off db height =
      Ensures->>= (query (λ w. get_block_by_height m height db)) _ (Ensures-any _) (λ b.
        Ensures->>= (delete_transactions m b.transactions) _ (Ensures-any _) (λ _.
          Ensures->>= (query (λ w. store_result (m.kv.get (root_key (b.height -64 1)) w.txn))) _
            (Ensures-any _)
            (λ sn. Ensures->>= (on_txn (m.kv.delete (root_key b.height))) _ (Ensures-any _) (λ _.
              Ensures->>= (on_txn (m.kv.delete (hash_key b.height))) _ (Ensures-any _) (λ _.
                Ensures->>= (on_txn (m.kv.delete b.hash)) _ (Ensures-any _) (λ _.
                  Ensures->>= (query (λ w. get_block_by_height m (height -64 1) db)) _
                    (Ensures-any _)
                    (λ previous.
                      Ensures->>= (on_txn_ignored (m.kv.set snap_root_key sn)) _ (Ensures-any _)
                        (λ _.
                          Ensures-weaken _
                            (Ensures-put_ignored m laws height_key (e64func (height -64 1))
                              ((λ e. omega (arith, e)), omega arith) (Keeps-const {C = Unit {0}} _))
                            (λ _ w h. h.1)))))))))

  -- The commit keeps what the writes left under the key of the height.
  commit_turn-end :
      (n : Node T S) (h : ℕ) (r : Result ChainError (Unit {0}) × Work T S)
      → ((w : Work T S) → r ≡ (ok tt, w) → Has m height_key (e64func h) w)
      → AtEnd (λ _. HasHeight m h) (commit_turn m n r)
  commit_turn-end n h (err e, w) held = tt
  commit_turn-end n h (ok tt, w) held = elim (Result-cases (m.commit w.txn)) [
    | inl (d, c) ↦ rw c (commits w.txn d c height_key ∙ held w refl)
    | inr (x, c) ↦ rw c tt
  ]

  Ensures-take_off_turn :
      {P : Node T S → Type 0} (height : ℕ)
      → Ensures P (take_off_turn m height) (λ _. HasHeight m (height -64 1))
  unfolding take_off_turn
  Ensures-take_off_turn height = Ensures-at (take_off_turn m height) (λ n h.
      commit_turn-end n (height -64 1) (take_off m n.db height (record { txn = n.db; sdb = n.sdb }))
        (λ w e. (Ensures-take_off {P = λ _. Unit {0}} n.db height).ends _ tt e))

  Ensures-take_off_down :
      (n height : ℕ)
      → n < height
      → IsU64 height
      → Ensures (λ _. Unit {0}) (take_off_down m (suc n) height) (λ _. HasHeight m (height - suc n))
  unfolding take_off_down
  Ensures-take_off_down zero height low fits =
      let exact : height -64 1 ≡ height - suc zero = omega arith in
      Ensures->>= _ _ (Ensures-take_off_turn height)
        (λ _. Ensures-pure tt (λ w h. subst (λ k. HasHeight m k w) exact h))
  Ensures-take_off_down (suc n) height low fits =
      let exact : (height -64 1) - suc n ≡ height - suc (suc n) = omega arith in
      Ensures->>= _ _ (Ensures-any _) (λ _.
        Ensures-weaken _ (Ensures-take_off_down n (height -64 1) (omega arith) (omega arith))
          (λ _ w h. subst (λ k. HasHeight m k w) exact h))

  Ensures-open_again :
      (h : ℕ) → Ensures (HasHeight m h) (open_again m) (λ _ n. HasHeight m h n × IsOpened m n)
  unfolding open_again
  Ensures-open_again h = Ensures-at (open_again m) (λ n held.
      elim (Result-cases (get_snap_root m n.db)) [
        | inl (root, e) ↦ elim (Result-cases (m.open_state n.db root)) [
          | inl (s, opens) ↦ rw (e, opens) (held, (root, e, opens))
          | inr (x, fails) ↦ rw (e, fails) tt
        ]
        | inr (x, e) ↦ rw e tt
      ])

  -- After `DeleteBlock` went well from a height between 1 and the chain's, on a store within its
  -- limits whose height is below 2 ^ 64, the chain's height is the one below, and the state is the
  -- one at the root that the store then holds.
  pub delete_block-height :
      (height db_height : ℕ) (n n' : Node T S)
      → 1 ≤ height
      → height ≤ db_height
      → IsU64 db_height
      → get_max_block_height m n.db ≡ ok db_height
      → delete_block m height n ≡ (ok tt, n')
      → (get_max_block_height m n'.db ≡ ok (height - 1)) × IsOpened m n'
  unfolding get_max_block_height delete_block
  delete_block-height height db_height n n' low within fits top done =
      let inside : ltb db_height height ≡ false = ground arith in
      let below : db_height - suc (db_height - height) ≡ height - 1 = omega arith in
      let steps : delete_block m height n
          ≡ (take_off_down m (suc (db_height - height)) db_height >> open_again m) n =
        rw (top, inside) refl in
      let (held, opens) =
        (Ensures->>= _ _ (Ensures-take_off_down (db_height - height) db_height (omega arith) fits)
            (λ _. Ensures-open_again _)).ends
          n tt (sym steps ∙ done) in
      let height_held : HasHeight m (height - 1) n' = subst (λ k. HasHeight m k n') below held in
      (rw (height_held, d64func-e64func (height - 1) (omega arith)) refl, opens)
