-- ===== src/Chain/History.antt =====
-- Calls of `AddBlock` one after another, some accepted and some refused: the store holds a stack of
-- the accepted blocks on top of what it held.
use korthochain.Common.{
  ℕ, suc, ◌+◌, ◌^◌, ◌<◌, ◌≤◌, ◌≡◌, refl, ◌∙◌, ap, List, [], ◌∷◌, arith, length,
}
use korthochain.Common.Outcome.{ok, err}
use korthochain.Store.{IsKv}
use korthochain.Wire.Blocks.{Block}
use korthochain.Chain.{ChainError, Machine, get_max_block_height, get_hash}
use korthochain.Chain.AddBlock.{Node, add_block}
use korthochain.Chain.Frame.{IsDigest}
use korthochain.Chain.Laws.{IsCommit, add_block-store, add_block-height, add_block-other}

-- From one node, calls of `AddBlock` reach another; the list holds the accepted blocks, the last
-- one first. A block comes with a hash of 32 bytes.
pub data Calls {T S : Type 0} (m : Machine T S) (n : Node T S)
    : List Block → Node T S → Type 0 where
  start : Calls m n [] n
  accepted :
      {bs : List Block} {n1 n2 : Node T S} (b stored : Block)
      → Calls m n bs n1
      → length b.hash ≡ 32
      → add_block m b n1 ≡ (ok stored, n2)
      → Calls m n (b ∷ bs) n2
  refused :
      {bs : List Block} {n1 n2 : Node T S} (b : Block) (e : ChainError)
      → Calls m n bs n1
      → add_block m b n1 ≡ (err e, n2)
      → Calls m n bs n2

-- Above the height `h`, the heights lead to the hashes of the blocks.
abbrev pub IsStacked : {T S : Type 0} → Machine T S → Node T S → ℕ → List Block → Type 0
IsStacked m n h [] = Unit
IsStacked m n h (b ∷ bs) = (get_hash m (h + suc (length bs)) n.db ≡ ok b.hash) × IsStacked m n h bs

module _ {T S : Type 0} (m : Machine T S) where
  IsStacked-kept :
      (n n' : Node T S) (h : ℕ) (bs : List Block)
      → ((i : ℕ) → i ≤ h + length bs → get_hash m i n'.db ≡ get_hash m i n.db)
      → IsStacked m n h bs
      → IsStacked m n' h bs
  IsStacked-kept n n' h [] same stacked = tt
  IsStacked-kept n n' h (b ∷ bs) same stacked = (
    same (h + suc (length bs)) (omega arith) ∙ stacked.0,
    IsStacked-kept n n' h bs (λ i le. same i (omega arith)) stacked.1,
  )

  module _ (laws : IsKv m.kv) (digest : IsDigest m.sha256) (commits : IsCommit m) where
    -- However the calls of `AddBlock` go, on a store within its limits and where every accepted block
    -- comes with a hash of 32 bytes, the chain's height is what it was plus the number of blocks
    -- accepted, as long as this is below 2 ^ 64; each accepted block's hash stands at its
    -- height, in the order of the calls; and the heights up to the old one lead to what they did.
    pub calls_stack :
        (n n' : Node T S) (h : ℕ) (bs : List Block)
        → Calls m n bs n'
        → get_max_block_height m n.db ≡ ok h
        → h + length bs < 2 ^ 64
        → (get_max_block_height m n'.db ≡ ok (h + length bs))
          × IsStacked m n' h bs
          × ((i : ℕ) → i ≤ h → get_hash m i n'.db ≡ get_hash m i n.db)
    calls_stack n _ h _ start top fits = (top ∙ ap ok (omega arith), tt, λ i le. refl)
    calls_stack n n' h _ (accepted {bs = bs} {n1 = n1} b stored calls size added) top fits =
        let (below, stacked, old) = calls_stack n n1 h bs calls top (omega arith) in
        let ((prev, was, next), now, hash) =
          add_block-height m laws digest commits b stored n1 n' size added in
        let prev_is : prev ≡ h + length bs = cc (was, below) in
        let height_is : b.height ≡ h + suc (length bs) = omega (arith, next) in
        let kept : (i : ℕ) → i ≤ h + length bs → get_hash m i n'.db ≡ get_hash m i n1.db = λ i le.
          add_block-other m laws digest commits b stored n1 n' size added i (omega arith)
            (λ e. omega arith) in
        (
          now ∙ ap ok height_is,
          (rw (← height_is) hash, IsStacked-kept n1 n' h bs kept stacked),
          λ i le. kept i (omega arith) ∙ old i le,
        )
    calls_stack n n' h bs (refused {n1 = n1} b e calls out) top fits =
        let same : n'.db ≡ n1.db = add_block-store m b n1 n' e out in
        let (below, stacked, old) = calls_stack n n1 h bs calls top fits in
        (
          rw same below,
          IsStacked-kept n1 n' h bs (λ i le. ap (get_hash m i) same) stacked,
          λ i le. ap (get_hash m i) same ∙ old i le,
        )
