-- ===== src/Merkle.antt =====
-- pkg/storage/merkle: the tree over the data of a block and its root hash. A nil node is `none`.
pub mod Powers
pub mod Binding
pub mod Whole
mod Tests
use Prim.Native.Nat.{bit_and}
use korthochain.Common.{
  ℕ, zero, suc, ◌-◌, ◌/◌, List, [], ◌∷◌, ◌++◌, Option, none, some, ◌==◌, if◌then◌else◌, length,
  take, drop,
}
use korthochain.Common.Bytes.{Bytes}

-- `n & (n - 1)`: without the lowest bit that is set.
abbrev pub cleared : ℕ → ℕ
cleared n = bit_and n (n - 1)

-- `powerOfTwo0`, for at most so many turns.
unfoldable pub power_of_two0 : ℕ → ℕ → ℕ
power_of_two0 zero n = n
power_of_two0 (suc turns) n =
    let rest = power_of_two0 turns (cleared n) in if cleared n == 0 then n else rest

-- `powerOfTwo`: the highest power of two below `n`.
unfoldable pub power_of_two : ℕ → ℕ
unfolding power_of_two0
power_of_two n = if cleared n == 0 then n / 2 else power_of_two0 n n

-- `MerkleNode`; the root comes last.
pub data Node : Type 0 where
  leaf : Bytes → Bytes → Node
  branch : Node → Node → Bytes → Node

-- `getMKRoot`
abbrev pub root_of : Node → Bytes
root_of (leaf data_ root) = root
root_of (branch l r root) = root

abbrev pub root_hash : Option Node → Option Bytes
root_hash none = none
root_hash (some n) = some (root_of n)

module _ (hash : Bytes → Bytes) where
  -- `mkLeaf`
  abbrev pub mk_leaf : Bytes → Option Node
  mk_leaf [] = none
  mk_leaf (b ∷ bs) = some (leaf (b ∷ bs) (hash (b ∷ bs)))

  -- `mkBranch`
  abbrev pub mk_branch : Option Node → Option Node → Option Node
  mk_branch none r = none
  mk_branch (some l) none = none
  mk_branch (some l) (some r) = some (branch l r (hash (root_of l ++ root_of r)))

  -- `mkMerkleTreeRoot`, to at most so many levels; its count is the length of the data.
  unfoldable pub mk_tree : ℕ → List Bytes → Option Node
  mk_tree levels [] = none
  mk_tree levels (x ∷ []) = mk_leaf x
  mk_tree zero (x ∷ y ∷ xs) = none
  mk_tree (suc levels) (x ∷ y ∷ xs) =
      let i = power_of_two (length (x ∷ y ∷ xs)) in
      mk_branch (mk_tree levels (take i (x ∷ y ∷ xs))) (mk_tree levels (drop i (x ∷ y ∷ xs)))

  -- `New` and `GetMtHash`: `none` stands for a tree without a node, of which GetMtHash panics, and for
  -- no tree.
  unfoldable pub get_mt_hash : List Bytes → Option Bytes
  unfolding mk_tree
  get_mt_hash xs = root_hash (mk_tree (length xs) xs)
