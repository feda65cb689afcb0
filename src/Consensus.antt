-- ===== src/Consensus.antt =====
-- pkg/consensus: how a block that comes in joins the chain, starts a branch or waits for its
-- parent.
pub mod Orphans
pub mod Accept
pub mod Process
pub mod Branching
pub mod Accepted
pub mod Waiting
pub mod Settled
pub mod Received
mod Tests
use korthochain.Common.{ℕ, ◌<◌, ◌≡◌, ◌^◌, List, Bool, true, false, if◌then◌else◌}
use korthochain.Common.Bytes.{Bytes}
use korthochain.Common.Outcome.{Result, ok, err}
use korthochain.Common.Action.{Action, pure, raise}
use korthochain.Common.Keeps.{Keeps}
use korthochain.Wire.Blocks.{Block}

-- A call that panicked, and a loop whose turns did not suffice.
pub data ConsensusError : Type 0 where
  panicked out_of_turns : ConsensusError

-- The interface `Blockchains` of pkg/blockchain/interface.go, as far as this package calls it, on
-- the state `N` of the chain. `panics` tells the errors that stand for a panic.
pub record Blockchains (N E : Type 0) : Type 0 where
  pub tip : N → Result E Block
  pub get_block_by_hash : Bytes → N → Result E Block
  pub get_max_block_height : N → Result E ℕ
  pub check_block_regular : Block → N → Result E (Unit {0})
  pub add_block : Block → Action N E Block
  pub add_uncle_block : Block → Action N E (Unit {0})
  pub delete_uncle_block : Block → Action N E (Unit {0})
  pub reorganize_chain : List Bytes → ℕ → Action N E (Unit {0})
  pub panics : E → Bool

-- By an age of hashes, a block under a hash comes after its parent, and no age is 2 ^ 64 or more.
abbrev pub IsAfter : (Bytes → ℕ) → Bytes → Block → Type 0
IsAfter age hash b = (age b.prev_hash < age hash) × (age hash < 2 ^ 64)

abbrev pub IsOrdered : (Bytes → ℕ) → Block → Type 0
IsOrdered age b = IsAfter age b.hash b

-- In this state every stored block comes after its parent.
abbrev pub IsStoredAfter : {N E : Type 0} → Blockchains N E → (Bytes → ℕ) → N → Type 0
IsStoredAfter bc age n =
    (hash : Bytes) (b : Block) → bc.get_block_by_hash hash n ≡ ok b → IsAfter age hash b

-- What this package needs of a chain whose states satisfy `I`: a stored block comes after its parent,
-- and the calls that change the chain keep `I`, where a block that is added comes after its parent.
-- The last is asked of the block, since AddUncleBlock stores whatever it is given.
pub record Lawful {N E : Type 0} (bc : Blockchains N E) (age : Bytes → ℕ) (I : N → Type 0)
    : Type 0 where
  pub stored-after : (n : N) → I n → IsStoredAfter bc age n
  pub add-keeps : (b : Block) → IsOrdered age b → Keeps I (bc.add_block b)
  pub add_uncle-keeps : (b : Block) → IsOrdered age b → Keeps I (bc.add_uncle_block b)
  pub delete_uncle-keeps : (b : Block) → Keeps I (bc.delete_uncle_block b)
  pub reorganize-keeps :
      (hashs : List Bytes) (height : ℕ) → Keeps I (bc.reorganize_chain hashs height)

module _ {N E : Type 0} (bc : Blockchains N E) where
  abbrev pub succeeded : {A : Type 0} → Result E A → Result ConsensusError Bool
  succeeded (ok a) = ok true
  succeeded (err e) = if bc.panics e then err panicked else ok false

  -- What follows an error that is only logged.
  abbrev pub refuse : {S A : Type 0} → E → A → Action S ConsensusError A
  refuse e a = if bc.panics e then raise panicked else pure a

  -- A call of which only the error counts.
  abbrev pub attempt : {A : Type 0} → Action N E A → Action N ConsensusError Bool
  attempt m n = let (r, n') = m n in (succeeded r, n')
