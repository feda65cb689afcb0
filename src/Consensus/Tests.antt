-- ===== src/Consensus/Tests.antt =====
-- Runs of pkg/consensus on a chain of blocks whose hashes start with their heights.
use korthochain.Common.{
  ℕ, suc, ◌-◌, ◌≡◌, refl, subst, List, [], ◌∷◌, Bool, true, false, Option, none, some, ◌==◌, arith,
  inl, inr, Bool-cases, if◌then◌else◌, All,
}
use korthochain.Common.Bytes.{Bytes, bytes_eq, bytes_eq→eq}
use korthochain.Common.Dict.{lookup_key, put_key, delete_key}
use korthochain.Common.Digits.{replicate}
use korthochain.Common.Outcome.{Result, ok, err}
use korthochain.Common.Runs.{Ended}
use korthochain.Wire.Blocks.{Block}
use korthochain.Wire.Tests.{block}
use korthochain.Consensus.{Blockchains, Lawful, IsAfter, IsOrdered}
use korthochain.Consensus.Orphans.{add_orphan_block, bytes_to_hash}
use korthochain.Consensus.Accept.{find_branch_point}
use korthochain.Consensus.Branching.{Meets, find_branch_point-Meets}
use korthochain.Consensus.Process.{BlockChain, process_orphan, process_block}
use korthochain.Consensus.Settled.{Good, Settled, Stops, process_orphan-Settled}
use korthochain.Consensus.Received.{process_block-Good}

abbrev fork_hash : ℕ → ℕ → Bytes
fork_hash tag i = i ∷ tag ∷ replicate 30 0

abbrev number : Bytes → ℕ
number [] = 0
number (i ∷ is) = i

abbrev tag_of : Bytes → ℕ
tag_of [] = 0
tag_of (i ∷ []) = 0
tag_of (i ∷ j ∷ is) = j

-- The blocks of a fork of the chain, which starts above the first block.
abbrev fork : ℕ → ℕ → Block
fork tag i = record block {
  height = i;
  hash = fork_hash tag i;
  prev_hash = fork_hash (if i == 2 then 0 else tag) (i - 1);
  global_difficulty = some 7;
}

abbrev nth : ℕ → Block
nth = fork 0

-- The last block of the main chain, and the blocks under their hashes.
record Stored : Type 0 where
  top : Block
  known : List (Bytes × Block)

abbrev found : {A : Type 0} → Option A → Result (Unit {0}) A
found none = err tt
found (some a) = ok a

abbrev put_block : Block → Stored → Stored
put_block b n = record n { known = put_key b.hash b n.known }

abbrev append_block : Block → Bool → Stored → Result (Unit {0}) Block × Stored
append_block b true n = (ok b, record (put_block b n) { top = b })
append_block b false n = (err tt, n)

abbrev set_top : Option Block → Stored → Result (Unit {0}) (Unit {0}) × Stored
set_top none n = (err tt, n)
set_top (some b) n = (ok tt, record n { top = b })

-- The tip becomes the first block of the branch.
abbrev switch_to : List Bytes → Stored → Result (Unit {0}) (Unit {0}) × Stored
switch_to [] n = (err tt, n)
switch_to (hash ∷ hashs) n = set_top (lookup_key hash n.known) n

-- As in pkg/blockchain, a block goes on the tip only where the heights agree, and an uncle is stored
-- as it is.
abbrev short : Blockchains Stored (Unit {0})
short = record {
  tip = λ n. ok n.top;
  get_block_by_hash = λ hash n. found (lookup_key hash n.known);
  get_max_block_height = λ n. ok n.top.height;
  check_block_regular = λ b n. ok tt;
  add_block = λ b n. append_block b (b.height == suc n.top.height) n;
  add_uncle_block = λ b n. (ok tt, put_block b n);
  delete_uncle_block = λ b n. (ok tt, record n { known = delete_key b.hash n.known });
  reorganize_chain = λ hashs height. switch_to hashs;
  panics = λ _. false;
}

-- Each entry comes after its parent, by the height that the hash starts with.
abbrev Sound : Stored → Type 0
Sound n = All (λ (p : Bytes × Block). IsAfter number p.0 p.1) n.known

lookup-IsAfter :
    (k : Bytes) (d : List (Bytes × Block)) (b : Block)
    → All (λ (p : Bytes × Block). IsAfter number p.0 p.1) d
    → found (lookup_key k d) ≡ ok b
    → IsAfter number k b
unfolding lookup_key
lookup-IsAfter k [] b h e = absurd (cc e)
lookup-IsAfter k ((j, c) ∷ d) b h e = elim (Bool-cases (bytes_eq j k)) [
  | inl hit ↦
      let same : c ≡ b = cc (e, hit) in
      subst (λ i. IsAfter number i b) (bytes_eq→eq j k hit) (subst (IsAfter number j) same h.0)
  | inr miss ↦ lookup-IsAfter k d b h.1 (cc (e, miss))
]

delete-Sound :
    (k : Bytes) (d : List (Bytes × Block))
    → All (λ (p : Bytes × Block). IsAfter number p.0 p.1) d
    → All (λ (p : Bytes × Block). IsAfter number p.0 p.1) (delete_key k d)
unfolding delete_key
delete-Sound k [] h = tt
delete-Sound k ((j, c) ∷ d) h = elim (Bool-cases (bytes_eq j k)) [
  | inl hit ↦ rw hit (delete-Sound k d h.1)
  | inr miss ↦ rw miss (h.0, delete-Sound k d h.1)
]

append-Sound :
    (b : Block) (fits : Bool) (n : Stored)
    → IsOrdered number b
    → Sound n
    → Sound (append_block b fits n).1
append-Sound b true n young h = (young, h)
append-Sound b false n young h = h

set_top-Sound : (b : Option Block) (n : Stored) → Sound n → Sound (set_top b n).1
set_top-Sound none n h = h
set_top-Sound (some b) n h = h

switch-Sound : (hashs : List Bytes) (n : Stored) → Sound n → Sound (switch_to hashs n).1
switch-Sound [] n h = h
switch-Sound (hash ∷ hashs) n h = set_top-Sound (lookup_key hash n.known) n h

abbrev lawful : Lawful short number Sound
lawful = record {
  stored-after = λ n h hash b e. lookup-IsAfter hash n.known b h e;
  add-keeps = λ b young. record { at = λ n h. append-Sound b _ n young h };
  add_uncle-keeps = λ b young. record { at = λ n h. (young, h) };
  delete_uncle-keeps = λ b. record { at = λ n h. delete-Sound b.hash n.known h };
  reorganize-keeps = λ hashs height. record { at = λ n h. switch-Sound hashs n h };
}

abbrev entry : Block → Bytes × Block
entry b = (b.hash, b)

-- A main chain of three blocks, and a branch that leaves it after the first.
abbrev forked : Stored
forked = record {
  top = nth 3;
  known = entry (nth 3) ∷ entry (nth 2) ∷ entry (nth 1) ∷ entry (fork 1 3) ∷ entry (fork 1 2) ∷ [];
}

forked-Sound : Sound forked
forked-Sound = (
  (omega arith, omega arith),
  (
    (omega arith, omega arith),
    ((omega arith, omega arith), ((omega arith, omega arith), ((omega arith, omega arith), tt))),
  ),
)

nth_4-IsOrdered : IsOrdered number (nth 4)
nth_4-IsOrdered = (omega arith, omega arith)

-- A chain of three blocks, where the fifth and the sixth wait.
abbrev waiting : BlockChain Stored
waiting = record {
  chain = forked;
  orphans =
      add_orphan_block 0 (nth 6)
        (add_orphan_block 0 (nth 5) (record { by_hash = []; by_prev = [] }));
}

-- When the fourth comes they follow.
three_more :
    let (r, c) = process_block short 1 (nth 4) waiting in
    (r ≡ ok true) × (c.chain.top.height ≡ 6) × (c.orphans.by_prev ≡ [])
unfolding process_block bytes_eq lookup_key
three_more = (refl, refl, refl)

-- A fourth block of the branch makes it the main chain.
branch_wins :
    let (r, c) = process_block short 1 (fork 1 4) waiting in
    (r ≡ ok true) × (c.chain.top ≡ fork 1 4)
unfolding process_block find_branch_point bytes_eq lookup_key replicate
branch_wins = (refl, refl)

-- One on the second block of the main chain is kept beside it.
branch_kept :
    let (r, c) = process_block short 1 (record (fork 2 3) { prev_hash = fork_hash 0 2 }) waiting in
    (r ≡ ok false)
    × (c.chain.top ≡ nth 3)
    × (short.get_block_by_hash (fork_hash 2 3) c.chain
        ≡ ok (record (fork 2 3) { prev_hash = fork_hash 0 2 }))
unfolding process_block bytes_eq lookup_key replicate
branch_kept = (refl, refl, refl)

waiting-Good : Good short lawful waiting
unfolding add_orphan_block bytes_eq
waiting-Good = (
  forked-Sound,
  (((refl, (omega arith, omega arith)), tt), (((refl, (omega arith, omega arith)), tt), tt)),
)

process_orphan-Settled_example :
    Ended
      (Settled short lawful (bytes_to_hash (nth 4).hash))
      (Stops short lawful)
      (process_orphan short (nth 4) waiting)
process_orphan-Settled_example = process_orphan-Settled short lawful (nth 4) waiting waiting-Good

process_block-Good_example :
    Ended (λ _. Good short lawful) (Stops short lawful) (process_block short 1 (nth 4) waiting)
process_block-Good_example =
    process_block-Good short lawful 1 (nth 4) waiting nth_4-IsOrdered waiting-Good

-- The branch meets the main chain at the first block.
forks_meet :
    find_branch_point short (fork_hash 1 3) (fork_hash 0 3) forked
    ≡ some (ok (fork_hash 1 3 ∷ fork_hash 1 2 ∷ [], 2))
unfolding find_branch_point bytes_eq replicate lookup_key
forks_meet = refl

find_branch_point-Meets_example :
    Meets short forked
      (fork_hash 0 3)
      (fork_hash 1 3)
      []
      (find_branch_point short (fork_hash 1 3) (fork_hash 0 3) forked)
find_branch_point-Meets_example =
    find_branch_point-Meets short forked number
      (λ hash b e. lookup-IsAfter hash forked.known b forked-Sound e) (fork_hash 1 3)
      (fork_hash 0 3)
