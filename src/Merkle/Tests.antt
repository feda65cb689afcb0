-- ===== src/Merkle/Tests.antt =====
-- Trees of three pieces under a hash that gives only the length of a text.
use korthochain.Common.{◌≡◌, ◌⊎◌, refl, arith, List, [], ◌∷◌, some, length}
use korthochain.Common.Bytes.{Bytes}
use korthochain.Common.Digits.{replicate, length-replicate}
use korthochain.Merkle.{Node, root_of, get_mt_hash, power_of_two}
use korthochain.Merkle.Whole.{IsTree, get_mt_hash-IsTree}
use korthochain.Merkle.Binding.{Collision, get_mt_hash-binds}

abbrev size_hash : Bytes → Bytes
size_hash x = replicate 32 (length x)

abbrev pieces : List Bytes
pieces = (1 ∷ []) ∷ (2 ∷ []) ∷ (3 ∷ []) ∷ []

abbrev others : List Bytes
others = (1 ∷ []) ∷ (3 ∷ []) ∷ (2 ∷ []) ∷ []

splits : (power_of_two 3 ≡ 2) × (power_of_two 8 ≡ 4) × (power_of_two 9 ≡ 8)
unfolding power_of_two
splits = (refl, refl, refl)

get_mt_hash-IsTree_example :
    (t : Node) × (get_mt_hash size_hash pieces ≡ some (root_of t)) × IsTree size_hash pieces t
get_mt_hash-IsTree_example =
    get_mt_hash-IsTree size_hash pieces (omega arith)
      (omega arith, (omega arith, (omega arith, tt)))

same_root : get_mt_hash size_hash pieces ≡ get_mt_hash size_hash others
unfolding get_mt_hash replicate power_of_two
same_root = refl

get_mt_hash-binds_example : (pieces ≡ others) ⊎ Collision size_hash
get_mt_hash-binds_example =
    get_mt_hash-binds size_hash (λ x. length-replicate 32 (length x)) pieces others (omega arith)
      refl (omega arith, (omega arith, (omega arith, tt)))
      (omega arith, (omega arith, (omega arith, tt))) same_root
