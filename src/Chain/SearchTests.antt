-- ===== src/Chain/SearchTests.antt =====
-- A run of `FindChainBranch` on a store of one block.
use korthochain.Common.{
  ◌≡◌, refl, sym, subst, [], false, arith, append-nil, inl, inr, Bool-cases, if◌then◌else◌,
}
use korthochain.Common.Bytes.{Bytes, bytes_eq, bytes_eq_self, bytes_eq→eq}
use korthochain.Common.Digits.{replicate, fixed_digits}
use korthochain.Common.Outcome.{ok, err}
use korthochain.Codec.{e64func}
use korthochain.Store.{not_exist}
use korthochain.Store.Tests.{Contents}
use korthochain.Wire.{wrong_type, read_header, expect}
use korthochain.Wire.Blocks.{
  Block, big_bytes, marshal_fields, deserialize, serialize, marshal_block, unmarshal_block,
  unmarshal_bytes,
}
use korthochain.Wire.BlockRoundTrip.{deserialize-serialize}
use korthochain.Wire.Tests.{coding, read, write, coding-IsCbor, block, block-IsBlock, big_size}
use korthochain.Chain.{of_wire, of_store, hash_key, get_block_by_hash}
use korthochain.Chain.Branch.{Descends, Ends, find_chain_branch-Ends}
use korthochain.Chain.Tests.{machine}

abbrev pub top : Bytes
top = replicate 32 4

abbrev one_block : Contents
one_block = λ j.
    if bytes_eq j top
    then ok (marshal_fields coding block 70000 300)
    else (if bytes_eq j (hash_key 7) then ok top else err not_exist)

pub decoded : deserialize coding (marshal_fields coding block 70000 300) ≡ ok block
unfolding big_bytes coding serialize marshal_block
decoded =
    let (bytes, wrote, back) =
      deserialize-serialize coding coding-IsCbor block 70000 300 [] block-IsBlock
        (omega (arith, big_size.0), omega (arith, big_size.0))
        (omega (arith, big_size.1), omega (arith, big_size.1)) refl refl in
    let same : marshal_fields coding block 70000 300 ≡ bytes = cc wrote in
    rw same (rw (← append-nil bytes) back)

at_top : get_block_by_hash machine top one_block ≡ ok block
unfolding get_block_by_hash
at_top = rw (bytes_eq_self top) (rw decoded refl)

no_block : deserialize coding top ≡ err wrong_type
unfolding deserialize coding read write replicate unmarshal_block unmarshal_bytes read_header expect
no_block = refl

at_key : get_block_by_hash machine (hash_key 7) one_block ≡ err (of_wire wrong_type)
unfolding get_block_by_hash bytes_eq e64func fixed_digits replicate
at_key = rw no_block refl

elsewhere :
    (hash : Bytes)
    → bytes_eq hash top ≡ false
    → bytes_eq hash (hash_key 7) ≡ false
    → get_block_by_hash machine hash one_block ≡ err (of_store not_exist)
unfolding get_block_by_hash
elsewhere hash h k = rw (h, k) refl

below_top : get_block_by_hash machine block.prev_hash one_block ≡ err (of_store not_exist)
unfolding bytes_eq e64func fixed_digits replicate
below_top = elsewhere block.prev_hash refl refl

one_block-Descends : Descends machine one_block
one_block-Descends hash b before found at_before = elim (Bool-cases (bytes_eq hash top)) [
  | inl same ↦
      let e : hash ≡ top = bytes_eq→eq hash top same in
      let is_block : block ≡ b = cc (at_top, found, e) in
      let at_prev : get_block_by_hash machine block.prev_hash one_block ≡ ok before =
        subst (λ (k : Block). get_block_by_hash machine k.prev_hash one_block ≡ ok before)
          (sym is_block) at_before in
      absurd (cc (at_prev, below_top))
  | inr other ↦ elim (Bool-cases (bytes_eq hash (hash_key 7))) [
    | inl same ↦
        let e : hash ≡ hash_key 7 = bytes_eq→eq hash (hash_key 7) same in
        absurd (cc (at_key, found, e))
    | inr none_here ↦ absurd (cc (elsewhere hash other none_here, found))
  ]
]

find_chain_branch-Ends_example : Ends machine one_block 9 top
find_chain_branch-Ends_example =
    find_chain_branch-Ends machine one_block one_block-Descends top block at_top
