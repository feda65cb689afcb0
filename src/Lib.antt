-- ===== src/Lib.antt =====
-- A model of the korthochain node: the accounts of the chain and what a transaction does to them,
-- the pool that orders transactions and picks those for a block, addresses, the binary forms of
-- transactions and blocks, the chain that adds blocks to the store, the consensus that takes blocks
-- in, the difficulty of the next block, the Merkle tree over a block's data, the rewards, the tokens
-- of contracts, and the lists of the store.
--
-- The parts, and the files of the repository that they stand for:
--
-- - Common: byte strings, uint64 arithmetic with its wrap-around written out (`+64`, `-64`, `*64`),
--   numbers in a base, results with errors (`Outcome`), and calls that change a state and may fail
--   (`Action`); after an error the state comes back as it was then, since the code does not undo
--   its writes.
-- - Codec: pkg/storage/miscellaneous/miscellaneous.go, with the same functions at the end of
--   pkg/contract/parser/operate.go. `e32func` is E32func, `eslice` is Eslice, and so on.
-- - Address: pkg/address/address.go and pkg/util/addrcodec. `Address.Base58` is EncodeAddr and
--   DecodeAddr; `Address.Hex` is the text form that encoding/hex gives.
-- - Transaction: the types of pkg/transaction.
-- - Ledger: pkg/blockchain/state.go (setNonce, setBalance, setAccount, setToAccount, setMinerFee),
--   the reads getBalance, getNonce and getAvailableBalance, and in `Ledger.Freeze` the locks of
--   pkg/blockchain/freeze.go. setAccount is one function there and here a choice between
--   `set_account_withdraw`, `charge_gas`, `break_pledge` and `transfer`, after `check_available`.
-- - Wire: the methods MarshalCBOR and UnmarshalCBOR of pkg/address, pkg/crypto/signature.go,
--   pkg/transaction and pkg/block/types.go.
-- - Pool: the ...PreCalculated methods and getTraderInfo of pkg/txpool/pool.go, and
--   pkg/util/math/overflow.go; in `Pool.Queue` the ordered queue of pkg/txpool/queue.go, and in
--   `Pool.Selection` Add and Pending of pool.go, which work on that queue; `Pool.Eviction` is the rest
--   of pool.go (AddList, FilterTransaction, cacheOutSignedTransaction and the searches).
-- - Consensus: pkg/consensus. `Consensus.Orphans` is the pool of orphans (AddOrphanBlock,
--   removeOrphanBlock), `Consensus.Accept` maybeAcceptBlock and FindBranchPoint, and
--   `Consensus.Process` ProcessOrphan and ProcessBlock. The other files carry the proofs.
-- - Difficulty: pkg/util/difficulty/difficulty.go, which blockchain.go has a copy of, and in
--   `Difficulty.Update` updateDifficulty of blockchain.go.
-- - Contract: the scripts of pkg/contract/parser/otypes.go. `Read` into a receiver takes the receiver
--   as an argument, since it keeps what it does not overwrite. `Contract.Tokens` is deal0 to deal4 of
--   pkg/contract/exec/exec.go (`deal_new`, `deal_mint`, `deal_transfer`, `deal_freeze`,
--   `deal_unfreeze`), on the map of figures that a run of scripts fills.
-- - Store: pkg/storage/store/bg/bg.go, on a transaction of badger (`Kv`): entries of maps, and in
--   `Store.Lists` the lists (`lrpush`, `llpush`, `lrpop`, `llpop`, `lset`, `lindex`).
-- - Chain: pkg/blockchain/blockchain.go. `Chain` has the reads (getMaxBlockHeight, getBlockByHeight,
--   Tip and so on), `Chain.Apply` the loop of AddBlock over the transactions, `Chain.AddBlock`
--   AddBlock, cut where it touches the store: `check_old_root`, `put_height`, `apply_all`,
--   `new_root`, `put_block`, then the commit, and after an error `roll_state`. `Chain.Branch` is
--   FindChainBranch, `Chain.Uncles` AddUncleBlock and DeleteUncleBlock, `Chain.TempBlock` is AddTempBlock of addAndDel.go, `Chain.Delete` its
--   DeleteTempBlockTest (`delete_down` is the loop over the heights, with as many turns as there
--   are heights from the chain's down to the one that is asked for), `Chain.DeleteBlock` is
--   DeleteBlock with a commit in each turn, `Chain.CheckBlock` is checkBlockRegular, and
--   `Chain.Reorganize` is ReorganizeChain, built from these. `Chain.Frame`, `Chain.Build`,
--   `Chain.Laws`, `Chain.Back` and `Chain.TakeOff` carry the proofs: which keys each part leaves
--   alone, and what the store holds after all of them.
-- - Merkle: pkg/storage/merkle, New and GetMtHash. The hash function is a parameter.
-- - Rewards: GetMinerAmount of pkg/blockchain/types.go, distr, getWholeNetworkNum and getBasePledge
--   of blockchain.go, and checkGas of checkblock.go.
--
-- How they interact: the pool asks the chain through the record `Pool.Chain`, which
-- `Pool.Settles.chain_of` fills with the ledger's reads; the ledger names accounts by the addresses
-- of `Address`, and keeps frozen amounts as balances of further accounts; `Wire` reads and writes
-- the records that the ledger and the pool work on. The chain calls the ledger for each transaction
-- of a block and keeps the block in the store in the form of `Wire`; its state is the store's
-- transaction beside the StateDB (`Work`), and between blocks the committed store beside it (`Node`).
--
-- The consensus calls the chain through the record `Blockchains`, after the interface of that name;
-- what it needs of the chain is the record `Lawful`, by an age of hashes: a stored block comes after
-- its parent, and adding a block that does so keeps that. This is asked of the blocks that come in
-- and of the orphans, since AddUncleBlock stores whatever it is given. `Consensus.Tests` fills
-- `Lawful` for a store of blocks under their hashes; for the chain of `Chain` it is not proved.
--
-- Code outside the repository is a parameter. `Ledger.State.Env` holds a state of go-ethereum's
-- StateDB, the digest SHA-1 and reads of the store, with `IsStateDb` for what writing a balance
-- does to later reads. `Wire.Cbor` holds the coding of headers of cbor-gen, with `IsCbor`: a header
-- that was written is read back. `Store.Kv` is a transaction of badger, with `IsKv`: within the
-- limits on its size it takes every key, and a key holds what was last written to it.
-- `Chain.Machine` adds the commit of such a transaction, the commit of the StateDB and its trie,
-- the digest SHA-256, encoding/json for index entries, and what the bridge to the virtual machine
-- does to the state (handleContractTransaction, which is the repository's own code and is not
-- modelled). The modules named Tests give both in concrete form. A writer
-- into a buffer cannot fail; a reader is the list of the bytes that are left.
--
-- Bounds and termination: every loop is a structural recursion on the list or on the count that it
-- runs over; the digits of a number are computed with the number itself as fuel, which is enough
-- as each step divides by the base; the levels of a Merkle tree are fewer than its leaves. FindChainBranch is a loop without a bound; `find_chain_branch`
-- takes a number of turns, and the height of the block with two more is enough where every block is
-- higher than the one before it. FindBranchPoint is given 2 ^ 64 + 1 turns, which is enough where an
-- age of hashes below 2 ^ 64, such as the height, falls from a block to its parent, and
-- ProcessOrphan two for each orphan and one for each hash, which is enough where each orphan stands
-- under the hash of its parent. int64 bounds of a list are kept in two's complement. Amounts are
-- natural numbers, with hypotheses that they are below 2 ^ 64 where the code keeps them in uint64.
-- A panic is an error value of its own, also that of `String` on an address without a text, which
-- AddBlock and others call for a log line.
--
-- factCommit writes the nodes of the state's trie to the store that holds the blocks, under their
-- digests and outside the transaction. The model keeps these nodes with the state, apart from the
-- store: what a theorem says of the store is about the keys that the transactions write.
--
-- Not modelled: other log output, locks around whole calls, signatures, the virtual machine with its
-- bridge, the network, the iterators, sets and sorted sets of the store, NewBlock, the test of the difficulty of a block (a parameter of `check_block_regular`: it computes
-- with floating-point numbers of math/big), the pledge maps and the distribution of rewards, the
-- parser of token contracts and the flush of their figures, and the proof paths of the Merkle tree.
pub mod Common
pub mod Codec
pub mod Address
pub mod Transaction
pub mod Ledger
pub mod Wire
pub mod Pool
pub mod Store
pub mod Chain
pub mod Rewards
pub mod Consensus
pub mod Difficulty
pub mod Merkle
pub mod Contract
