-- ===== src/Lib.antt =====
-- Epic: a proof-of-work chain with confidential transactions. The parts below are those that fix the
-- state all nodes agree on: the Merkle mountain ranges that commit to outputs, range proofs, kernels
-- and headers, the emission of coins, and transactions with their bytes.
--
-- Base: the names all modules share; Base.Bits has powers of 2, the bitwise operations, the count of
-- ones and of leading zeros of a word.
--
-- Pmmr (core/src/core/pmmr): a range lists the nodes of a row of full binary trees in postorder, from
-- position 1 on. Pmmr.Index has the free functions of pmmr.rs, under their names; a loop of the source
-- is a function on fuel named after it (peaks_loop, sizes_loop, map_loop, path_loop, branch_loop).
-- A `while peak_size != 0` loop halves a u64, so 64 rounds are enough; `path` and `family_branch`
-- climb at least one position a round, so `last_pos + 1` rounds are. Pmmr.Index.Place gives each node
-- coordinates, a level and a place on it, and its position; the other children of Pmmr.Index read
-- the functions by these. Positions wrap at 2 ^ 64 where the source adds or shifts; the theorems bound
-- the leaves so that nothing wraps.
-- Pmmr.Backend has the trait of backend.rs as a record of operations on a store, with the hash
-- functions as parameters. The record Appends states what the trait's documentation says of `append`:
-- the hashes go to the next positions, and the others stay.
-- Pmmr.Range has the methods of `PMMR` over a backend; a method returns the new range. The loop of
-- `push` has 65 rounds: each climbs one level, and a range below 2 ^ 64 positions has fewer levels.
-- Pmmr.Proof has the verification of a Merkle proof (merkle_proof.rs).
--
-- Consensus (core/src/consensus.rs): Consensus.Emission has the schedule of rewards, the levy of the
-- foundation and the sum that checks the supply. A product of an amount and an f64 of the source is
-- the exact product with the nearest f64 to the written decimal, rounded to 53 binary digits, ties to
-- even, then truncated. The chain type, global in the source, is an argument. An assertion that fails
-- is `none`. `1 << exp` takes the shift modulo 64, as a release build does.
--
-- Consensus.Retarget has the window of headers of global.rs and the difficulty of the next block. A
-- Difficulty is a function from the algorithms; a cursor is the list of its headers, the newest first.
-- The last lines of the three functions of the first era differ in a constant only and are one
-- function, as are those of `next_cuckoo_difficulty`. Base.Signed has the `i64` arithmetic, which
-- wraps around there as in a release build.
--
-- Consensus.Policy (core/src/core/block/feijoada.rs) has the policies on algorithms that a height
-- allows, and the bottles; a `Policy` is a function from the algorithms.
--
-- Ser (core/src/ser.rs, core/src/core/hash.rs): a writer gives a list of bytes and a reader takes from
-- the front of one. The byte order (byteorder) and the digest (Blake2b) are the record Packages; the
-- record ReadsBack states that a word read from its bytes is the word. Base.Results has `Result`.
-- Commitments, blinding factors, signatures and hashes are their bytes.
--
-- Transaction (core/src/core/transaction.rs): Transaction.Kernel and Transaction.Outputs have the items,
-- Transaction.Body bodies and transactions, how they are read, and the light checks,
-- Transaction.Aggregate the full validation, aggregate and deaggregate. The order of items is that of
-- their hashes, as numbers; Transaction.Sorting has the sort and the insertion by binary search, which
-- the vectors' order makes unique. Transaction.CutThrough has the loop that copies in place; each
-- round moves on in one of the two vectors, so the sum of their lengths is enough fuel.
-- Committed (core/src/core/committed.rs) has the sums of commitments over the record Curve, the
-- functions of secp256k1. A failure of those functions stands by a number. Where the sums unwrap a
-- `commit_value` that fails, the source panics, and the model goes on with no bytes.
--
--
-- Pow (core/src/pow/types.rs): Pow.Maps has the arithmetic and the bytes of the maps from the
-- algorithms, difficulties and bottles; Pow.Proof the proofs with their packed bits. A reader of a proof
-- may panic, which is `none` around its result. Of `is_utf8` nothing is taken for granted.
-- Block (core/src/core/block.rs): Block.Header and Block.Checks. The first and the last date are a
-- parameter, as is the foundation's output at a height, which a file holds; a timestamp stands in
-- seconds.
--
-- Pool (pool/src): Pool.Entries has the methods of `Pool` over the list of its entries, Pool.Buckets the
-- buckets, whose sort is stable here and not in the source, Pool.Admission the `TransactionPool`: a
-- method gives the next state beside its result. The chain and the adapter are the record Node, the
-- time of a call is an argument, and what the adapter was told is a list.
--
-- Store (store/src): Store.File has the append-only files of types.rs whose elements have one size, with
-- the content on the disk beside the buffer and the memory map, and Store.Log what they promise. An
-- error of the disk, and a crash in the middle of a flush, are left out. Store.PruneList has the caches
-- of the prune list over the record Bitmaps, the functions of croaring. A position there wraps at
-- 2 ^ 32, and an index out of range, which panics, is `none`. Store.Roots has the nodes and the leaves of
-- the trees that the roots stand for.
--
-- Chain (chain/src/pipe.rs): Chain.Headers has validate_header, cut into its parts in their order, and the
-- checks of known blocks. The record BlockContext holds what the database answers, the clock and the
-- configuration; the two checks of the time that only log are left out. Chain.Difficulty has what the
-- checks use of core/src/pow. A check gives a result or, where the code panics, `none`. Chain.Conditions
-- writes each condition on a header without the code's tests.
--
-- Not modelled: `timestamp_median`, building and hydrating blocks, compact
-- blocks, the readers of streams, files with elements of several sizes, the leaf set, the backend on files, the short identifiers of the pool, the choice of the algorithm, blocks in the pipeline of the chain, the network and the servers; the cryptography, which is
-- of other packages; `snapshot` and the `dump` methods of `PMMR`, which only pass on or print.
pub mod Base
pub mod Pmmr
pub mod Consensus
pub mod Ser
pub mod Transaction
pub mod Committed
pub mod Pow
pub mod Block
pub mod Pool
pub mod Store
pub mod Chain
