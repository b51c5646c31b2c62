-- ===== src/Lib.antt =====
-- A model of the consensus data of darcoin, a node of a Bitcoin-like currency: transactions and their
-- rules, the encodings of numbers, scripts and their execution, Merkle trees, the unspent outputs with
-- the caches that hold them, and how a block's transactions move them forward and back.
--
-- Parts, with the files of the repository:
-- Validation: CValidationState (main.h), the verdict that the checks write.
-- Tx: COutPoint, CTxIn, CTxOut, CTransaction (core.h, core.cpp) in Tx/Prevout, Tx/Input, Tx/Output and
-- Tx; sizes in Tx/Size; IsFinalTx and CheckTransaction (main.cpp) in Tx and Tx/Check. A uint256 is a
-- number, an int64_t an integer with its wrap-around (add64), a hash of a transaction an argument
-- (txid) where the source computes it.
-- Serialize: ReadCompactSize, WriteCompactSize, ReadVarInt, WriteVarInt (serialize.h). A stream is a
-- list of bytes, a read gives the rest of it or the exception.
-- Amount: CTxOutCompressor::CompressAmount and DecompressAmount (core.cpp), on 64 bits.
-- Coins: CCoins (coins.h, coins.cpp), CTxInUndo (core.h), and what DisconnectBlock (main.cpp) does to
-- one CCoins.
-- View: CCoinsView as an interface with its contract, the class itself in View/Base, CCoinsViewCache
-- in View/Cache and View/Inputs (coins.h, coins.cpp). A cache stands on any view.
-- Undo: UpdateCoins and the step of DisconnectBlock for a transaction (main.cpp) on such a cache.
-- Merkle: CBlock::BuildMerkleTree, GetMerkleBranch and CheckMerkleBranch (core.cpp); the hash of two
-- nodes is an argument, and a block is the hashes of its transactions with the stored tree.
-- Merkle/Partial: CPartialMerkleTree (main.h, main.cpp) over the same argument; the bits and hashes
-- not yet used stand for nBitsUsed and nHashUsed.
-- RecentSet: mruset (mruset.h), the set with a queue of its elements in the order of their insertion.
-- Script: how a CScript is read and pushed, and the counts that walk over it (script.h, script.cpp). A
-- script is a list of bytes, and pc what is left of it.
-- Script/Num, Script/Delete: CScriptNum and FindAndDelete (script.h), CastToBool (script.cpp).
-- Interp: EvalScript (script.cpp), the stacks with their top first, in Interp with a module for each
-- kind of opcode below it; Interp/Rounds has its runs as a relation, Interp/Branches its branches.
-- VerifyScript is in Interp/Verify. The digests and CheckSig are a record of functions (Crypto).
-- Interp/SignatureHash: CTransactionSignatureSerializer and SignatureHash (script.cpp), over
-- Tx/Serialize.
-- Interp/SignatureCache: CSignatureCache and CheckSig (script.cpp), CPubKey (key.h). CPubKey::Verify,
-- the hash and the random hashes are arguments.
-- Chain: CChain (main.h, main.cpp) over a function that gives the parent and the height of a block
-- index; GetLocator and FindFork in Chain/Locator. GetBlockHash is an argument, mapBlockIndex an
-- association list.
-- Orphans: the orphan transactions with their index (AddOrphanTx, EraseOrphanTx and EraseOrphansFor of
-- main.cpp). The hash of a transaction is an argument; the key of an entry stands for that of its own.
-- LimitedMap: limitedmap (limitedmap.h) on numbers, with an iterator as its key.
-- MemPool: CTxMemPool (txmempool.h, txmempool.cpp), mapNextTx in MemPool/Next, CCoinsViewMemPool in
-- MemPool/View. A pointer to a transaction of the pool is the key of its entry; the depth of the
-- recursive calls of remove is the fuel, which the ranks of the entries bound, since no transaction
-- spends itself through others.
-- Common holds the shared types, tests, machine words, byte strings and maps; Tests the examples.
--
-- Choices: the functions that change an object return it; `none` is a failed assertion, an exception
-- or a read out of bounds, as each file says. References into the map of a cache, which GetCoins
-- returns, are followed by the write that they make. std::map is an association list with rising keys.
-- Heights are natural numbers. Loops are structural recursion on the list that they go through;
-- GetSizeOfVarInt runs on n + 1 rounds, more than it can take, WriteVarInt on the length of its array,
-- the loop of CompressAmount on its own bound of nine rounds, the loop over the height of a partial
-- tree on 32, since the width halves, the loops of GetLocator on one more than the height, which falls
-- (out of fuel they give nothing, as at a NULL pprev), the loops of BuildMerkleTree on the size of the
-- level and of the block, and the loops over a script on its length. The loop of EvalScript takes a
-- byte of the script at least with each round (an Outcome tells the end of the rounds from a failure),
-- the eviction of the signature cache an element.
--
-- Not modelled: blocks as a whole and their headers, with CheckBlock, ConnectBlock and the choice of a
-- chain (main.cpp); pruneSpent of the memory pool; the max_size of a limitedmap; the serialized form
-- of a partial tree; hashing and signatures (OpenSSL); printing; the templates of standard
-- scripts (script.cpp); priorities, which are in floating point; files and databases (db.cpp, txdb.cpp,
-- leveldb/); the network (net.cpp), RPC, wallet and graphical interface (qt/).
pub mod Common
pub mod Validation
pub mod Tx
pub mod Serialize
pub mod Amount
pub mod Coins
pub mod View
pub mod Undo
pub mod Merkle
pub mod RecentSet
pub mod Script
pub mod Chain
pub mod Interp
pub mod Orphans
pub mod MemPool
pub mod LimitedMap
pub mod Tests
