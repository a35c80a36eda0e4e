-- ===== src/Lib.antt =====
-- A model of MetaChain, a node of a multi-chain blockchain, and what holds of it.
--
-- The script engine, src/MCP/MCP06, decides whether a transaction may spend an output: `verifyScript` runs
-- the input's script and the output's one after the other, on one stack of byte strings. The module
-- Script models it:
--   Script.Opcode, .Flags, .Outcome: the enumerations of script.h, scriptInterpreter.h and
--     scriptError.h. Every operation returns an Outcome: a value (`set_success`), an error
--     (`set_error`), `aborted` for a failed assertion or an overflow of an int64_t, `undefined` for the
--     undefined behaviour of `checkSignature`, and `stuck` for a loop of the model without fuel.
--   Script.Num: `CScriptNum`; an int64_t is an integer, and results are tested for the range.
--   Script.Code: `CScript`; a script is the list of its bytes, an iterator the list of the bytes from
--     there on, and `GetOp` returns the opcode, the operand and the next iterator; it fails where 2^31
--     bytes or more are left. Literal has `push_int64` and the small integers.
--   Script.Encoding, .Checker: the checks of encodings in scriptFunctions.cpp, and `signatureChecker` with
--     what it uses of `Account` (src/MCP/MCP01/Account.cpp): a key is copied as 65 bytes, whatever its
--     size, and the transaction is `none` where nothing has set it.
--   Script.Stack, .Numeric, .Machine, .Interp: `evalScript`. The head of a list is the back of a
--     vector. One function per operation works on the stack, or on the State, which also has the
--     alternative stack, the open conditionals, the operation count and the last code separator.
--     `exec` is the `switch`, `step` the body of the loop, `eval_script` the function.
--   Script.Verify: `verifyScript`.
--   Script.Runs: tests, and the theorems at concrete inputs.
--
-- Nodes exchange messages of a header and a payload over TCP connections. The module Net models how:
--   Net.Message: `netMessage` (src/network/netMessage.cpp): the sending constructor, which gives the
--     bytes of a package, and `readData`, which takes what one message still lacks. The memory of an
--     `sHeader` is a list of 16 bytes, on a little-endian machine.
--   Net.Peer: `netPeers::ReceiveMsgBytes` (src/io/netPeers.cpp), with the message in progress and the queue.
--   Net.Semaphore: `cSemaphore` and `cSemaphoreGrant` (src/cSemaphore.h), which limit the connections.
--     Each operation on a grant is one step, for grants that no two threads use at a time. `accept_grant` is the grant that src/io/netPeers.cpp makes for a connection.
--   Net.Address: `CNetAddr` (src/network/CNetAddr.cpp): its 16 bytes, what ranges they are in, and how well
--     one address is reached from another. Bits has the bits of the bytes.
--   Net.SubNet: `CSubNet` (src/network/CSubnet.cpp): netmasks and `Match`.
--   Net.Service: `CService` (src/network/CService.cpp): an address with a port, its key and socket address.
--   Net.Manager: `NetworkManager` (src/network/NetworkManager.cpp): the peers of a node and its settings.
--     Manager.Process is `ProcessMessage`, one function per subject, and `handleMessage`, which goes over
--     the queues of a list of peers; a memcpy from behind the end of a payload is a result of its own.
--     Manager.Maintain is `Maintainer` and `getNextOutNode`. Locks are held for each of these calls.
--   Net.Runs, .AddressRuns, .ManagerRuns: tests, and the theorems at concrete inputs.
--
-- The module Chain models transactions and the chain that moves coins:
--   Chain.Block: `txOutRef`, `txIn`, `txOut`, `crTransaction` (src/MCP/MCP03). A uint256 is a number.
--   Chain.Merkle: `crBlock::calcMerkleRoot` (src/MCP/MCP03/crBlock.cpp).
--   Chain.Mine: `Mine::processBlock` (src/MCP/MCP02/Mine.cpp), step by step, over the key-value store of
--     src/io/db/rdb.cpp: reads see the store as it was before the block, the batch is written at the end.
--     Mine.Entries says, apart from the batch, what transactions leave in the store.
--   Chain.Runs: tests, and the theorems at concrete inputs.
--
-- The module Storage models where blocks are kept (src/io/StorageManager.cpp): the raw files of each chain,
-- the index of blocks in the chain's database, `openRawFile`, `writeRaw` and `registerSC`. Whether the
-- system opens a file, the node's mode and the size at which a file is full are an Environment.
-- Storage.Blocks says what it is to hold a sequence of blocks; Entries and Writes are about `writeRaw`.
--
-- The module Registry models how chains are made (src/MCP/MCP02/SubChainManager.cpp, SubChain.cpp):
-- `addSubChain`, `SubChain::init`, which registers the chain at the Storage, and the lookups by name and
-- by number. Names are C strings in the memory of their arrays; the memory behind the last array is not
-- modelled, and a string ends there at the latest.
--
-- Text.Base58 models `base58` (src/MCP/MCP01/base58.cpp), which writes keys as texts.
-- Text.Hex models hexadecimal texts: `IsHex` and `ParseHex` (src/utilstrencodings.cpp), `HexStr`
-- (src/utilstrencodings.h). A text is a list of the codes of its characters. Text.Runs has tests.
-- Base has the shared names: Boolean tests, lists over the native numbers, integers and bytes.
--
-- Loops over a script take as fuel the number of its bytes, since an instruction takes a byte at least;
-- the loop of OP_CHECKMULTISIG takes one more than there are keys, since each round uses one up, and
-- `ReceiveMsgBytes` as many as there are bytes, since each round reads one at least. `handleMessage`
-- takes as many rounds as its list has peers at the start: the peers that a message adds have no messages.
--
-- The hash functions of src/crypto, and what follows the first test of `Account::verify`, which calls an
-- elliptic-curve library, are parameters (Script.Checker.Crypto), and the record Digests has the sizes of the hashes. Net takes the
-- hash of a payload as a parameter, Chain the hash of a transaction, the hash of the Merkle tree and the
-- outcome of `checkBlock`.
-- Logging, sockets, start-up, mnemonics and the archives of blocks are not modelled.
pub mod Base
pub mod Chain
pub mod Net
pub mod Registry
pub mod Script
pub mod Storage
pub mod Text
