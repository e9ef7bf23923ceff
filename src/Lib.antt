-- ===== src/Lib.antt =====
-- BuenzliCoin: a blockchain node in C++ (include/ and src/), as built with PROOF_OF_WORK and
-- TRANSACTIONS.
--
-- A node keeps a chain of blocks, the list of the unspent outputs of its transactions, a pool of
-- unconfirmed transactions, and a list of peers. HTTP requests mine a block from the pool, add a
-- transaction or a peer; messages of peers bring a block, a chain or a transaction. Which file models
-- what:
--
-- Base: lists, numbers, and how C++ code ends: with a value, by an exception, in undefined behaviour.
-- EraseLoop: the loop that erases from a container while it goes over it (src/transaction.cc).
-- Json, Config, Clock: include/json.h, include/config.h, include/clock.h.
-- Crypto.Digest, Crypto.Keypair: include/crypto/digest.h, include/crypto/keypair.h. Crypto.Signing: the
--   same keys with the objects of OpenSSL that `sign` and `verify` make and free, and the bindings of
--   src/python.cc; Crypto.Hash: include/crypto/hash.h.
-- Transaction, TransactionList, Unspent, Pool: the classes of include/transaction.h and
--   src/transaction.cc. `update_unspent_outputs`, `valid_transaction`, `make_reward`, `valid_list`,
--   `update`, `add`, `remove` and `prune` are the members of these names, with `valid` and `reward`
--   told apart.
-- Difficulty: include/difficulty.h. Block, Blockchain: the classes of include/blockchain.h; `mine` is
--   Block::adjust_difficulty. Text, Ledger: the two types of data that a chain is built over;
--   Ledger.Relinked: blocks whose transactions are linked again.
-- Config.Toml: Config::from_toml of src/config.cc. Startup: what `main` of src/main.cc makes before the
--   node runs. Startup.Main: the command line, the servers' addresses, the run, `stop_node`, and how
--   main ends.
-- Web.Peers: include/web/websocket_peer.h. Web.HttpServer, Web.WebSocketServer: the tables of handlers
--   of src/web/http_server.cc and src/web/websocket_server.cc, and what they make of a request or a
--   message, over any state and any handlers (Web.Handling). Web.Listening: what the two servers have
--   in common, an acceptor and connections whose operations end one after the other; the Connections of
--   each server are its reactions to these ends, and the Conversation is one with a WebSocketClient.
--   Web.HttpClient: the request that src/web/http_client.cc sends, and in Fetch its connection.
--   Web.WebSocketClient: the Connection of src/web/websocket_client.cc, a machine that moves at calls of
--   `send` and at the ends of asynchronous operations; its Sessions are the calls of WebSocketPeer::send,
--   and Sync is `send_sync`.
-- Node: the state of src/node.cc; Node.Http and Node.Receive: the handlers that change it;
--   Node.Messages: those that only read it, and the requests that a node sends. Node.Servers:
--   `http_setup` and `websocket_setup`, the handlers in the tables of the servers. Node.Settles: one
--   rule for each handler, from which Node.Safety, Node.Pooled and Node.Consistent take what it keeps;
--   Node.System: the life of a node, in which events come in any order. Node.Callbacks: what
--   a task of a handler sends, to which peers, and what its callback does with the answer.
--   Node.Running: Node::run, the two servers with all their connections, and the callbacks, over one
--   state.
-- Examples: concrete parameters and runs.
--
-- The libraries are parameters: JsonLib for nlohmann::json with the laws that the code relies on,
-- TomlLib for toml++, OpenSsl for SHA-256 and the calls that verify a signature (Evp and
-- MessageDigest where their objects matter), Floats for `double` and
-- <cmath>, the readings of the clock, the texts of exceptions, and the exceptions with which the
-- connection of a new peer and a broadcast may fail. The configuration is an argument too.
--
-- Numbers of 64 bits wrap as they do in the source; port numbers keep 16 bits. Where the code runs
-- into undefined behaviour (an iterator past the end, a vector destroyed inside the loop over it, a
-- missing key of a const object, a modulus by zero) the model says `undefined`. Decimal digits are
-- printed with fuel 20, enough below 2 ^ 64, and the padding of a key has fuel 3, since four divides
-- one of four lengths in a row. The loop of mining runs on fuel, and its model says so when the fuel
-- is used up: the loop of the source need not end.
--
-- Not modelled: the exception of `dump` for a text that is no UTF-8, locks and threads (a call on
-- another thread is a task that a handler returns; handlers and callbacks run one after the other,
-- also where nothing in the source keeps them apart, and in Node.Running a callback may be told of
-- any answer at any time), the overflow of a difference of time stamps and the conversion of a
-- negative binary logarithm to std::size_t, which are undefined behaviour (time stamps are integers
-- without bounds here, and the logarithm is a parameter), logs and their texts, how a client
-- resolves a name and connects, a second SIGTERM, the bindings of blocks and chains, and the Go
-- wallet under bwallet/. The text that a socket is given is taken to be that of `dump()`.
pub mod Base
pub mod EraseLoop
pub mod Clock
pub mod Difficulty
pub mod Json
pub mod Config
pub mod Crypto
pub mod Transaction
pub mod TransactionList
pub mod Pool
pub mod Block
pub mod Blockchain
pub mod Text
pub mod Ledger
pub mod Unspent
pub mod Web
pub mod Node
pub mod Startup
pub mod Examples
