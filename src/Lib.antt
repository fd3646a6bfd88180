-- ===== src/Lib.antt =====
-- A model of the consensus layer of DCS Chain, and what its code guarantees.
--
-- The program. A server takes signed messages and the requests of clients. Its orderer runs one of
-- four consensus protocols over them and files the blocks that it decides; its node manager lets
-- nodes join and leave, and hands the state of the others to a new node. core/server holds the
-- servers, orderer/core the orderer, mps the node manager, orderer/consensus the protocols,
-- orderer/common what they share (views, timers, encodings), common/blockchain the blocks and their
-- store, bccrypto the hashes and the threshold signatures.
--
-- The files.
--   Base           what the Go code uses of its language: tests on numbers, `int`, slices, strings,
--                  and maps that have strings for keys (Tables).
--   Common         orderer/common: view.go (View), timer.go (Timer), encode.go and
--                  hotstuff_node.go (Encode), the names of the replicas (Name), and the search
--                  of the HotStuff protocols for the highest certificate (Highest).
--   Crypto         bccrypto/merkle (Merkle: both computations of the root) and bccrypto/tss (Tss).
--   Blockchain     common/blockchain/block.go: blocks, their hashes, and BlockStore.
--   Quorum         the threshold `(NodesNum-1)/3*2` of all protocols, and counting.
--   BasicHotstuff  orderer/consensus/hotstuff, the basic protocol. Types has hotstuff/types; State
--                  the structure BCHotstuff; Rules its tests (SafeNode, CheckQC, CombineSign);
--                  Handlers one file for each phase, named as in core; Core the routing, the
--                  requests, the leader's operations, and the runs of a replica; Sync its
--                  synchronisation. Moves and Votes carry an invariant through every step;
--                  Agreement, Lock, Phases and Leader hold what follows.
--   Pbft           orderer/consensus/pbft. Types and Encode have pbft/types; State the structure PBFT;
--                  Log LogMsg and CheckMsg (core/utils.go); Commit what a proposal makes and what a
--                  committed request does; Normal the three phases; Checkpoint the stable
--                  checkpoints; ViewChange the start of a view change and HandleReq; NewView how
--                  the leader opens the next view; OSet and Redo how the replicas take it and redo
--                  what was prepared; Core the routing and synchronisation. Checks, Safety, Stable,
--                  Early, Opening, Rejection and Sync hold what follows.
--   ChainedHotstuff  orderer/consensus/hotstuff, the chained protocol. Types has chained_QC.go and
--                  chained_message.go; State the structure CHotstuff; Rules the tests; Handlers the
--                  three handlers of core/generic.go and its view change; Core the routing, requests,
--                  the leader's operations and synchronisation; Run the events of a replica. Frame,
--                  Collecting, Routed, Steps and Growth carry invariants through every step; Proposals,
--                  Chain, Certificate, Runs, Votes and Sync hold what follows.
--   Hotstuff2      orderer/consensus/hotstuff2. Types has hotstuff2/types; State the structures Hotstuff2
--                  and Pacemaker; Rules the tests; Commit the locked blocks and their removal;
--                  Handlers one file for each step of a view; Core the routing, requests and
--                  synchronisation; Run the events of a replica. Range, Removal, Kept and Aligned
--                  lead to what Ledger, FirstVote, Timeouts, Runs and Sync hold.
--   Mgmt           mps. Types has mgmt/mgmt_type.go; Manager the structure NodeManager of mgmt and
--                  basic with its operations; Handlers basic/handler.go. Choice holds what follows
--                  about the leader and the state that a new node chooses.
--   Orderer        orderer/core. State has the structure, whose four protocols are one sum, and its
--                  construction; Core the operations; Sync AddSyncInfo and SyncInfo. Views holds
--                  what follows about the view that a new node takes over.
--   Server         core/server, network/local and common/message. State has the structures; Send
--                  local_send.go and the network; Requests the batches; Manager the handling of
--                  the messages of the node manager, which is the composition of the other two
--                  parts; Core the routing, the start of a join and of an exit, and the events of a
--                  server. Outcome tells a call that returns from one that blocks or panics.
--                  Kept says what sending leaves, Answers what the sync messages have in common;
--                  Delivery, Backlog, Joins, Members, Arrivals and Exits hold what follows.
--   Factory        core/factory/gen_servers.go: the keys that the generated servers tell each other.
--   Examples       runs on concrete inputs.
--
-- How code becomes definitions. A method is a function from the receiver to the new receiver, with
-- the message that it returns as an Option: HandlePrepare is `handle_prepare`, GetHighQCIndex is
-- `get_high_qc_index`. Where the code can panic the result is an Option of that, `none` for the
-- panic; in Server it is an Outcome, which also tells a call that blocks for ever. Names change
-- their spelling only. Numbers that count are natural numbers, `int` is an integer without its
-- 64-bit wrap-around, `byte(n)` keeps its wrap-around, and a nil slice differs from an empty one.
-- What a replica puts into its channels is a list in the order of the calls. A map is a list of
-- entries. Where Go goes through a map in any order, an argument gives the order, or the order has
-- no influence on what is proved. A channel is the number of the inbox behind it, and an inbox has
-- room. Each server has a map of channels of its own; where servers have one map, `sharing` gives
-- one the map of the other. `go f()` runs f at once, and a goroutine that blocks has no effect:
-- what it put into inboxes before it met a nil channel is not counted. `step` is one event of a
-- replica (a message, a batch, the expiry of the view timer) and `run` a sequence of them, so an
-- interleaving of deliveries and timeouts is a list of events, and the network may lose, repeat,
-- reorder and forge messages.
--
-- Fuel. HashFromByteSlices recurses on fuel, the length of its input, which is enough: its model
-- satisfies the equation of the code. bits.Len runs on the number itself, whose halves end sooner.
-- The loops of PBFT and HotStuff-2 that catch up with a view make as many rounds as the views differ.
-- StoreBlock loops until the file system takes its write; it is a function of the answers. The loop
-- of a server that waits for new signers is a function of the number of signers in each round, and
-- blocks if no round finds enough.
--
-- Parameters. SM3 is any function on byte lists, the threshold signer any record of answers of
-- kyber, the SM2 signer any functions, the json encoding any functions (where one protocol decodes
-- into a structure, the structure is given), the clock an argument. Nothing is assumed of them.
--
-- Domain. A view has at least one node. NextView, NextLeader, RefreshLeader, NextLeaderName and
-- LastLeaderName take a remainder by NodesNum, and with no node Go panics there; the model has no
-- such panic, so the theorems that exclude panics ask for a node. SendSerMsg is that of a replica
-- with a SendChan; on a nil one Go blocks for ever, and the theorems that promise an end ask for the
-- channel. The servers create their orderers with a node and a channel, and no method of a protocol
-- changes NodesNum or SendChan but the one for a changed number of nodes. Only InitConsensus of
-- orderer/factory/node.go, for the programs of orderer/orderer_test, starts replicas with neither;
-- those programs set NodesNum afterwards and leave SendChan nil.
--
-- Not modelled: locks and the interleaving inside a method (a method is one step), logging, the table
-- of keys of the SM2 signer, sockets, clients and the dialogues of the command lines, the nodes of
-- orderer/factory that try out one protocol without a server, the rest of core/factory, the virtual machine, SM2 and SM4, and
-- reading of configuration.
pub mod Base
pub mod Common
pub mod Crypto
pub mod Blockchain
pub mod Quorum
pub mod BasicHotstuff
pub mod Pbft
pub mod ChainedHotstuff
pub mod Hotstuff2
pub mod Mgmt
pub mod Orderer
pub mod Server
pub mod Examples
pub mod Factory
