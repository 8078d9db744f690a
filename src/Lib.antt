-- ===== src/Lib.antt =====
-- oh-my-db: a replicated key-value store over Raft.
--
-- The program. Each replica runs a `RaftManager` (ohmyraft/OhMyRaft.H): its state under one mutex,
-- the handlers of the RPCs, and three threads: `raftImpl` takes in what clients submitted and sends
-- it to the peers, `electionImpl` watches the election timer, `executerImpl` executes what is
-- committed. The log is a `PersistentVector`, term and vote lie in a `PersistentStore`; clients wait
-- on promises of the `PromiseStore`, which the executer fulfils from the database.
--
-- The files, and what they model:
--   Consensus         ohmyraft/ConsensusUtils.H: operations, log entries, parameters of the RPCs
--   Signal            ohmyraft/TimeTravelSignal.H; Signal/Delivery: its interleavings
--   Promise           ohmyraft/PromiseStore.H; Operation: `execute` and `abort`
--   Database          ohmydb/LevelDBProxy.H: the database that the executer needs, in memory and over
--                     leveldb (LevelDb)
--   Persist           ohmyraft/PersistentStore.H (Store) and ohmyraft/PersistentVector.H (Log)
--   Persist/Vector    ohmyraft/PersistentVector.H on the bytes of its file
--   Raft              the state; Raft/Roles: `becomeFollower` and its like, peers, configuration
--   Raft/Vote         `RequestVote`
--   Raft/Append       `AppendEntries`; its children: the log, the commit index, the answer
--   Raft/Leader       `runLeaderOneIter`, with the threads for the peers
--   Raft/Election     `startElection` and `electionImpl`
--   Raft/Threads      `submit`, the rounds of the threads, `bootstrap`, `NetworkUpdate`
--   Raft/Membership   `AddServer`, `RemoveServer`, the leader's address
--   Raft/Machine      a replica as a state machine over all these
--   Raft/Replication  a leader's request meets a follower's handler; Raft/Replication/Session: the two
--                     over a whole term, on a network that loses, doubles and reorders;
--                     Raft/Replication/Network: a leader and all its followers;
--                     Raft/Replication/Repair: how a follower's log is brought in line
--   Raft/Durable      what a crash leaves
--   Wire              ohmyserver/RaftServiceImpl.C and ohmyraft/RaftRPCRouter.H: requests and replies;
--                     Wire/Members: the RPCs of membership; Wire/Database: get and put,
--                     ohmyserver/DatabaseServiceImpl.C and ohmyserver/DatabaseClient.H
--   Manager           ohmydb/OhMyReplica.H: get and put of `ReplicaManager`; Manager/Start: how a
--                     replica comes up
--   Client            ohmydb/ReplicatedDB.H and ohmyserver/DatabaseClient.H: the search for the leader
--   Config            wowUtils/OhMyConfig.H: the file that lists the servers
--   Admin             ohmyserver/admin.cpp: the tool that adds and removes servers
--   Partition         ohmyserver/updatemask.cpp: the tool that splits the network
--   Tools             ohmytools/writestore.cpp: the tool that writes the files of a replica; Tools/Read:
--                     ohmytools/readstore.cpp, which prints them
--   Naive             ohmyserver/server_naive.cpp: a server without replication
--   Logger            wowUtils/WowLogger.H: the names of source files in the log
--   Tests             concrete runs
--
-- Conventions. A critical section is a function from state to state; a thread that sends and waits
-- is two functions, with what it keeps in between as arguments. `Option` marks reads out of bounds:
-- `none` is undefined behaviour. int32_t is ℤ: overflow is undefined in C++ and left out. Times are
-- milliseconds, given to each function that reads the clock. A map is an association list. A
-- handler that waits, and lets go of the mutex for that, gets the states that it sees as a
-- sequence. Only where a change of the configuration is applied, which lets go of the mutex too,
-- handlers and rounds are modelled for the runs in which no other thread gets in between;
-- `apply_add_server_while` and `apply_remove_server_while` of Raft/Roles have what others do there
-- as an argument. What is said of a whole term in Raft/Replication is for operations that leave the
-- configuration as it is, where there is no such gap.
--
-- Bounds and fuel. The waits of Raft/Membership run on fuel, the 100 looks that the code itself
-- allows; the loops of the client and of the admin tool run on their 1000 tries, the wait for the
-- peers on a number of rounds that the caller of the model gives, the recovery of a file on its
-- length, where each round takes at least one byte. Decimal printing has 10 digits, enough for 32
-- bits; a number that `stoi` cannot hold is an exception, which is `none`. All else is structural
-- recursion.
--
-- Not modelled: a read of the leveldb database that throws, since a text stored there is no number:
-- `real_get` has it, and the executer's database stands for the runs without, as a put starts none.
-- The transport (gRPC) and the leveldb library, which are arguments where they are used; sockets,
-- the parsing of command lines, and what is only logged; the benchmark and test programs, the
-- prototype in Go and the scripts.
pub mod Prelude
pub mod Consensus
pub mod Signal
pub mod Promise
pub mod Persist
pub mod Database
pub mod Operation
pub mod Raft
pub mod Wire
pub mod Manager
pub mod Client
pub mod Config
pub mod Admin
pub mod Partition
pub mod Tools
pub mod Naive
pub mod Logger
pub mod Tests
