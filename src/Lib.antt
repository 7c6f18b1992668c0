-- ===== src/Lib.antt =====
-- A key-value store in C: a memory-resident tree (c0.c) that is dumped into sorted files (c1.c),
-- nodes that agree on a lock by a queue of requests (pqueue.c), and tags that order writes (abd.c).
--
-- Prelude: lists, numbers and options that every part shares. CString: strings of bytes and the
--   functions of the C library on them (strcmp, %s and %d); a uint32_t that %d takes for an int is
--   printed and read with its sign.
-- PQueue (pqueue.c, pqueue.h): the circular array of 50 slots with its two indices; enqueue, dequeue
--   and peek, and print in PQueue.Print. PQueue.Refine and PQueue.Trace relate it to a list of messages in
--   order. The loops of print and enqueue have fuel for 50 rounds, one for each slot.
-- C0Tree (c0.c): Insert, Delete, Get, Update, the rotations, c0_size, dumpToArray. A pointer to a node is
--   the tree below it; none is a read through NULL. C0Tree.Ascending is the list of entries that a tree
--   stands for.
-- C1Disk (c1.c, common.h): the records of a file, merge, c1_search. A file is a list of records of 431
--   bytes; none is a read of a variable that sscanf did not set. merge has fuel for the records of both
--   files and one round more; c1_search takes its fuel as an argument.
--   C1Disk.Store has the numbered files, the index and c1_batch_insert; which files open is a parameter.
--   C1Disk.Fused has the entries of a merged file, and C1Disk.Holds what a store holds after any number of
--   batches. C1Disk.Metadata has the bytes of the file sstable.
-- Journal (journal.c, journal.h): the bytes of tx_log; how each fwrite, fflush and fclose of
--   log_transaction goes is a function that is a parameter.
-- BlockingNode (blocking_node.c, blocking_node.h): the state of a node, one function per handler and per
--   stretch of distributed_lock between its loops; the server's requests are a parameter.
--   BlockingNode.Wire has the bytes of a message. Which blocks of calloc end in a spare zero byte is a
--   parameter: the code needs one behind the keys and values that it copies, and none is where it has none.
-- Client (client.c): the ABD protocol of a client. Client.Lines follows its lines into server_handler,
--   Client.Replies the answers back.
-- ServerMain (server-main.c, and run_server_1 of server-part1.c): the arguments, and the connections to the
--   peers; what the network answers is a parameter.
-- Workload (blocking_client.c, and the same functions of client.c and client_common.c): random keys, the
--   choice of keys by popularity, and the lines of the threads, with the doubles and the values of rand as
--   parameters. The loop of client_func has fuel for its 401 rounds and the test behind them.
--   Workload.Served and Workload.Loads follow the lines into the servers.
-- Blocking (server_handler_blocking of server-part1.c): one write on its way through distributed_lock, as a
--   state machine whose steps interleave with the messages of the peers.
-- Cache (cache.c, cache.h): the doubly linked list of the cache on a heap of nodes by address. The walk of
--   cache_get has fuel for as many nodes as the cache counts, and one more. Cache.Links and Cache.Moves follow
--   the assignments to the pointers, Cache.Lru is the list that a cache stands for.
-- ServerPart1 (server-part1.c, and c0_dump of c0.c): the requests, on a record of the tree, the cache, the
--   files and the journal; each request is one step. ServerPart1.Abd has the requests of the ABD protocol,
--   ServerPart1.Handler the lines of server_handler, ServerPart1.Plain the requests as recover calls them,
--   and ServerPart1.Recover the recover of journal.c, which has fuel for the bytes of tx_log and runs on a
--   store whose metadata are allocated. A NULL value in an entry of the tree is outside the model.
-- Abd (abd.c, abd.h): tags and abd_tag_cmp. DataTypes (data_types.h): the messages of the peers.
--
-- Not modelled: client17.c, which only sends fixed requests, c1_unit.c, a manual test, and what is printed
--   but by the queue. Sockets, threads and signals are outside the model.
pub mod Prelude
pub mod CString
pub mod Abd
pub mod DataTypes
pub mod PQueue
pub mod C0Tree
pub mod C1Disk
pub mod Journal
pub mod BlockingNode
pub mod Cache
pub mod ServerPart1
pub mod Client
pub mod Blocking
pub mod Workload
pub mod ServerMain
