-- ===== src/Lib.antt =====
-- A verification library for the file storage server of this repository.
--
-- The server (src/server.c) keeps files in memory for clients that connect over a socket. Worker
-- threads pass each message of a client to `serve`, which calls the handler of its operation. The
-- handlers read a path from the connection, work on the shared storage (libs/LSO_LIB/file_utils.c)
-- under two kinds of mutexes, one of the storage and one of each file, and answer with messages
-- (include/server_message.h). The storage is a hash table (libs/LSO_LIB/hash_utils.c) from paths,
-- ordered by `su_string_compare` (libs/LSO_LIB/string_utils.c), to files, with limits on their
-- number and bytes; a write that needs room evicts files. Clients use a library (src/serverapi.c)
-- with one call for each request, which sends a message, the path and the data, reads the answers,
-- and keeps what it receives in files of its own disk.
--
-- The modules:
-- - Common: the names that all share, lists over the native numbers, signed integers.
-- - Run: how a piece of C ends: with a value, not at all, in `exit`, or in a bad access or other
--   undefined behaviour.
-- - Memory: the allocation wrappers (libs/LSO_LIB/mem_utils.c), which end the process on more than
--   4 MiB.
-- - CString: `su_string_compare` and `hu_hash_string`; CString.Order says what the first orders.
-- - HashTable: the table (libs/LSO_LIB/hash_utils.c) for any key with the operations and laws of
--   HashTable.Interface. Chain and Removal are about one bucket, Laws and Deletion about the
--   table, Map about both together, Totals about sums over its items. Storage.PathKey fills the interface for paths.
-- - Arr: the array (libs/LSO_LIB/array_utils.c) as the eviction uses it.
-- - Storage: the file storage. A file is at an address of a heap, and freeing what is not
--   allocated is a fault. Storage.Invariant holds the invariant; Lookup, Addition, Removal,
--   Writing, Reading and Start are about one operation each, Eviction is the choice of the files
--   to evict.
-- - Message: the words of the protocol.
-- - Server: a handler is a function on a `World`: the storage, the outcomes of the reads and
--   writes to come, what was sent, and the values that the C code reads without having set them.
--   World has the calls that the handlers are made of; Open, Close, Read, ReadMany, Evict, Write,
--   Remove and Serve are the handlers with their source's names. Keeps and Requests are rules for
--   any relation between storages that the steps of the handlers keep: Keeps for the steps,
--   Requests for the handlers. Validity and Isolation apply them to one relation each.
-- - ListUtils (libs/LSO_LIB/list_utils.c) and PollUtils (src/poll_utils.c): the client's lists of
--   paths and the dispatcher's array of descriptors.
-- - Server.Worker is one round of a worker. Dispatch: the steps of the dispatcher and of the
--   workers on the polled descriptors and the clients of the workers, with `Reach` for their
--   sequences, in which no call on the array is interrupted by another one; PollUtils.Race has an
--   addition in the middle of a removal. Exclusion is about who serves whom, Stopping about when the
--   server is taken for idle; Assignment has `assign_client`.
-- - UString: the growable string (libs/LSO_LIB/string_utils.c). Disk: files on the disk, as
--   libs/LSO_LIB/file_utils.c reads and writes them; the record `Disk` stands for the system.
-- - Client: the client library (src/serverapi.c). A call is a function on a `Session`: whether
--   there is a connection, the outcomes of the reads and writes to come, what was sent, the disk,
--   and the values of memory that was never set. Requests has the calls on one path, Eviction,
--   ReadMany and Transfer the calls that move many files or data, Connection the connection
--   itself; names follow the source's (`write_file` is `writeFile`). Ends and Loops are about
--   the loops, Termination about the attempts to connect.
-- - Stream: a text stream of the C library. Settings: the settings of the server, read from its
--   configuration file (src/server.c); Entries is about the lines of such a file, Reading about what
--   is read from them, Progress and Termination about files of any content.
-- - Program: the client program (src/client.c): its options and lists of paths. Lists has the
--   requests for a list, Folders the walk through folders (src/dir_utils.c), Main the order of the
--   requests; Names is about the lists, Paths and Loops about folders, Ends about the requests.
-- - Exchange: client library and server together. `Converses` relates a call and the round of the
--   worker that serves it, each of which reads the bytes that the other writes. Wire is about
--   numbers on the connection, Asking and Sending about the client's side, Serving and Storing
--   about the server's, Opening about a file that is created, Files, Roundtrip and Lifecycle about
--   both, Failures and Listing about what they do not agree on; Refinement states what they promise
--   together on an abstract state, the owner and the content of each file.
-- - Tests: runs at concrete inputs.
--
-- Machine integers are native numbers with the reduction written out: `size_t` modulo 2 ^ 64,
-- `unsigned int` modulo 2 ^ 32, `int` as a sign and a number. The server's loops are structural
-- recursion, on the items of a bucket, the slots of an array or the nodes of a list. Eight loops are
-- on fuel, and without it go on for ever: the chunks of a file (fuel: its length and one more), the
-- two loops over what the server sends back (the number of reads that are left and one more, since
-- every round reads), the attempts to connect (a parameter; with a pause that is not zero each
-- takes at least a nanosecond of the time given), the search for a free worker (a parameter; a
-- round looks at each worker once), the lines of the settings (the length of the file and two more:
-- a round reads a byte or sees the end), the names of an option (its length and one more) and the
-- folders of the client program (a parameter; the loop need not end). A `read` that returns fewer
-- bytes than were asked for, the end of the stream and a failing `write` are outcomes in the world's
-- lists, so that a theorem for all worlds is one for all behaviours of a client.
--
-- Not modelled: threads inside a handler (it runs alone, and waits for ever for a mutex that is
-- held; the steps of Dispatch are whole calls), the start and the end of the threads, logging and
-- what is printed, the making of directories, and a failure of the system's allocator. The order that
-- `qsort` gives files that compare as equal is fixed to that of an insertion sort.
pub mod Common
pub mod Memory
pub mod CString
pub mod HashTable
pub mod Run
pub mod Arr
pub mod Storage
pub mod Message
pub mod Server
pub mod ListUtils
pub mod PollUtils
pub mod Dispatch
pub mod UString
pub mod Disk
pub mod Client
pub mod Exchange
pub mod Stream
pub mod Settings
pub mod Program
pub mod Tests
