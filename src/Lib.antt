-- ===== src/Lib.antt =====
-- A model of the core of libgko, a library for servers and clients that exchange messages with a
-- header of ten digits: a pool of connections, each driven by a state machine on its worker thread,
-- with a block allocator for the buffers and rate limiters for its transfers.
--
-- The parts and their files, with paths from the repository's root:
--   Wire models the header of a message, fill_cmd_head and parse_cmd_head of src/gingko.h.
--   Alloc models gkoAlloc of src/memory.cpp: the bitmap, the buckets and the counts are the fields
--     of a record, get_block and free_block functions from one state to the next.
--   Limit models the five limiters of src/limit.cpp, whose bodies are the same; the static variables
--     are a record, and the clock's two readings arguments.
--   Client models struct conn_client of src/async_pool.h and the calls of src/async_conn.cpp that
--     reset one. World is what a worker's calls act on: its allocator and connections, and lists of
--     the answers that the system still has to give.
--   Transfer models aread and awrite of src/async_threads.cpp over those answers.
--   Machine models state_machine of src/async_threads.cpp, one function for each case of its switch.
--     The server's callback, the resolver and the dictionary of the cache are parameters, in Calls;
--     Resolver.with_ares puts the resolver of src/async_dns.cpp there.
--     Machine.Graph is the graph of its states.
--   Pool models the accept, the search for a slot and for a worker, the hand-over of a connection to its worker
--     and the cleaning of connections that timed out, of src/async_conn.cpp, src/async_clnt.cpp and
--     src/async_threads.cpp.
--   Resolver models src/async_dns.cpp: the callbacks of c-ares and of its descriptors, the query, and the
--     hash and the comparison of host names. What c-ares answers is an argument, and so is whether it does so
--     inside ares_gethostbyname or later. Resolver.Runs follows the state machine through both.
--   Worker has the steps that can happen to the connections of one worker, which the event loop of
--     thread_worker_init in src/async_threads.cpp makes, as a relation on the worker's state and the
--     list of connections that have been given buffers. The Keeping modules follow the blocks of the
--     allocator through each call.
--   Host models the blocking calls of src/gingko_base.cpp that send and read whole messages.
--   Bulk models the calls of src/gingko_base.cpp that read and send a file's bytes as a whole, on what
--     pread, sendfile and libevent answer.
--   Hash models xor_hash and digest_ok of src/hash/xor_hash.cpp.
--   Job models the files and blocks of a job, next_f, next_b and prev_b of src/gingko.h, and
--     writeblock and sendblocks of src/gingko_base.cpp. A disk is the bytes of each file; Job.Span
--     lays them end to end, which is what the blocks of a job divide. Job.Digest models xor_hash_block of
--     src/hash/xor_hash.cpp.
--   Paths models the functions of src/path.cpp on strings: slashes, base names, merging, and the change
--     from a remote path to a local one. A string is its bytes before the terminator; what a source too
--     long for strncpy to terminate leads to is outside the model.
--   Dest models the functions of src/path.cpp that ask the file system: path_type, process_path,
--     mk_dir_symlink_file and correct_mode, on its answers.
--   Args models sep_arg of src/gingko_base.cpp, which cuts a command at its tabs.
--   Sockets models src/socket.cpp and the search for a port to listen at of src/async_conn.cpp, on the
--     system's answers.
--   Prelude has the names that they share, Samples a connection for the runs in the Tests modules.
--
-- A connection reaches its worker by Pool.thread_worker_process, which starts Machine.state_machine;
-- that reads and writes by Transfer, parses by Wire, and frees or renews the connection by Client,
-- which takes its buffers from Alloc and gives them back. A connection that goes out asks Resolver for its
-- host's address, whose answer starts the state machine again. Dest calls Paths to change the names of a
-- job's files; the blocks of Job are divided over those files, and Hash is what a block is tested by.
--
-- Numbers: an unsigned int is a natural number with its wrap-around written out, an int a pattern of
-- 32 bits where it can wrap. A block number, a slot or a worker that is not there is none in place of
-- a negative number. The mutexes are not modelled: each call is one step, as it is under its lock.
-- Log calls are left out.
--
-- Fuel: aread runs with 12 rounds, one that fills the buffer, one for each of ten growths and one
-- that is refused the eleventh; state_machine takes its fuel as an argument, and how much is enough
-- is stated below. writeblock, sendblocks and the search for a port take theirs as arguments too, and
-- what is enough is stated below: more than the files, the files and blocks, and the port. next_f goes
-- round the files once, and gives none where that finds no file with bytes: the source would go round
-- for ever. The other loops run over a list or a number of rounds that the source fixes.
--
-- Not modelled: the threads, the timers and the pipes, which are calls to the system and to
-- libevent, and c-ares itself; the limits on the rate inside writeblock
-- and sendfileall of src/gingko_base.cpp, and its ev_fn_gsend, which nothing calls; gen_snap_fpath of src/path.cpp;
-- src/log.cpp; src/dict.c, LZ4 and MD5, which
-- are copies of other projects. In Job the offset of a block is inside its file, as it is where a job
-- is built, and a pwrite writes at most what it is asked to. In src/async_dns.cpp the time to live is -1, so that the cache
-- is never asked; its test is modelled, its entries are a parameter.
mod Prelude
mod Samples
pub mod Wire
pub mod Alloc
pub mod Limit
pub mod Client
pub mod Transfer
pub mod Machine
pub mod Pool
pub mod Host
pub mod Hash
pub mod Job
pub mod Paths
pub mod Dest
pub mod Sockets
pub mod Args
pub mod Bulk
pub mod Resolver
pub mod Worker
