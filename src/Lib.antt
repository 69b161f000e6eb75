-- ===== src/Lib.antt =====
-- Project Hail: the services and libraries of a cloud storage system. Modelled here are the parts
-- of the lock and file service (cld/), of its client library (lib/cldc.c), of the chunk server
-- (chunkd/) and three libraries that they use: the hash table (lib/htab.c), the timers
-- (lib/libtimer.c) and the asynchronous writes (lib/atcp.c).
--
-- The server keeps its sessions in a hash table, and inodes, handles and locks in Berkeley DB. A
-- client's request arrives as signed packets; a handler of cld/msg.c works on it under a
-- transaction and replies by sess_sendmsg, which breaks a message into packets, queues them, and
-- repeats them until the client acknowledges them. The client puts the packets together again.
--
-- Base and its children: shared helpers (tests on numbers, lists, places of a list).
-- Htab: lib/htab.c. Chain has the loops over one bucket (htab_get, htab_del), Buckets the
--   well-formedness of a table, Rehash what htab_resize keeps, Laws htab_new and htab_put, Deletion
--   htab_del, Clear htab_clear and htab_foreach, Misplaced a put that enlarges the table. An
--   allocation is a test on its size; a read outside the table of primes is a fault.
-- Timer: lib/libtimer.c. Glist states what it uses of GLib's lists, Sorted the well-formedness of
--   the list, Laws and Updates cld_timer_add and cld_timer_del, Run cld_timers_run. A callback is a
--   list of additions and deletions. The loop runs on fuel; more fuel than there are timers due is
--   enough, since a callback can only add timers after the mark.
-- Cld: cld/. Db is the interface to Berkeley DB, with what it documents as laws. Lock is the lock
--   table (cldb_lock_add, cldb_lock_find, cldb_lock_del, session_remove_locks, inode_lock_rescan),
--   with Compare (lock_compare), Scan, Effects, Exclusion, Adding and Rescan. Session is the
--   output queue (sess_sendmsg, msg_ack, session_retry), with Fragments, Queue, Retry and Timeout
--   (session_timeout), and Frame. Signature is lib/pkt.c. Server is the reception of packets by
--   cld/server.c (cli_rd_pkt, get_pkt_info, validate_pkt_session, pkt_chk_sig, tcp_rx), with
--   Parts, Steps, Safety, Packets, Delivery and Interruption; Newcomers has msg_new_sess,
--   msg_end_sess and sess_load of cld/session.c, with Greeting. Disposal has session_remove, with
--   Locks. Requests has the handlers msg_lock, msg_unlock, msg_close, msg_put and msg_get, with
--   Naming (msg_open, msg_del), Atomic (the transaction), Locking, Unlocking, Refusals, PutGet,
--   Opening and Deleting. Dir has the path names and directory entries of cld/msg.c, with Entries
--   and Paths. Breaking up a message and searching a directory run on fuel: the length plus one,
--   which is enough because a round that goes on takes off at least one byte.
-- Cldc: lib/cldc.c, the reception of packets (cldc_receive_pkt), with Reassembly and Duplicates,
--   and in Messages the messages of the client (cldc_new_msg, sess_send, the requests), with
--   Sending; Listing is the reading of directories (cldc_dirent_*, cmd_ls of tools/cldcli.c).
-- Atcp: lib/atcp.c, the queue of writes for a socket, with Stream (what a writev takes), Order and
--   Count (the water level). A callback may queue writes when its write is done; one whose write
--   failed queues none.
-- Chunkd: of chunkd/, Objcache is objcache.c, the objects in use, with Holders and Calls, and
--   Clients is the part of server.c that serves a connection: Operations (cli_err, login_user,
--   cli_evt_exec_req and what it calls of that file), Events (the other states and tcp_cli_event),
--   Replies, Access, History (all events of a connection), and Assembly (the reading of a request)
--   with Steps, Whole and Overrun. A function of another file is named as what comes next, not
--   run; the loop over the states goes on for as many answers of the system as there are.
-- Tests: runs of the code, with a store and lists in memory that satisfy the laws.
--
-- The table of the sessions is a map where packets are received, and the table of Htab where a
-- session is put into it. Numbers are natural numbers; the widths that wrap (the count of a table,
-- sequence numbers, inode versions and sizes, lock comparisons) wrap in the model. Times do not
-- wrap. HMAC-SHA1, the XDR code that rpcgen makes, Berkeley DB and GLib are parameters. Memory is
-- there, except in lib/htab.c.
--
-- Not modelled: the framing of the TCP stream, the search for a free inode number, the replies at
-- the client library and its retries, the synchronous client, and replication; the object
-- operations and the storage of the chunk server, its client, the S3 client, the socket code, the
-- tools and the tests.
pub mod Base
pub mod Htab
pub mod Timer
pub mod Cld
pub mod Cldc
pub mod Atcp
pub mod Chunkd
pub mod Tests
