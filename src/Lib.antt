-- ===== src/Lib.antt =====
-- A verification library for programs of this repository, which are written in C.
--
-- The server (task4_network_ipc/server.c) keeps a store of 128 key and value slots behind one mutex
-- and serves each connection in a thread of its own. Server/Store models the slots and `store_put`,
-- `store_get`, `store_del` and `store_list`; Server/Input models `recv_line`, the `sscanf` of a
-- line, `is_valid_token` and `send_line`; Server/Session models one round of the loop of
-- `handle_client`, as `turn`, and Server/Session/Run the whole loop on what a peer sends;
-- Server/System has all connections at once, whose rounds interleave in any order. A round touches
-- the store in at most one operation, which holds the mutex throughout, so a round is one step.
-- What `recv` returns is a parameter: a list of bytes, ends and errors. Strings are lists of
-- bytes; an array of n bytes that `strncpy` and a final NUL fill keeps the first n - 1 of them.
--
-- The file system (task3_filesystem_security): Files/Disk has the structures of common.h and what
-- the program keeps on disk; Files/Sha and Files/Crypto model crypto.c (Files/Sha/Pad has the
-- padding and the blocks of the standard, against which it is read), Files/Audit audit.c,
-- Files/Auth auth.c, Files/Perms perms.c and Files/Ops fileops.c, each function under its name. A
-- function takes the disk and returns it with its result. What the C library decides (which file
-- opens, whether memory is given, the text of the clock, the numbers of `rand`) is the record `Io`
-- or an argument. 32-bit words wrap at 2 ^ 32.
--
-- Files/Menu models main.c of the file system: `read_line`, a round of `login_screen` and of
-- `session_loop` with a function for each choice, and in Files/Menu/Loops the loops and `main`. What
-- is typed is a list of bytes with an end, what is printed a list of messages; each round has its own
-- `Env`, the answers of the C library. Files/Menu/Entered describes the lines with which a user gets
-- in, Files/Menu/Entries the entry of the audit log that each choice of a session owes.
--
-- The client (task4_network_ipc/client.c): Client has the loop of `main` with `read_stdin_line`, over
-- a parameter that says what the other end makes of the bytes it is sent and what it answers.
-- Client/Exchange fills the parameter by a round of the server's `handle_client`, so that
-- Client/Commands can follow commands from the keyboard to the store and back. Prelude/Stdin has
-- `fgets` and what both programs do with its newline.
--
-- The paging simulator (task2_memory_management/paging_sim.c): Paging/Frames has the addresses, the
-- pages and the frame table, Paging/Fifo models `run_fifo` and Paging/Fifo/Queue is the queue that
-- it implements; Paging/Lru models `run_lru` and Paging/Lru/Stack is its stack. Pages are not
-- negative and an empty frame is `none`. The array of the program has 16 frames; the theorems hold
-- for any number of them.
--
-- The deadlock demonstration (task1_process_threading/deadlock_demo.c): Threads/Deadlock has the
-- calls of `thread_a` and `thread_b` in both variants, as lists, and a step relation over the owners
-- of the two mutexes; a thread that locks a mutex which has an owner does not step.
-- Threads/Deadlock/Phases says where the threads can be, Threads/Deadlock/Progress what follows.
--
-- The scheduler (task1_process_threading/scheduler.c): Threads/Scheduler models `run_round_robin`
-- with each slice of `process_thread` as one step. Threads/Scheduler/Handoff has the dispatcher and
-- the threads of the processes as they are, with the semaphores `turn_sem` and `done_sem`: a step is
-- a call on a semaphore, a section under `pcb_lock`, or the end of a round of `process_thread` behind
-- its `sem_post`, in any order. Threads/Counter has the threads of `counter_worker`; each load and
-- each store of a counter is a step.
--
-- Bounds and fuel: the `while` loop of the dispatcher runs on fuel, and Threads/Scheduler/RoundRobin
-- says how much is enough; that of a session runs on fuel in Server/Session/Run, where more than
-- there is on the socket is enough; the loops of client.c and main.c run on fuel, where more than
-- there is typed is enough, but for the input that main.c cannot see the end of; `recv_line` recurses on the bytes that the buffer still takes;
-- a decimal number has at most as many digits as one more than its value, which is the fuel of
-- `decimal`; all other loops recurse on the list that they walk through.
--
-- Not modelled: sockets and Winsock, the start-up of the server and its log file, and the printing
-- of tables, ratios, prompts and banners. The stored files are kept apart from the databases and the
-- log, while `storage_path` in fileops.c lets a name such as `../audit.log` reach these: the model is
-- that of names without slash, backslash and colon (`IsLocal` in Files/Ops). Of the failures of the C
-- library's files only those to open one are modelled: what opens is read and written whole.
pub mod Prelude
pub mod Server
pub mod Client
pub mod Files
pub mod Paging
pub mod Threads
