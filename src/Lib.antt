-- ===== src/Lib.antt =====
-- Models and proofs for os_tasks, a collection of small programs for POSIX systems written in C.
-- Each program stands alone: none calls another, and only the two of shmem share memory and the
-- two of the fifo a file. The programs modelled are chmod/mychmod.c, which changes the modes of
-- files, archive/archiver.c, which keeps files in an archive, cat+grep/mycat.c, which prints a
-- file, cat+grep/mygrep.c, which prints the lines in which a pattern is found, ls/main.c, which
-- lists a directory, pthread_mutex/main.c, in which readers print what a writer writes,
-- shmem/writer.c with shmem/reader.c, two programs that share a segment of memory, fork/main.c, in
-- which a parent and a child pass signals on, pipe/pipe.c, in which a parent writes a message to
-- its child, and pipe/write_fifo.c with pipe/read_fifo.c, which do the same through a fifo.
--
-- Base holds the names, tests and lemmas that all share: Base/Tests (Booleans), Base/Lists (lists
-- over the native numbers), Base/Bits (bitwise operators read bit by bit), Base/Strings (numbers
-- and strings as printf prints them, lines as getline reads them), Base/Lines (the lines of what
-- lines make together), Base/Digits (how many digits a number has), Base/Buffers (buffers that
-- hold a string and what `%s` prints of them) and Base/Runs (the type Outcome: how a run of C code
-- ends - with a value, by exit(EXIT_FAILURE), by an access through a bad pointer, or without an
-- end in its fuel).
--
-- Chmod models chmod/mychmod.c. Chmod/State has the enums, the nodes of `changed_perm` behind
-- pointers and the globals; a pointer is a number, 0 is NULL and k + 1 is the k-th node that
-- malloc returned. Chmod/Parser has `parse_mode_str`, one function for each case of the switch;
-- Chmod/Apply has `apply_modes`; Chmod/Program has `main` over a file system that is a parameter
-- (`stat` and `chmod`). What `add_changed_perm` leaves unset in a new node, its `next`, is the
-- parameter `leftover`; `cur_char`, declared in the body of the loop and read in the next round,
-- is taken to keep its place on the stack. The loop of the parser gets two rounds for each
-- character and three more, the loop over the list a round for each node and one more, as does the
-- loop that frees it. Chmod/Grammar defines the symbolic modes and their text, Chmod/Covers what a
-- mode means for one bit; Chmod/Clear has `clear_changed_perm`, which frees the list at exit, with
-- the nodes that have been freed; the other modules of Chmod hold proofs.
--
-- Archive models archive/archiver.c. Archive/Format has the packed struct `file_info` and its
-- bytes on a little-endian machine, Archive/Descriptor what read, write and lseek do on a regular
-- file without errors of the device, Archive/Header the list `fi_list` (a list up to the node
-- whose `eof` is set; the `data` of that node is there too and is never set) with `read_header`,
-- `update_offsets_in_header` and `remove_files_from_header`, Archive/Copy `copy_file`,
-- Archive/Remove `remove_files`, whose temporary file may have older bytes. The loop of
-- `read_header` gets a round for each byte and two more, that of `copy_file` a round for each full
-- buffer and one more. Archive/Extract has `extract_files` over a directory that is a parameter,
-- Archive/Input has `input_files` with `update_header_for_input` and `insert_files_routine` over
-- files that are a parameter, Archive/Program `parse_args` and `main`, whose procedures are a
-- parameter. Archive/Sizes has `hr_file_size` with the rounding of a float and of %.2f,
-- Archive/Stat `stat_archive`, whose widths are natural numbers, since they stay small.
-- Archive/Nodes has `fi_list` as nodes at addresses: Archive/Nodes/Memory the functions on them,
-- which also free nodes, where malloc is taken to succeed and a use of freed memory is a fault;
-- each loop gets a number of rounds, and one for each node, with one more for `free_fi_list`, is
-- enough. Archive/Disk has the runs of the program, one after another, on one archive, and the
-- members that the archive stands for; the temporary file is one of the directory that the members
-- are extracted to, and a parameter says which names lead to it. The files that are put in are
-- taken to stay as they are. The unchecked calls of `open` for the temporary file, `remove` and
-- `rename` are taken to succeed. print_help and the messages of print_err are not modelled; the
-- archive is taken not to be one of the files that are read or written beside it. Archive/Layout
-- says when bytes are an archive of given members.
--
-- Cat models cat+grep/mycat.c: Cat/Program has `count_lines` and `list_routine` as functions of
-- the flags and of the bytes of the file, where `getline` gives the lines one after another; the
-- loop for the width of the numbers gets as many rounds as the number and one more. Cat/Options
-- has `main` with the options that getopt gives and fopen as parameters. The messages and the
-- errors of the stream are not modelled.
--
-- Grep models cat+grep/mygrep.c: Grep/Program has `list_routine` and `main`. regcomp, which gives
-- the function that regexec then is, and fopen are parameters, as is what the calls leave in
-- errno. The strings that regexec and printf see end at the first zero byte. `argv` is what getopt
-- leaves of it.
--
-- Ls models ls/main.c. Ls/Format has the texts of the mode and of the name, Ls/Names `_dirent_cmp`
-- and the order of the names, Ls/Short what the short format says of a file apart from the code,
-- Ls/Listing `_prepare_path`, `_prepare_files_list`, `_print_file`, which is split into its two
-- formats, `_list_routine` and `main`. Ls/World has what the program asks of the system: lstat,
-- the look-ups of users and groups, readlink and ctime, and opendir and qsort. A directory is what
-- readdir gives from its start and again behind rewinddir; the entries are taken to keep their
-- places in memory. A path that does not fit into `_path` and a second reading of another length
-- than the first end the model in `overrun`. The loop over the permissions gets ten rounds, one
-- more than it makes. The options are what getopt gives; the messages are left out.
--
-- Threads models pthread_mutex/main.c. Threads/State has the shared string, the counter, the
-- holder of the mutex and the places of the threads, Threads/Moves the steps of the writer, of the
-- ten readers and of `main`, each between two accesses of the shared state, in any order.
-- pthread_mutex_lock waits until nobody holds the mutex and lets any waiting thread go on, sprintf
-- may leave anything in the string before it is through, and the joining of the writer is taken to
-- succeed. The ids of the threads and the length of the sleeps are left out. Threads/Invariant has
-- what holds in every reachable state; Threads/Keep, Threads/KeepReader and Threads/Reach are
-- about its steps, Threads/Leads, Threads/Progress and Threads/ReadersEnd about how the threads go
-- on.
--
-- Shmem models shmem/writer.c and shmem/reader.c. Shmem/State has the message and the state,
-- Shmem/Moves the steps of the two main loops, byte by byte: memcpy may take the bytes in any
-- order, and nothing keeps one program from running into the other. Shmem/Start has `main` of the
-- writer up to its loop as a function of the results of the calls, with the file and the segment
-- that are left behind, and that of the reader; the segment is the one with the key that ftok
-- makes of the file, and a file that is made anew has no segment yet; Shmem/Life has writers and
-- readers that start and end one after another. The number of the process and ctime are
-- parameters. The handler of the reader, which only detaches, and what it prints of itself are not
-- modelled.
--
-- Fork models fork/main.c. Fork/State has where each process stands, its `pid` and what `kill` has
-- been called with, Fork/Moves the steps of `main` in both, with SIGINT and SIGTERM at any place.
-- A handler is one step, that is, no other signal comes in it, and of the calls of `kill` only
-- that they are made is said. What is printed is left out.
--
-- Pipe models the programs in pipe. Pipe/Bytes has the message and what `write` and `read` do with
-- a buffer, Pipe/State the parent and the child of pipe.c, Pipe/Fifo the two programs of the fifo:
-- a function says what each process does next, or that it waits. A pipe takes 1024 bytes at once,
-- `open` of a fifo waits for the other program, and a write without a reader ends the writer.
-- Pipe/Runs says that two such processes come to an end in whatever order they run. pipe and
-- mkfifo are taken to succeed, and no signals come.
--
-- Not modelled: the messages on progress and errors, and the build files.
pub mod Base
pub mod Chmod
pub mod Archive
pub mod Cat
pub mod Grep
pub mod Ls
pub mod Threads
pub mod Shmem
pub mod Fork
pub mod Pipe
