-- ===== src/Lib.antt =====
-- The distributed file system of this repository: nodes that join a ring at an introducer, watch
-- their neighbours by heartbeats, elect a master, and keep copies of files on three members.
--
-- Parts, and how they interact. The introducer (src/client.cpp, `intro_handler`) keeps the ring of
-- src/virtual_ring.cpp; on JOIN and LEAVE it changes the ring, answers with the addresses of the
-- sender's four neighbours, and starts `update_nodes`, which sends every other node its own. Each
-- node keeps a membership list and its local neighbours, merges the lists that heartbeats carry
-- (`heartbeat_handler`), marks silent neighbours (`failure_detector`) and takes the last living
-- member as master (`master_elector`). The master answers where a file goes (`putfile_handler`,
-- `where_to`), the monitors answer who holds it (`monitor_handler`), and the commands of `main`
-- ask both and move the bytes by `upload_file` and `download_file` of src/ftpclient.cpp, with a
-- child of src/ftpserver.cpp at the other end. Every request but those of files goes through
-- `udp_sendmsg` and `handle_receive` of src/com.cpp.
--
-- Files. Base, Text: shared names, numbers, strings as lists of bytes, `std::map` and `std::set`
-- as sorted lists, `boost::split` as the parameter `Boost` with its documented behaviour, `atoi`.
-- Node: `struct node` and `class virtual_ring` as a heap, each field a function of the address.
-- Ring: `insert`, `leave` and `put_file` of src/virtual_ring.cpp, statement by statement, and the
-- lines of `display` (Display); its children hold what makes the nodes a ring (Shape), the list of
-- addresses that it stands for (Spec), and the theorems (Refine, RefineLeave, History).
-- Introducer: `intro_handler` and `update_nodes`. Members: the handlers and thread rounds of
-- src/client.cpp on the membership list of src/membershiplist.hpp. Placement: `where_to`,
-- `putfile_handler`, `monitor_handler` and `find_file_remote`. Replication: `monitor`, the files
-- of all nodes after a round (Round, Restore), a `get` after it (Recovery), and all of it after
-- two failures (Survival). Transfer: the loops that send and receive a file, over a socket that is
-- a parameter (`Socket`). Ftp: both ends of one request of a file, `upload_file`, `download_file`
-- and `list_remote_files` at one end and `get`, `put` and `ls-remote` at the other; each end is a
-- function of its own connection, which says what the other end answers (`Answers`), and for a
-- message that the code takes from one `recv` that it comes in one piece (`AnswersWhole`,
-- `InOnePiece`); the bytes of a file may come in any pieces. Datagram: `udp_sendmsg` and the UDP
-- server, over a network that is a parameter (`Network`). Tcp: `tcp_send_file` and
-- `tcp_connection` of src/com.hpp, and `tcp_file_server` with the loop of src/sdfs.cpp that sends
-- to it (Tcp/Server). Commands: the menu of `main` over an interface of the other parts
-- (`Remote`); `Service` has the laws that the commands rely on, and Commands/Cluster the handlers
-- of Placement that keep them. Members has the steps of a node in any order (Life, Silence,
-- Beating). System: the introducer and any number of nodes with the datagrams between them,
-- `servo`, `updater`, `runner`, `runner_back` and the start of a process in `main`; an event is a
-- step of one thread or a datagram that arrives (Steps, Reach), and Converge has a run of
-- `update_nodes` with the processes that it informs. Examples: concrete runs, and the theorems at
-- concrete inputs.
--
-- Conventions. `none` is undefined behaviour of the source (a NULL dereference, a missing field,
-- reading `end()`) or an exception. One is not: the constructor of `member_entry` writes the
-- address past the end of an empty string; the entry keeps those bytes in `overrun`, and what is
-- said of it holds where they hurt nothing else. Each handler, and each round of a thread, is
-- taken as one step; `time(0)` is an argument. Loops with a counter recurse on the rounds left,
-- which is the source's own bound; the loops of Transfer recurse on fuel, the number of bytes,
-- which is enough since every round that is not the last moves at least one.
--
-- A name, a path or a listing that does not fit its buffer of 256 bytes, and a request that does
-- not fit its datagram of 512, is `none` as well, and so is a file that `fopen` does not find. A
-- folder that is written to is taken to be there.
--
-- In System every datagram that was ever sent may arrive, in any order, again, or never, and
-- reaches its handler as it was sent; Datagram has the limits of the buffers on the way. A JOIN is
-- one step, from the request to the start of the new process.
--
-- Not modelled: what boost::asio and the sockets do inside, `accept`, `fork`, `connect` and the
-- lookup of a host, sleeps and what threads do inside one another's handlers, the log file,
-- exceptions that `main` catches in a command, the launchers (src/server.cpp, src/daemon.c) and
-- test/DS_Introducer.cpp, an older copy of the ring. `int` and `time_t` are taken without
-- overflow.
pub mod Base
pub mod Commands
pub mod Datagram
pub mod Examples
pub mod Ftp
pub mod Introducer
pub mod Members
pub mod Node
pub mod Placement
pub mod Replication
pub mod Ring
pub mod System
pub mod Tcp
pub mod Text
pub mod Transfer
