-- ===== src/Lib.antt =====
-- A verification library for the network programs of networkEX.
--
-- The repository is a collection of small C programs around sockets: a file server with its client,
-- a web server, a chat server, calculators, raw-socket tools, and processes that share memory. The
-- programs do not call each other; they interact over a connection, or over memory. The modules:
--
--   Common        names and lemmas that the others share: C strings in byte arrays (Bytes), integers
--                 (Int), the byte order (Words), printf and scanf of a number (Decimal, Scanf), a line of
--                 fgets (Fgets), tests and lists.
--   FileService   26_file_server: the query (Query), the handlers proc, serv_file_upload,
--                 serv_file_download, callback and serv_file_list of file_server/main.c (Server), and
--                 upload, download and get_list of file_cli/main.c (Client) with the options and the
--                 choice of the request in its main (Options), over files by name (Disk); main of
--                 file_server/main.c with a child for each connection (Listener). The
--                 specification of the server is a store of named contents (Store).
--   WebServer     27_web_server/web_server/main.c: protocol_parser (Parser), sendpage and webserv
--                 (Page), and main with a child for each connection (Listener).
--   Chat          17_epoll_siginfo/chat_server_rts/main.c: the table user_fds, setup_sigio,
--                 make_listener, make_connected_fd, send_chat_msg, and the loop of main as step and
--                 run (Server); the loop of 17_epoll_siginfo/chat_linux_cli/main.c (Client).
--   RawSocket     21_raw_socket: in_cksum (Checksum), the request and the reply of icmp_check/main.c
--                 (Ping), main, PrintPacket and PrintTcp of packet_capture/main.c (Capture).
--   SharedMemory  11_IPC/shm_producer_sem/main.c and 11_IPC/shm_consumer_sem/main.c as a relation of
--                 steps, one shared access at a time (Semaphore); shm_producer and shm_consumer, which
--                 have no semaphore (Unsynchronised).
--   Calc          9_UDP/calc_linux_server/main.c with calc_linux_cli/main.c (Udp), the line from
--                 the client's keyboard through sscanf (Input), both loops (Client), and
--                 8_TCP/cal_server/main.c (Tcp), on 32-bit patterns (Arith).
--   Echo          16_block_nonblock/echo_server_nonblocking/main.c (NonBlocking) and
--                 13_Select/echo_server_multi/main.c (Select): their loops over what the kernel
--                 answers.
--   EchoLoop      10_proc/echo_server_fork, 14_Linux_Mulit_thread/echo_server_thread,
--                 25_xinetd/echo_xinetd, 11_IPC/echo_server_udomain, 4_network/echo_server and
--                 11_IPC/echo_server_pipe (Servers), 4_network/echo_client,
--                 11_IPC/echo_client_udomain and 11_IPC/echo_client_pipe (Clients); main of
--                 echo_server_udomain and the loop of echo_server (Mains);
--                 12_recv_send/echo_server_oob (Urgent).
--   Threads       14_Linux_Mulit_thread: count_thread_mutex (Mutex), count_thread (Unlocked) and
--                 catc_multi (Sum) as relations of steps, one shared access at a time; and how main of
--                 echo_server_thread hands its connections to threads (Handoff).
--   Addresses     24_IPv6/echo_clint_all (Connect), 24_IPv6/getaddrinfo_test (Listen) and
--                 7_IP_Address/check_class (Class).
--   EpollChat     17_epoll_siginfo/chat_cil/main.c: user_fds, the structures on the heap, and the
--                 loop over the events (Server).
--   Stdio         12_recv_send/echo_server_stdio/main.c (Lines) and echo_server_formattedio/main.c with
--                 its fscanf (Formatted).
--   Shell         10_proc/myshell/main.c: its loop over the standard input (Loop).
--   Multicast     23_multi_cast/chat_multi_casting/main.c: the setup and both processes (Channel).
--   SelectDemo    13_Select/myselect (Files) and 13_Select/prompt_timeout (Prompt).
--
-- The operating system is outside: the answers of write and send, the blocks that recv and read give,
-- the outcomes of fcntl, bind and accept, the files, the clock and the rows of the database are
-- arguments, and a theorem that needs more of them than any answer at all has that as a hypothesis. A
-- function returns `none` where the C code would run past an array, which is undefined.
--
-- A loop over the rest of a file has the length of the file and one as its fuel: every round but
-- the last takes a byte. The shell and the line server are followed for a number of rounds that is
-- an argument, with an outcome of its own for a loop that goes on, and a theorem says how many are
-- enough. Loops over a connection recurse on the list of the blocks that arrive. The loop of
-- send_chat_msg has the 1024 entries of the table as its fuel, and the loops of the echo servers
-- the maxfd + 1 descriptors that they go over.
--
-- Not modelled: gettime of the file server, which nothing calls, the opening of sockets where a program
-- only makes the calls in a row, the setting of signal masks, text printed for the operator, and the
-- other programs of the repository, which are demonstrations of one call each or generated code, and
-- the handler of out-of-band data.
pub mod Common
pub mod FileService
pub mod WebServer
pub mod Chat
pub mod RawSocket
pub mod SharedMemory
pub mod Calc
pub mod Echo
pub mod EchoLoop
pub mod Threads
pub mod Addresses
pub mod EpollChat
pub mod Stdio
pub mod Shell
pub mod Multicast
pub mod SelectDemo
