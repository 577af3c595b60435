-- ===== src/Lib.antt =====
-- network-programming-lab: a set of small network programs in C and C++, each a file with its own
-- `main`. They share no code but copies of helpers, so each is modelled by itself; a module is
-- named for what it models.
--
-- Each name of a source file is its path from the root of the repository.
--
-- Tftp models trivial-file-transfer-protocol.c. Wire has the constants, the packets, `send_error`
-- and the request that both transfers build in their buffer; Link has what `recvfrom` and `sendto`
-- exchange with the world, as events and as a record of what was sent; Get is `tftp_get` and Put is
-- `tftp_put`, each a state record, a step for one `recvfrom`, and a run over the events; Main is
-- the choice that `main` makes by its arguments. Transfer joins the two ends.
--
-- Url models the percent-encoding: `url_encode` of multithreading-http-server.c and `url_decode` of
-- np20.c.
--
-- HttpServer models the rest of multithreading-http-server.c. Page is the pattern of `snprintf`
-- calls by which `scan_directory` fills its buffer, Entries is `scan_directory`, and Answer is
-- `send_favicon`, `send_response` and `handle_client`. It uses Url for the links, Listing for the
-- order of the entries and Decimal for `%d`.
--
-- FileServer models np20.c. Output is `Append`, `CreateHTML` and `Send`; Reader is the loop that
-- receives a byte at a time, with what stands in memory behind its buffer as a parameter; Request
-- is what `ClientThread` makes of a request, Upload what it does for POST, Client the whole thread,
-- and Main the set-up and the loop of `main`, with the disk that the clients share; its child
-- Threads lets the threads take turns, one for each call of `recv` in an upload. Text has `strstr`,
-- and Scanf the words that `%s` reads, for both servers.
--
-- Telnet models multi-thread-telnet-simulation.c: the threads are places in `clientThread`, and a
-- list of turns, of which each lets one of them go on or a new client in, is an interleaving.
--
-- Chat models the three chat rooms: Threads is multithread-chatroom-server.cpp as a step relation
-- on the room and the threads, Processes is tcl-chatroom-server.cpp with the descriptors that are
-- open in the parent and with the signals, and Datagrams is multiple-client-udp-server.cpp.
--
-- FileShare models file-sharing-server-client.cpp: Streams is what `>>` reads off a
-- `std::istringstream`, Registry is `run_server` and the listing in `run_client`, and Transfer the
-- commands of `run_client`, the agreement of two clients on an address, and a file on its way, and
-- Client the two loops of `run_client`, with the ports at which the parent waits for answers;
-- Opening has the sockets of broadcasts and of the server.
--
-- Sockets models the programs that are one `main` and a socket: Greeter is simple-tcp-server.cpp,
-- Shell is simple-ssh-simulation.cpp, Echo is simple-udp-client-and-server.cpp, and Relay is
-- simple-netcat-client.cpp. Start has the calls that open a socket, as a list that ends where one
-- of them fails, and the other servers use it as well.
--
-- Pages models the page that scandir-usage.cpp and scandir-mo-rong.c write in a round, and those of
-- a session; Console models ex1.cpp, ex2.cpp and tao-ham-ghep-xau.cpp.
--
-- Listing has the comparators, `compare_entries` of multithreading-http-server.c and `Compare` of
-- np20.c, which scandir-mo-rong.c and scandir-usage.cpp repeat. Browser models scandir-mo-rong.c:
-- the path in the global `root` and the prompt in `main`. Strcmp and Decimal are `strcmp` and `%d`
-- of the C library; `qsort` is a parameter, `Sorter`, whose laws are what the library promises for
-- a comparator that is an order, and insertion sort shows that they can be met.
--
-- How the state corresponds: a buffer is the list of its bytes, with the old bytes behind those
-- that a datagram has overwritten; a text is the list of its bytes without the NUL; a machine
-- integer keeps its wrap-around written out; a file is the bytes that were handed to `fwrite` or
-- that `fread` will give. The socket layer, the file system and the clock are not code of this
-- repository: what they answer is an argument, a list of events or a flag for a call that may fail,
-- so every interleaving of datagrams, timeouts and errors, or of threads, is covered by the
-- statements that range over such lists. A write outside a buffer, or a read of it that the
-- language leaves undefined, is an outcome of its own (`faults`, `none`), never skipped.
--
-- The loops recur on the events, the texts or the files that they consume. A few run on fuel:
-- `Decimal.decimal` on one more than the number it prints, which is enough since a number has no
-- more digits than that; and `send_blocks`, `blocks`, `read_lines` and `joined` on the length of
-- the text they consume, of which each round takes at least a byte.
--
-- Not modelled: turns of other threads of np20.c inside a request that writes no file, what the
-- programs print as a log, what becomes of a call that fails where the code does not look, and
-- ftp-using-select.c and multi-thread-telnet-simulation.cpp, which are empty.
mod Prelude
pub mod Strcmp
pub mod Tftp
pub mod Scanf
pub mod Url
pub mod Browser
pub mod Listing
pub mod Decimal
pub mod HttpServer
pub mod FileServer
pub mod Telnet
pub mod Chat
pub mod FileShare
pub mod Sockets
pub mod Pages
pub mod Console
mod Tests
