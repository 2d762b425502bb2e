-- ===== src/Lib.antt =====
-- micro-business-server: a reverse proxy in front of small business servers.
--
-- The program. The proxy (proxy_server/) reads a configuration file, connects to the business
-- servers that it names, accepts clients, and passes requests on by the longest location that
-- their path starts with. A request gets a header line `Client: ip:port`; a business server
-- copies it into its reply, and the proxy finds the client by it. One thread runs the event
-- loop; workers take readable connections from a bounded queue.
--
-- The parts and the files, by the class that each one models:
--   proxy_server/config.h                Proxy/Config: Types (the parser's state), Text (trim,
--     lines, words), Blocks (parse_server, parse_location, parse_upstream), and parse itself;
--     proofs in Words and Accepted, and the round trip in Site (what a file says), Spaced,
--     Trimming, Printing, Reading, States, Entries, UpstreamEntries,
--     BlockEntries and RoundTrip
--   proxy_server/event_loop/EventLoop    Proxy/EventLoop: connect_to_business_server,
--     handle_new_connection, handle_message, wait_epollfd, and loop in Looping; proofs in Keeping,
--     ServerLists, Wiring, Plan, Connected and Clients; the clients that wait to be accepted in
--     Backlog and Lagging
--   EventLoop::loop with the workers     Proxy/System: events, tasks and calls of process, one at a
--     time in any order; what every state has in common in Pending and Events, the theorems in Running,
--     Draining, Repeated, Shrinking and Abandoned; two workers by their single calls on the tables
--     in Race and Race/Misdirected
--   createEpollfd, addEpollReadFd, ...   Proxy/SystemCalls: the calls on the epoll descriptor
--   proxy_server/tcp/Acceptor, Socket    Proxy/Acceptor: the calls on the listening socket
--   proxy_server/ProxyServer.hpp, main   Proxy/ProxyServer: the parts put together; the start from a
--     configuration file in Starting
--   proxy_server/tcp/InetAddress         Proxy/InetAddress: the constructor, ip_port and the text
--     of a number; proofs in Decimal and Address
--   proxy_server/tcp/SocketIO            Proxy/SocketIo: readn and writen; proofs in Reading and
--     Writing
--   proxy_server/tcp/TcpConnection       Proxy/TcpConnection: Types, Request (parse_request_line,
--     find_forward_path), and process, do_client2server, do_server2client, error_handle; proofs in
--     ForwardPath, RequestLine, ClientField, Forwarding, Reply, RoundTrip, Leaving, Stuck,
--     Fitting, Consistent, Effects, Merged, Segments,
--     ErrorText
--   proxy_server/threadpool/TaskQueue    Proxy/TaskQueue: push, pop and wakeup as steps of
--     threads; proofs in Mutex, Safety, LostWakeup, Shut
--   proxy_server/threadpool/Threadpool   Proxy/Threadpool, with Thread: start, threadFunc, stop and
--     join as steps over those of the queue; proofs in Inside, Accounts, Effects, Moves,
--     Preserved, Kept, Stop; the threads themselves, with the destructors, in Threads
--   http_server/HttpRequest.h            Business/Request: parse_query, setQuery, getQuery,
--     getHeader, swap; the round trip of a query in Business/QueryText, the messages of one
--     connection in Business/KeepAlive
--   http_server/server1.cc               Business/Server: do_buy, do_show, onRequest; when the
--     stock changes in Business/Buying; who is answered in Business/Answers and Business/Naming
--   http_server/server2.cc               Business/Server2: the same handlers for another table;
--     compared with the first server in Business/SameShop
--   http_server/config.cpp               Business/Options: parse_arg
--   main of server1.cc and server2.cc    Business/Main: the options and the pool; how many users can
--     have a connection in Business/Main/Limits
--   http_server/sql_connection_pool, sem Business/Pool: GetConnection, ReleaseConnection, init,
--     the destructor; where the connections are in Business/Pool/Accounting, as bags in
--     Business/Pool/Bags, GetConnection by parts in Business/Pool/Race
--   both together                        Trip: a request through the proxy, a business server and
--     the proxy again; what the server sends in Trip/Answer, whom it reaches in Trip/Return
--     and Trip/Jam
-- Base holds the shared lists, texts, integers, maps and exceptions, with their lemmas. Tests
-- runs the model on small inputs.
--
-- State. A text is the list of its bytes. A `std::map` is the list of its pairs in the order of
-- the keys. The four tables that the event loop and all connections share are one record, Tables,
-- that an operation takes and returns. What is sent is a list of texts by socket. An exception is
-- a value of Result; a null pointer that is dereferenced is `none`.
--
-- The outside. What the kernel answers (recv, write, socket, connect, accept, epoll_wait) is an
-- argument of the operation that asks. `inet_ntoa` and the JSON writer are the fields of Platform.
-- The MySQL calls, `atoi` and the JSON texts are parameters of Business/Server. What `getopt` and
-- `pthread_create` answer is an argument too. How the HTTP module of muduo reads and writes messages
-- is the record FrontEnd, with its laws in IsHttp (Business/FrontEnd): a value of a header has no blank
-- at its ends, since addHeader takes those off.
--
-- Bounds and fuel. The loop of find_forward_path has the length of the path as fuel: each round
-- lowers the position. A loop over the words of a configuration line has as much fuel as there are
-- words: each round takes one. Fuel that runs out is an exception of its own, out_of_fuel, which no
-- other code throws. The loop of parse_query has as much as the query has bytes. Sizes are
-- natural numbers: texts are shorter than 2^31 bytes, so the `int` positions of the code do not
-- wrap. `ntohs` swaps two bytes of a 16-bit port; an `int` becomes an `unsigned short` or a `size_t`
-- by its remainder.
--
-- Not modelled: the copies of muduo's HTTP module; what a system call does inside the kernel, but for
-- the reports of EPOLLET that Backlog states; output to the console. In System the workers run one
-- operation at a time on the tables, which no lock protects: what is proved of its runs is about runs
-- in which no two calls overlap, and Race takes two of the operations apart. Pool is alike: its calls
-- come one at a time, and Business/Pool/Race has the parts of GetConnection. Rows of the database with
-- NULL in a column are left aside, and memory that runs out.
-- What the language leaves undefined when two threads are inside one call on a map is outside.
pub mod Base
pub mod Business
pub mod Proxy
pub mod Trip
mod Tests
