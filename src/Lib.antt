-- ===== src/Lib.antt =====
-- CoroutineServer: an instant-messaging server. Clients send frames (id, length, JSON body) over
-- TCP; a coroutine per connection reads them and posts them to one worker thread, which runs the
-- handler of the id; handlers use the database, the map of online users and the send queues of
-- sessions.
--
-- Parts, files and their correspondence to the code (paths from the repository's root, those without
-- a directory from CoroutineServer/):
-- - Prelude.antt and below: names, lists, integers, byte strings. Const.antt:
--   CoroutineServer/const.h.
-- - Wire.antt (Wire/Endian, Wire/Frame): MsgNode.h and MsgNode.cpp. A `short` is its bit pattern, a
--   number below 65536, and `signed` reads it; `msg_node` is the constructor, none where the vector
--   throws.
-- - Reader.antt (Reader/Transport, Rounds, Stream, Safety, Loop): `CSession::Start` of CSession.cpp.
--   `read_message` is one round; `read_loop` runs on fuel, the number of rounds. `Input` is
--   async_read with its laws, and `stops k` is what round k reads from `_b_stop`.
-- - Session.antt (Session/Queue, Writing, Order): the rest of `CSession`. `Session` holds its
--   members, the write that is outstanding and the nodes whose write has completed; `send`, `close`,
--   `handle_write` are the methods, `step` and `run` put them in any order.
-- - Db.antt (Db/Users, Friends, Membership, Friendships, Graph, Messages): DBManager.cpp. Tables are
--   lists of rows in the order of their keys; each method takes an `Outcome`, what SQLite answers to
--   its prepare and step calls. Db/Graph has the graph that the table of friends is, as a quotient,
--   and Db/Mailbox (Handed) the mailboxes that the table of messages is, as an abstract
--   specification. Db/Schema has the constructor, `CreateTables`, `ExecuteSQL` and the destructor,
--   on the file im.db.
-- - Pool.antt (Pool/Turns): AsioIOServicePool.h and AsioIOServicePool.cpp. A `Service` is an
--   io_context with its guard and its thread; `join` is one turn of the second loop of `Stop`.
-- - Timestamp.antt: Timestamp.h, on the ticks of the clock and a function for localtime_s.
-- - Online.antt: UserManager.h and UserManager.cpp, an association list from uids to sessions.
-- - World.antt (World/Logins, Steps, Race): what the objects share, the calls between them, and
--   CServer.cpp (`handle_accept`, `clear_session`). A session is named by a number, its identity.
-- - Server.antt (Server/Threads, Busy, Shutdown): the acceptor of CServer.cpp on the services of the
--   pool (`start_accept`, `accepted`), and CoroutineServer.cpp: `new_server` is `main` up to its
--   `run`, and `main` goes on with any events: completions of accepts, their handlers on the threads
--   of their services, returns of threads, signals, and the joins of the two calls of `Stop`,
--   `Phase` saying where `main` stands. When an io_context's `run` may return is the parameter
--   `Asio`.
-- - Logic.antt (Logic/Monad, Json, Replies, Accounts, Contacts, Dispatch): LogicSystem.cpp. A
--   handler is an action that changes the world and may throw; `JsonLib` is nlohmann::json, `Env`
--   the outcomes of its database calls and the local time. A handler is split where the source
--   branches: `login_request`, `login_fields`, `login_valid`, `login_done` are one function. `deal`
--   is a round of DealMsg.
-- - Logic/Worker.antt (Fifo, Served, Wakeups): the worker thread of LogicSystem.h and
--   LogicSystem.cpp. Its steps are those between which other threads run: a look at the queue with
--   the handling of a message, the falling asleep in `wait`, a wake-up; and the posts and the stop
--   of other threads. Logic/System puts them in any order with the moves of the sessions;
--   Logic/System/Whole has the whole acts that such a run amounts to. Logic/Worker/Served has the
--   messages that are dealt and handled; Logic/Requests joins read loops, queue, worker and
--   handlers.
-- - Client.antt (Client/Peer, Inbox): the protocol of TestClient/TestClient.cpp, the frames that it
--   writes and reads and its queue of responses. Client/State: the state of its threads,
--   `recv_thread` for `RecvThreadFunc`, `send_request` for `SendMsg` on the connection, `wait_for`
--   for `WaitForResponse`, `incoming` for the calls of `RecvOneMessage` on the bytes that arrive,
--   and `ClientJson` for nlohmann::json. Client/Stream joins a session of the server to it.
--   Client/Commands: the lines that the user types. Client/Login: `DoLogin` and `PrintResponse`.
--   Client/Main (Kept, Invariant, Sent, Replies, Relogin): `main`, of which `main_turn` is a round;
--   a `Turn` is the line with what the network does meanwhile.
-- - Logic/Keeps, Callbacks, Invariant, Login, Handlers, Server, Guests, Chats, Pushes, Pulls,
--   Logged, Newcomer, Again, Switch: what handlers keep and do. `Move` and `Reaches` in Logic/Server
--   put rounds of the worker, accepts, ends of read loops, ends of writes and ends of objects in any
--   order.
--
-- Atomicity: a method of the session, the map or the database is one step, and a whole handler is
-- one move of the server. `Close` takes two mutexes in turn and handlers take several, so the
-- threads of the program can also interleave inside a move; `Move` does not have those
-- interleavings. World/Race has the two parts of a `Close` as steps of their own.
--
-- Bounds and fuel: ids and lengths are below 65536, std::size_t is 64 bits wide. The read loop needs
-- one round more than there are messages or bytes, and `incoming` one call more than there are
-- messages; all other recursion is structural. Keys of rows are natural numbers, so AUTOINCREMENT
-- does not run out. Uids are integers without a bound.
--
-- The client's waits end as the list of a turn says, by their time or by a notification, with what
-- the receive thread gets before; a wait whose list is used up still waits.
--
-- Not modelled: the log and what the client prints; Boost.Asio, of which Input, for the sockets, and
-- Asio, for run, are what the code relies on (in Server the accept is the one operation that is
-- outstanding); SQLite, of which the outcomes of its calls are arguments; nlohmann::json, a
-- parameter; the clock and the local date of a chat message, parameters.
pub mod Prelude
pub mod Const
pub mod Wire
pub mod Reader
pub mod Session
pub mod Db
pub mod Online
pub mod Pool
pub mod Timestamp
pub mod World
pub mod Logic
pub mod Server
pub mod Client
