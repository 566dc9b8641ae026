-- ===== src/Lib.antt =====
-- A chat server on io_uring and its client in the terminal: the programs under server/ and client/,
-- written in C++.
--
-- main.cpp starts a SessionManager, which has one Session for each worker thread, and a Listener.
-- Each Session and the Listener has an IOUring of its own, and each IOUring an UringBuffer, the
-- buffers that the kernel receives into. The listener gives every accepted connection to the session
-- with the fewest clients (SessionManager::joinSession, Session::addClient). A worker takes the
-- completions of its sessions' rings (SessionManager::workerThread, Session::processEvent); a message
-- that was read is checked and dispatched (IOUring::handleRead, processMessage), and a chat message is
-- broadcast to the clients of the sender's session out of the buffer that it came in, whose count of
-- references says how many writes are outstanding (broadcastToSession, handleWriteComplete).
--
-- client/main.cpp connects a ChatClient, whose mainLoop runs inside connect: it prints the messages
-- that the server sends and sends what is typed. Both programs exchange the packed struct ChatMessage.
--
-- Which file is about which code.
-- Base and its children: Booleans, lists, C++'s integers (Base/Int), std::unordered_map (Base/Map),
--   std::set as an ascending list (Base/IntSet), std::string as its bytes (Base/Text), std::to_string
--   and std::stoull on 64 bits (Base/Decimal), and code that changes an object and may throw
--   (Base/Action: the object comes back after a throw too).
-- Logger: server/include/Logger.h. Utils: server/include/Utils.h. SocketAddress:
--   server/include/SocketAddress.h.
-- Context: server/include/Context.h, IOUring::setContext, and getContext of server/src/Session.cpp
--   and server/src/Listener.cpp. Context/RoundTrip, Context/Wire and Context/Packets
--   have the proofs.
-- Buffer: server/src/UringBuffer.cpp. Buffer/Address, Buffer/Ownership and Buffer/Clients have the
--   proofs on the layout, the exchange of buffers with the kernel, and single calls; Buffer/Status is
--   about printBufferStatus.
-- Uring: server/src/IOUring.cpp, as far as it works on its own ring. Uring/Send, Uring/Prepare,
--   Uring/Inbox, Uring/Broadcast and Uring/Completion have the proofs; Uring/Stats is about
--   logMessageStats, which nothing calls.
-- Session: server/src/Session.cpp but for processEvent; Session/Join has the proofs.
-- Manager: server/src/SessionManager.cpp but for workerThread; Manager/Members, Manager/Leave,
--   Manager/Balance and Manager/Startup have the proofs. Manager/Rooms is the abstract view of the
--   manager, rooms with their members; Manager/Rooms/Refinement has the proofs on it.
-- Handlers: the handlers of server/src/IOUring.cpp (handleRead to handleChatMessage) and
--   Session::processEvent. Handlers/Frame, Handlers/Read, Handlers/Chat, Handlers/Delivery,
--   Handlers/Requests, Handlers/Rearming, Handlers/Success, Handlers/Privacy and Handlers/Lifecycle
--   have the proofs.
-- Listener: server/src/Listener.cpp and server/src/SocketManager.cpp; Listener/Assign,
--   Listener/Frame, Listener/Serving and Listener/Fairness have the proofs.
-- Worker: SessionManager::workerThread; Worker/Safety and Worker/Success have the proofs.
-- System: the start-up of server/main.cpp, and the running server as a relation; System/Safety,
--   System/Naming, System/Threads and System/Exhaustion have the proofs. System/Turns: the threads
--   taking turns after every event; System/Turns/Safety and System/Turns/Silence have the proofs.
--   System/Main: main as a whole.
-- Client: client/src/ChatClient.cpp; Client/Text has the functions of std::string that it calls,
--   Client/Loop connect and mainLoop, Client/Command client/main.cpp. Client/Transcript,
--   Client/Typing, Client/Notice and Client/Silence have the proofs.
-- Benchmark: client/benchmark.cpp; Benchmark/Echo, Benchmark/Idle and
--   Benchmark/Rate have the proofs, and Benchmark/Usage is print_usage.
-- LineClient: ChatClient.cpp at the root, an older client; LineClient/Stream has the proofs.
-- Conversation and Conversation/Greeting: proofs on the client and the server together.
-- Tests and its children: the theorems applied at concrete inputs.
--
-- How the state corresponds to the code. A class is a record with its data members; a method is a
-- function of the same name in snake_case that takes the object last and returns it changed, with
-- the result or the exception (Action). Session objects lie on a heap and are named by their address,
-- as the shared_ptr's in sessions_ and thread_sessions_ are. The calls of liburing on a ring are
-- kept in a list, newest first: `calls` for io_uring, `ring_calls` for io_uring_buf_ring. What
-- liburing and the kernel answer is the parameter Env: whether io_uring_get_sqe has an entry, what
-- the prep helpers leave in user_data, what io_uring_submit_and_wait returns. HasRoom states that
-- io_uring_get_sqe always has an entry. Completions are arbitrary lists of results, flags and words.
-- A queued write has the message as it stood when the prep helper was called, although the code
-- passes a pointer to a local object. An integer of w bits wraps around by `% 2 ^ w` where it is
-- counted up; int is ℤ, converted where the code narrows it. The vector of 4096 buffers is a function
-- on the indices, which every operation guards as the code does. In handleChatMessage the loop reads
-- at most the 512 bytes that the message has; handleRead refuses a longer length before.
--
-- The client has no ring: the parameter `send` says what send() returns for a message, given those
-- sent before, and a round of mainLoop takes what select, recv and fgets do from a Tick. A list of
-- Ticks is an execution, and a Run says how a call stands after them: it has returned, it is
-- waiting for the next round, or an exception that nothing catches has ended the program. What is
-- printed is kept as bytes, so the Korean texts stand in their UTF-8.
--
-- The iteration over sessions_, an unordered_map, is over the list's order. The standard leaves that
-- order open, so the place of each new session in it is a parameter (Setup); an erase keeps the order.
-- What main's flag `running` is read as is a parameter too (Pass).
--
-- Bounds and fuel. The loop of log2 has 32 rounds of fuel; its static_asserts are arguments that a call
-- of it must prove, and Buffer/Address shows that it gives the exponent for each number that they let
-- through. std::to_string has ten digits, enough for 32 bits, and twenty for 64 bits (Base/Decimal).
-- The other loops run over lists or counted numbers and need no fuel.
--
-- A concurrent execution is a sequence of steps: of rounds of workers and of the listener and writes of
-- the kernel into the buffers of a session (System), or, finer, of single events, waits and advances of
-- a ring and such writes (System/Turns). The mutex of SessionManager makes its methods steps; what two
-- threads do to one ring inside an event without the mutex is not modelled.
--
-- Not modelled: what the components log, but for printBufferStatus and logMessageStats on their own;
-- the buffers' times of allocation; destructors but for
-- SocketManager's and the clients', the joining of threads, the port and the host, which only the
-- system calls read, TCPSocket.h and SocketUtil.h, which declare what nothing defines or calls, and the
-- callback of the client, which nothing calls (the benchmark's is modelled on its own).
pub mod Base
pub mod Logger
pub mod Utils
pub mod SocketAddress
pub mod Context
pub mod Buffer
pub mod Uring
pub mod Session
pub mod Manager
pub mod Handlers
pub mod Listener
pub mod Worker
pub mod System
pub mod Client
pub mod Benchmark
pub mod LineClient
pub mod Conversation
pub mod Tests
