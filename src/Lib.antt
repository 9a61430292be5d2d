-- ===== src/Lib.antt =====
-- A verification library for alkaidlab_fw, a C++ web framework on top of libhv. A
-- server built with it hands each request to a router and its chain of middleware;
-- around these stand the token, password and identifier utilities, the queues that
-- carry work between threads, and the transports of files and sockets. The library
-- models the parts below. Each definition follows the C++ function that its comment
-- names, and calls that leave the repository (OpenSSL, the clock, the system) are
-- parameters of the definitions that use them.
--
-- Parts and files:
-- - Base, Base/*: Boolean tests on native numbers, lists, byte strings, bit
--   operations, signed numbers and decimal texts that the other files share. A
--   `std::string` is the list of its bytes.
-- - Base64: the two base64 loops (src/PasswordUtil.cpp; the same loops stand in
--   src/JwtUtil.cpp).
-- - Jwt, Jwt/Url, Jwt/Claims, Jwt/Token: base64url, the claims and the signed tokens
--   (src/JwtUtil.cpp, include/fw/JwtUtil.hpp). Jwt.Token.sign and verify are
--   JwtUtil::sign and JwtUtil::verify; HMAC-SHA256 and the current time are arguments.
-- - Jwt/Blacklist: the set of revoked tokens, a list in the order of std::set, with
--   revoke, isRevoked, cleanup, loadEntries, setMaxEntries and getBlacklistSize.
-- - Password: hash, verify and isHashed of src/PasswordUtil.cpp; RAND_bytes and
--   PKCS5_PBKDF2_HMAC are arguments that return none where the C call fails.
-- - Snowflake: SnowflakeGenerator of src/IdUtil.cpp and include/fw/IdUtil.hpp. The
--   clock is a function from the number of readings so far to milliseconds.
-- - SpscQueue: the ring of include/fw/SPSCQueue.hpp and include/fw/SPSCQueue.inl,
--   one call at a time; SpscQueue/Threads has them in two threads.
-- - Middleware: the chain of src/Middleware.cpp and include/fw/Middleware.hpp. A
--   middleware is a function of `next` and of the context, which it returns changed,
--   with a status or as thrown.
-- - Context: the request and response context of src/Context.cpp, over a type for
--   libhv's header maps; the calls of the response writer are kept in order.
-- - Router: registration, bind and the bridges to libhv of src/Router.cpp.
-- - PathGuard: PathGuard::isSafe of include/fw/PathGuard.hpp; boost::filesystem answers
--   through arguments.
-- - Application: the allowed host names and the ports of src/Application.cpp.
-- - SafeId: isSafeId of include/fw/IdUtil.hpp.
-- - FlowController: src/FlowController.cpp, one call at a time.
-- - Transfer, Transfer/Stream, Transfer/Legacy, Transfer/Accel, Transfer/Factory,
--   Transfer/Route: the file transfers (include/fw/IFileTransfer.hpp,
--   src/StreamTransfer.cpp, src/LegacyTransfer.cpp, src/AccelTransfer.cpp,
--   src/FileTransferFactory.cpp) and the choice of a transport
--   (src/TransportFactory.cpp). A file is the list of its bytes.
--   `pump` is in two halves, since WriteBody may run it again before it returns.
-- - Transport, Transport/Url, Transport/Tcp, Transport/WebSocket, Transport/Http: the
--   clients (src/TcpTransport.cpp, src/WebSocketTransport.cpp, src/HttpTransport.cpp,
--   src/HttpsTransport.cpp), one call at a time; what libhv answers and the callbacks
--   that it runs during the call are an argument.
-- - Transport/Http/Tls: the TLS configuration of src/HttpsTransport.cpp, over what libhv
--   and OpenSSL answer to each call; the Settings files beside the transports are their
--   timeouts.
-- - SpscQueue/Threads: push and pop of the ring in two threads, each load and each store
--   a step of its own. The steps are interleaved: the acquire and release orders of the
--   source are what lets a thread see the stores in this way.
-- - Cert: generateSelfSigned and readCertInfo of src/CertUtil.cpp, as what they take,
--   write and give back; what OpenSSL and the files answer is an argument.
-- - Logger: src/Logger.cpp over the level and the sinks of spdlog's logger, and
--   src/LogConfig.cpp over the settings of libhv's log.
-- - TimeUtil: the texts of times of src/TimeUtil.cpp; localtime_r, gmtime_r and mktime
--   are arguments.
-- - HashUtil: the digests of files of src/HashUtil.cpp, over OpenSSL's as an argument.
-- - Snowflake/Numbers: the numbers that IdUtil::generateSnowflakeId of src/IdUtil.cpp
--   gives the generator of a thread.
-- - ThreadPool: src/SupervisedThreadPool.cpp as a relation of steps that the threads of
--   the pool take in any order.
-- - Snowflake/Address: the choice of the hardware address in getHostMacHash of
--   src/IdUtil.cpp, as built for POSIX.
-- - LockfreeQueue: include/fw/LockfreeQueue.hpp and include/fw/LockfreeQueue.inl as a
--   relation of steps; boost's queue is taken as first-in first-out.
-- - AtomicCounter: src/AtomicCounter.cpp on words of 64 bits.
-- - HvTransport, Application/Server: src/HvTransport.cpp and the rest of
--   src/Application.cpp, whose state is the fields of libhv's server and service.
-- - Context/Readers: the calls of src/Context.cpp that pass a field of libhv on, and the
--   builder of contexts for tests.
--
-- How the parts interact: JwtUtil::verify asks the set of revoked tokens before it
-- accepts; Jwt.Token.verify takes that answer as an argument, the value of
-- Jwt.Blacklist.is_revoked. Jwt/Url and Password both stand on Base64.
-- Router runs a handler inside the chain of Middleware, on a state that is a Context;
-- what it does behind the chain depends on the context's status, its writer and its
-- flag for a response that was handed off.
-- A transfer works on the Context of the handler that calls it: what
-- Transfer.Stream.send answers, and the flag for a hand-off that it sets, are what the
-- Router's task reads behind the handler (Transfer/Route).
--
-- Bounds and fuel: the machine words of the sources are written out where they wrap
-- (`% 2 ^ 64` for std::size_t and the counters). SpscQueue.next_power_of_two takes fuel
-- for the rounds of its loop, of which 64 are as many as a word has bits. Loops over
-- bytes and entries are structural recursion and need no fuel. The waiting loop of nextId
-- counts its five readings as the source does. Transfer.Legacy.pump_blocks takes as many rounds as bytes to send,
-- for each round but the last takes one at least. The loops that wait for a connection
-- run over a list of rounds, and give none where they go on behind it.
-- HashUtil.hash_loop takes one round more than the file has bytes.
--
-- Not modelled: locks (each call of a class that locks around its whole body is one
-- step, except in ThreadPool), the log lines, the libhv event loop and server, exceptions
-- that libhv throws inside the TCP and WebSocket clients, and the wrappers of OpenSSL,
-- the INI and the JSON library, whose work is done by code outside the repository.
-- The sources of random UUIDs and of the current time are outside as well.

pub mod Application
pub mod AtomicCounter
pub mod Base
pub mod Base64
pub mod Cert
pub mod Context
pub mod FlowController
pub mod HashUtil
pub mod HvTransport
pub mod Jwt
pub mod LockfreeQueue
pub mod Logger
pub mod Middleware
pub mod Password
pub mod PathGuard
pub mod Router
pub mod SafeId
pub mod Snowflake
pub mod SpscQueue
pub mod ThreadPool
pub mod TimeUtil
pub mod Transfer
pub mod Transport
