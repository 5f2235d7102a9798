-- ===== src/Lib.antt =====
-- A verification library for Memcache-Router.
--
-- The repository has a router and clients in C++ (memcache_router.cpp, lru_cache.cpp, memclient.cpp,
-- consistent_hash.cpp, protocol.cpp, routerlib.cpp, cmrclient.cpp), a Python module for the client
-- whose C++ source the build writes with modulegen.py, the code generator that modulegen.py runs
-- (pybindgen/), and Python scripts for measurement. A client sends its gets and sets as messages to
-- the router's loop; the loop puts packets into a queue; a worker takes a batch of them, asks its
-- cache and the memcached servers, and sends the answers back. This library models these parts, the
-- consistent hash, the binary protocol, modulegen.py, a test of benchmark.py and the loop of epoll.py.
-- The text of the binding is what modulegen.py makes the generator write.
--
-- Cache: lru_cache.h and lru_cache.cpp.
--   Cache: class Cache, its 64 buckets, AddOrReplace, Get and PopulateStats. The hash of the standard
--     library is a parameter, and so is a product in floating point in the constructor.
--   Cache/Buckets: struct Data and struct Bucket, FindOrInsertData, DeleteStaleData, and what
--     AddOrReplace and Get do on a bucket. Iterators and pointers are addresses of nodes; following
--     one to an erased node is a result of its own. The memory count wraps at 2^64, and what Used gives
--     is an int of 32 bits.
--
-- Messages: memdata.proto, the messages between clients and router. Serializing, parsing and merging are
--   the generated code's: they are parameters where they are called.
--
-- Router: memcache_router.cpp and utils.h.
--   Router: struct Packet and struct Stats.
--   Router/Queue: class PCQueue. BlockingPop is what a call does when it has the mutex, or that it waits;
--     Threads has the workers and the loop around it, with one step for each piece that the mutex or
--     the absence of it makes atomic.
--   Router/Frames: ReceiveOnePacket, SendFrames, SendEmptyPacket and SendAndDeletePacket on lists of frames.
--   Router/Hosts: IsServerListMatching and SetMemcacheServers.
--   Router/Workers: a turn of ProcessPackets on a batch, with the client of MemClient.
--   Router/Loop: a turn of Loop, with what the poll gives, and PopulateStats; Round goes from a client's
--     frames through loop, queue and worker back to frames.
--
-- MemClient: memclient.cpp. `Memcached` is libmemcached as a record of its calls; FetchLaws and ListLaws
--   are what it documents of them: an mget may fail, and then GetKeys fails its CHECK, which is a result
--   of its own, as a key with a zero byte is. The loop over the results runs on fuel: one round more
--   than there are entries is proved to be enough. Writes has SetKeys, IncrKeys and Init.
--
-- Client: cmrclient.cpp. `Python` and `Zlib` are records of what it calls, with laws. Values has PrepareValue
--   and Restore, Zlib has DecompressInternal, whose loop runs on fuel: a round for each 65536 bytes and
--   one more is proved to be enough. Calls has the message that each call sends, and what it makes of the
--   answer.
--
-- Protocol: protocol.h and protocol.cpp, on lists of bytes.
--
-- Binding: modulegen.py, the calls with which it describes the client to pybindgen, which is the
--   parameter `Pybindgen`. Header has the public declarations of cmrclient.h.
--
-- Benchmark: benchmark.py, the test that sets values with a client and gets them back. The client is a
--   parameter.
--
-- ConsistentHash: consistent_hash.h and consistent_hash.cpp, the choice of a server for a key. The bytes
--   of an MD5 digest are a parameter.
--
-- Epoll: epoll.py, the server's loop over the events of its sockets. What the loop asks of the kernel is
--   a list of calls; Watch says what is registered after them, and Polls which runs the kernel allows.
--
-- Codegen: a part of pybindgen/typehandlers/. pybindgen is a library of another project that is copied
--   into the repository; these files have definitions and lemmas on it, and no result below is about it.
--   Codegen/Result: what a Python call gives, a value or the exception that it raises.
--   Codegen/Sink: codesink.py, the sinks that receive lines of code. One record has the indentation;
--     the class of the sink is the constructor of what it holds. `flush_to` takes two sinks and gives
--     both back.
--   Codegen/Names: base.py, join_ctype_and_name and DeclarationsScope.
--   Codegen/Block: base.py, CodeBlock. A chain of predecessors is a list of blocks.
--   Codegen/Params: base.py, ParseTupleParameters and BuildValueParameters.
--   Codegen/Forward: base.py, the state of ForwardWrapperBase, its start and its reset.
--   Codegen/Generate: base.py, ForwardWrapperBase.generate_body and get_py_method_def_flags. The type
--     handlers of the parameters and of the return value, and the methods that a subclass gives,
--     are functions from the wrapper to the wrapper that may raise (`Parts`).
--   Codegen/Reverse: base.py, ReverseWrapperBase, the C function that calls into Python.
--   Codegen/Matcher: base.py, TypeMatcher, which finds the class of a C type. Its search along aliases
--     runs on two rounds of fuel for each alias and two more, which is proved to be enough.
--   Codegen/Handlers: pybindgen/typehandlers/inttype.py, booltype.py, doubletype.py, floattype.py,
--     stringtype.py, pyobjecttype.py and voidtype.py, the classes of type handlers. A class is a
--     record of its directions, its C types and its two conversions; Shapes has the bodies that many
--     classes write out again, with what differs as arguments. Classes lists all of them.
--
-- Below each of these stand the files with its theorems. Prelude has the tests, lists and texts that
-- they share, and Tests has runs on concrete inputs.
--
-- A method that changes an object is a function that gives the changed record; a method that raises
-- gives the exception, and what it wrote before is dropped. Python's byte strings are lists of
-- character codes. Numbers are natural: the generator counts and indents and never subtracts; the
-- cache's counters wrap at 2^64. All other loops are over lists, an eviction over the access list, but
-- those on the fuel named above and two: the digits of a number, with one round for each unit of the
-- number and one more, which is more than its digits; and the search for the end of a pointer type, which goes over its characters.
--
-- Not modelled: the constructors of the type handlers, whose results are the fields of `Param`; the
-- classes, methods, containers, enums and modules of pybindgen and its parser of C types, which is a
-- parameter of the matcher; routerlib.cpp, a trial of a direct connection; communicate.cpp; the sockets
-- of ZeroMQ, of which the frames remain; the statistics of a worker, whose merging depends on a random
-- number; benchmark_lru_cache.cpp and the scripts other than those named; the Python runtime, whose set
-- order in get_py_method_def_flags is that of the first occurrences here.
pub mod Prelude
pub mod Benchmark
pub mod Binding
pub mod Cache
pub mod Client
pub mod Codegen
pub mod ConsistentHash
pub mod Epoll
pub mod MemClient
pub mod Messages
pub mod Protocol
pub mod Router
pub mod Tests
