-- ===== src/Lib.antt =====
-- Verification of coxx, a key-value server with sorted sets.
--
-- The program. A client (client/client.cxx) packs a command into one message and prints the reply.
-- A server (server/server.cxx) keeps one connection object for each socket (common/conn.cxx). The
-- connection collects bytes until a message is whole, has `Request::parse` (common/req.cxx) split it
-- into words, and runs the command on a hash map of entries (map/c/map.c, common/entry.cxx). A sorted
-- set (zset/zset.cxx) is an AVL tree (avl/c/avl.c) and a hash map over the same nodes. Commands write
-- their replies through `namespace out` (common/serialize.cxx), and the client reads these back in
-- `deserialize`.
--
-- The files.
-- Base: names shared by all. Base/Bytes is memory as a list of bytes with `memcpy` of little-
--   endian words; a read or write outside the memory is `none`. Base/Run is the result of code
--   that can fault. Base/Bits has the facts about `&` that the hash map needs.
-- Parse: `Request::parse` of common/req.cxx. Parse/Frame is the protocol's format, Parse/Words is
--   about the loop over the words, and Parse/RoundTrip about a whole request.
-- Serialize: `namespace out` of common/serialize.cxx. Serialize/Value has the replies as data and
--   their bytes; Serialize/Arrays is about `begin_arr` and `end_arr`.
-- Client: `deserialize` of client/client.cxx; Client/Request is `sendRequest`, and Client/Response
--   is `readResponse`. Client/Session has `Client::run`.
-- Socket: `readFull` and `writeAll` of common/socket.cxx; Socket/Stream and Socket/Sink are about
--   them. Socket/Setup is the rest of that file.
-- Map: map/c/map.h and map/c/map.c, all functions. Map/Slots and Map/Tables are about one table,
--   Map/Moved and Map/Resize are about `helpResizing`, Map/Insert and Map/Methods are about the
--   calls that the rest of the program makes, and Map/RoundTrip is about one call after another.
-- CxxMap: map/cxx/map.cxx, all functions, on the structures of Map; CxxMap/Moves is about
--   `lookUp`.
-- Avl: avl/c/avl.h and avl/c/avl.c, all functions. Avl/Shape says what an AVL tree is, Avl/Joins
--   and Avl/Rotate are about the rotations and `rebalance`, the two tests of `fixAVL`, Avl/Fix
--   about its way up, Avl/Order and Avl/Del about `delAVL`, Avl/Edits about insertion and removal
--   in a whole tree, and Avl/Offset, Avl/Seek and Avl/Cursor about `offsetAVL`.
-- Conn: common/conn.hxx and common/conn.cxx, all of the state machine. Conn/Buffers says when the
--   buffers are in order, Conn/Calls is about the system calls, Conn/Flush about `stateResponse`,
--   Conn/Answer about `tryOneRequest` and its loop, Conn/Receive about one `read`, Conn/Fill about
--   `io`, Conn/Reply about one whole request, and Conn/Drain and Conn/Pipeline about requests that
--   come one behind another.
-- Server: the event loop of server/server.cxx. Server/Slots is the table as a map from descriptors
--   to connections, Server/Files says what is relied on of the kernel, Server/Served has the
--   loop's invariant, Server/Turn is about a connection's turn, Server/Admit about a new
--   connection, Server/Events about one event, Server/Loop about rounds of events, and
--   Server/Start is `Server::run`.
-- Exchange: one request from the client through a connection of the server and back.
-- Entry: common/entry.hxx and common/entry.cxx, with `keyScan` and `Request::keys` of
--   common/req.cxx, which go through both tables of the map; Entry/Keys is about what they write.
-- Command: the other commands of common/req.cxx and `CommandMap`; Command/Dispatch has the ones
--   with numbers and `Request::operator()`. Command/Keyed finds entries by key, Command/State says
--   when the data is in order and what a key stands for, Command/Find is about the lookup and
--   `get`, Command/Drop about `del`, Command/Insert, Command/Framed and Command/Replace about new
--   and changed entries, Command/Texts about `set`, Command/Sets about `expectZSet` and `zscore`,
--   Command/Remove about `zrem`, and Command/Store about `zadd`. Command/Ranges, Command/Query and
--   Command/Range are about `zquery`, and Command/Total about the dispatch.
-- Zset: zset/zset.cxx, all functions, over the map of Map and the tree of Avl. Zset/Lex is the
--   order of pairs, Zset/Tally counts addresses that pass a test, Zset/State says when a sorted
--   set is in order and which scores it stands for, Zset/Place and Zset/Delete are about the tree,
--   Zset/Look about `lookup`, Zset/Swap, Zset/Update, Zset/Create and Zset/Add about `add`,
--   Zset/Pop about `pop`, Zset/Query and Zset/Range about `query`, and Zset/Steps about `offset`.
-- Tests: runs, and the theorems at concrete inputs.
--
-- How the code is modelled. Words are native numbers with the wrap-around of `uint32_t` and `size_t`
-- written out where a sum can reach it. A signed word is its bit pattern, and so is a double: the
-- wire functions copy both byte by byte. A loop that is not a recursion on a list or on a count runs
-- on fuel; `enough_fuel` of Map is one unit for each node that may move and each slot, and the length
-- of a reply bounds how deep `deserialize` recurses, since every array takes five bytes. What lies on
-- the stack behind a local variable is a parameter of `send_request`, because the code copies it.
--
-- The map's nodes. The C code embeds a node in a larger record and finds that record from the
-- node's address. A node of the model is its hash code and an item, of any type: the record, or the
-- address of one. The callback that compares keys is a parameter, already applied to the key.
--
-- The tree's nodes. A node is its address with the cached depth and count. A pointer to a node is the
-- subtree below it with the way up from it, the ancestors with their other subtrees, so that the
-- parent pointers are right by construction; `zip` is the whole tree. `delAVL` nests by one for each
-- victim that has a right subtree, and the size of the subtree bounds that. The loop of `offsetAVL`
-- climbs first and then only descends, so the ancestors and the nodes together bound it.
--
-- The pairs. A pair is its address, and `Pairs` is the memory of all pairs, with the next address that
-- is free, which no pair had before. `containerOf` is then the identity: the tree and the map hold the
-- address. A pointer to a node of the tree leads to its place by `locate`, since the parent pointers
-- are the way up from there. `free` leaves the memory as it is, and no address is used twice. The
-- comparisons of doubles are parameters; `IsComparison` has what is relied on, for the patterns that
-- are numbers: `<` is asymmetric, of two numbers one of which is less a third is more than the one or
-- less than the other, and `==` means that neither is less.
--
-- The entries. An entry is its address too, `Database` has the memory of all entries and of all pairs,
-- and the map of the server holds addresses. What the data stands for is `view`, a map from keys to a
-- text and, for a sorted set, a map from names to scores; a theorem about a command says how `view`
-- changes. `strtod` and `strtol` are parameters that give a value and how many characters they read.
-- The loop of `zquery` has one unit of fuel more than the set has pairs, since it goes forward by one.
--
-- The system calls. `read` and `write` are parameters of the connection, as functions of a world
-- that they change, and so is the run of a command on the server's data. What is relied on is in
-- `IsOs` and `IsService`: a call keeps to the size it is given, and only finitely many calls do not
-- fail before one does with EAGAIN (the world's patience). The fuel of `io` is more by a constant
-- than that and than the read buffer has bytes, since each turn of a loop makes such a call or takes
-- four bytes at least from that buffer. `readFull` and `writeAll` are over the same calls, on a blocking
-- socket, which `IsStream` and `IsSink` describe: a call moves a byte at least, so that one unit of fuel
-- more than there are bytes is enough.
--
-- The event loop. `Kernel` has its system calls: what `read` and `write` act on is the `World`, and the
-- open descriptors with the interest list of the epoll instance are the `Files`, so that a read or a
-- write by its type leaves the descriptors alone. `IsKernel` says of two tests on the files, of being
-- open and of being watched, what each call does to them: `accept` returns a descriptor that was not
-- open, `epoll_wait` reports watched descriptors, each once, and does not report that the listening
-- socket is hung up. A slot of the table is a connection with its descriptor, or none for a null
-- pointer; an index outside the table and a null pointer that is used are faults. The loop is endless,
-- so that `rounds` makes as many rounds of it as it is told. The fuel is that of `io`.
--
-- Not modelled: memory allocation and its failure, what the system calls do beyond the laws above, the
-- text that `println` makes of a line and what is written to stderr, the AVL tree over
-- boost::intrusive in avl/cxx, which nothing uses and which stands on a library that is not part of
-- the repository, and the entry points and tests.
pub mod Base
pub mod Parse
pub mod Serialize
pub mod Client
pub mod Map
pub mod Avl
pub mod Entry
pub mod Socket
pub mod Server
pub mod CxxMap
pub mod Command
pub mod Conn
pub mod Exchange
pub mod Zset
pub mod Tests
