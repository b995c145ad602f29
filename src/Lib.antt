-- ===== src/Lib.antt =====
-- FreeKill: the server of a card game, its players' connections, rooms and lobby, with the network
-- layer that server and client share, the client's back end and replayer, the manager of packages and
-- the wrappers of Lua and SQLite.
--
-- The parts and their files; paths are from the repository's root.
--   Router          src/network/router.cpp: requests, replies and notifications over one socket, with
--                   the semaphore that a waiting Lua thread takes. Router/Calls is the sequence of
--                   calls that reaches it; Router/Invariant and Router/Delivery are about such runs.
--   ClientSocket    src/network/client_socket.cpp: one line for a message, compressed from 1024 bytes
--                   on, encrypted once a key is there. `send` gives the line, `read_message` is one
--                   round of getMessage.
--   Player          src/core/player.cpp. World declares the other objects of the server (the
--                   headers of src/server), World/Notify the packets that they send.
--   Room            src/server/room.cpp, roombase.cpp and the parts of roomthread.cpp that a room
--                   uses: Room/Basics (getters, signals), Joining (addPlayer, addRobot), Leaving
--                   (removePlayer), Observers, Game (manuallyStart, gameOver), Stats (win rates) and
--                   Commands (handlePacket). Seats, Seating, Ownership, BeforeGame, Handover and
--                   RunAway are proofs; References is how long an abandoned room lives.
--   Lobby           src/server/lobby.cpp: Members and Commands; Arrivals, Entering and Passwords are
--                   proofs.
--   ServerPlayer    src/server/serverplayer.cpp: Status (state, readiness, time), Disconnect (kick,
--                   onDisconnected), Session (packets, reconnection, destruction); Frames, Apart and
--                   Store are proofs.
--   Server          src/server/server.cpp and auth.cpp: Ban (map of players, configuration, bans),
--                   Rooms (createRoom, the list, refreshMd5), Auth (AuthManager), Login
--                   (processNewConnection, processRequest); Connections, Gate and ZeroRoom
--                   are proofs.
--   Database        the tables of server/init.sql with the statements as functions on lists;
--                   SqlText is checkString of src/core/c-wrapper.cpp.
--   System          the server as a whole: Steps lists what can happen to it next, each step being
--                   the whole handler of that event, and the runs. Bounded is what the rooms keep,
--                   Capacity carries it over all runs; the other files are frames of handlers.
--   Shell           src/server/shell.cpp: bans by name, passwords, kicks, messages; Line (handleLine),
--                   Completion, Listing (what is shown) and Packages (the commands on Pacman);
--                   Matching, Bans and Duration are proofs.
--   Client          src/client/client.cpp: players, login data and the setup packet; Login sets it
--                   against the server's Login, Players against a table. Records are the saved games
--                   of client/init.sql, with the functions of src/ui/qmlbackend.cpp that read them;
--                   Blobs and Kept are proofs.
--   PackMan         src/core/packman.cpp: the table of packages; Repository holds the functions on
--                   libgit2; Tidy, Handles and Errors are proofs about them, Names and
--                   Disabled about loadSummary.
--   Replayer        src/client/replayer.cpp.
--   Util            src/core/util.cpp: the checksum of the code files; LineEnds is a proof.
--   Lua             src/core/c-wrapper.cpp and src/swig/naturalvar.i: values on the interpreter's
--                   stack, pushValue and readValue; Calls (dofile, call, eval) and Lock (needLock
--                   and the mutex, with threads as a step relation); Agreement, Balance, Leaks and
--                   Contention are proofs.
--   Sqlite          src/core/c-wrapper.cpp: the constructor, select and selectJson; Columns is a
--                   proof.
--   ServerSocket    src/network/server_socket.cpp: the answers to datagrams.
--   Backend         src/ui/qmlbackend.cpp: search for servers, sounds, files, the control of a
--                   replay; Discovery sets it against ServerSocket, Numbered is about sounds.
--   Start           src/freekill.cpp: command line, assets, message handler; Port is a proof.
--   Json            the values that QJsonValue hands out. Base holds what all of them share, Tests
--                   concrete runs.
--
-- How the code is read. The objects stand in heaps, functions from an address, in one record World;
-- an operation is a function from a World to a World, and a call that the source makes is a call
-- here, in the same order. A signal is the call of its slots at once, as with Qt's direct
-- connections. A notification is put on the list `sent`; what a room tells its thread is put on
-- `signals`, a timer on `timers`, an object given to deleteLater on `deleted`. The dereference of a
-- null pointer sets `faulted`. A room is at the address that is its id. The router has a record of
-- its own, with the tokens of its semaphore as a number; the counter of request ids, static in the
-- source, is an argument. request and cancelRequest are also given in their atomic parts, since they
-- drain the semaphore outside the mutex. Texts are lists of code points; where the source counts in
-- UTF-16 units the model does.
--
-- Bounds. The integers are unbounded where the source has int, but for what toInt reads, which is 0
-- out of range; times are milliseconds in the natural numbers. All loops of the source that are
-- modelled go over lists and are structural recursion, with three exceptions that have fuel: readline's
-- loop over a completion function, for which one call more than there are names is enough; the loop of
-- playSound, for which one round more than there are files is; and readValue, whose depth is at most
-- the number of tables and one. The speed of the replayer is counted in halves, and its times are not
-- negative.
--
-- Parameters: parsing and printing of JSON, QString's order and conversions, RSA and SHA-256, the
-- summary of packages and whether a socket closes at once (Env); compression, base64, hexadecimal
-- text and AES (Codec, with what is relied on in CodecLaws); UTF-8, RSA and printing on the client's
-- side (ClientEnv, with what both ends rely on in Ends and Parsed); MD5 and file names (UtilEnv); the
-- calls of libgit2 (LibGit), and for the table of packages the functions on them and the directory
-- (Git); Lua's functions, its tables' lengths and lua_settable (Interpreter), with tables free of
-- metatables; SQLite's rows; names of files, addresses and name services (BackendEnv, SocketEnv);
-- qCompress and hexadecimal text for records (RecordEnv, with RecordLaws); the command line's
-- options and the machine (StartEnv).
--
-- Not modelled: the terminal, the help and the highlighting of src/server/shell.cpp, the Lua side and
-- its scheduler (src/server/scheduler.cpp only passes calls on), other threads than those of the
-- interpreter's lock and of the router's semaphore, the transactions of the server, SQLite itself, TCP, the client's calls of Lua and
-- its file watcher, dialogs, clipboard and QML engine of the user interface, Android, and the key that
-- checkPassword installs on the socket, which only ClientSocket knows.
pub mod Base
pub mod Json
pub mod Player
pub mod Database
pub mod SqlText
pub mod Util
pub mod World
pub mod Router
pub mod ClientSocket
pub mod Room
pub mod Lobby
pub mod ServerPlayer
pub mod Server
pub mod PackMan
pub mod Replayer
pub mod Client
pub mod Shell
pub mod System
pub mod Lua
pub mod Sqlite
pub mod ServerSocket
pub mod Backend
pub mod Start
pub mod Tests
