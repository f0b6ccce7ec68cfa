-- ===== src/Lib.antt =====
-- The Forgotten Server of this repository: a game server in C++ under src/. This library models parts
-- of it that keep state by rules of their own.
--
-- The parts and how they interact. The network thread frames, encrypts and checks messages
-- (src/protocol.cpp, src/networkmessage.h, src/outputmessage.h). What they ask for becomes a task of
-- the dispatcher (src/tasks.cpp), which runs every task in one thread; what is to happen later is an
-- event of the scheduler (src/scheduler.cpp), which hands it to the dispatcher when it is due. So the
-- game's own state (parties, guilds, chat, the tree of names, the waiting list) changes in one thread,
-- one call after another, and each of its operations is one function here.
--
-- Files and code:
-- - Base and its children: tests, lists, sets of numbers, machine words; no code of the server.
-- - Position: src/position.h. The fields and operators have the source's names.
-- - Tasks: Task and Dispatcher of src/tasks.h and src/tasks.cpp. threadMain is thread_main, one
--   thread_round for each time at which the thread looks at its list.
-- - Scheduler: src/scheduler.h and src/scheduler.cpp, in the same manner; dispatch_round makes the call
--   of the dispatcher.
-- - Network: Message is NetworkMessage, Output is OutputMessage with adlerChecksum of src/tools.cpp,
--   Autosend is OutputMessagePool of src/outputmessage.cpp, Xtea and Protocol are src/protocol.cpp,
--   Fields writes and reads sequences of fields by the operations of Message.
-- - Login: Ban is acceptConnection of src/ban.cpp, WaitList is src/waitlist.cpp.
-- - Party: World holds players and party objects by address; Shared and Ops are src/party.cpp; Game is
--   the requests of src/game.cpp with their guards, and what src/player.cpp keeps about parties.
-- - Wildcard: src/wildcardtree.cpp. Chat: the channels of src/chat.cpp, and in Private the
--   map of the private ones. Guild: src/guild.cpp.
-- - Loader: the parser of src/fileloader.cpp; Encoding is the format as a printer, RoundTrip and
--   Truncated are about both, Stream is the property streams of src/fileloader.h.
-- - Map: src/map.cpp and src/map.h. Tree is QTreeNode, Map itself getTile and setTile with floors and
--   leaves; Creatures is what leaves know of creatures, with World and Histories for any sequence of
--   changes; Spectators is getSpectatorsInternal, and Cache in it getSpectators. The other modules are
--   lemmas: Paths and Corners on which coordinates share a leaf, Views and Floors on writes seen from
--   any coordinate, Links to Linked on leafS and leafE, Refines on tiles by position. Walk is
--   AStarNodes with the step to a neighbor and the walk back of getPathMatching.
-- - Money: addMoney and removeMoney of src/game.cpp with getWorth of src/item.cpp.
--
-- State is passed explicitly. A lock makes an operation one step. Pointers to players and parties are
-- numbers, and a null pointer is none. Time is an argument, in milliseconds. Unsigned arithmetic that
-- can wrap has its modulus written out; signed differences are compared by their bit patterns. Bytes
-- are little-endian in memory, as on the machines that the server runs on.
--
-- Bounds and fuel. adler_loop and crypt_loop run on fuel. A turn of the first takes a byte at least
-- and a turn of the second moves on by eight bytes, and the callers give the length in bytes, so
-- neither runs out. crystal_stacks runs on the number of coins and one, and each turn takes a coin at
-- least. create_leaf recurs on its level, which is 2 at the leaves. A loop of the scan runs as often
-- as its bounds allow, a number that is computed before. walk_back runs on the cost of the node found
-- and one, and each turn goes to a node that costs 10 less at least. thread_main of the dispatcher and
-- of the scheduler take a list of times, one for each round. Everything else recurs on its data.
--
-- Parameters. The operation of RSA is a function of the buffer. What a task asks of the dispatcher while
-- it runs is a function of its callable; only the thread of the scheduler puts tasks in front. The scripts' answers (onDisband,
-- onLeave, onJoin of parties, onJoin of channels) are functions. Tile::addThing is a function of the
-- map, and which creatures are players, and where they are, are functions of the search. What a tile
-- costs to walk on is a number at each step of a path. The memory of a new message may hold any bytes.
--
-- Not modelled: texts, icons and shields that clients are told, the database, sockets, Lua, and the
-- game world but for the map's leaves: what stands on tiles, items, creatures, combat, and of
-- src/map.cpp sight, and of getPathMatching which neighbors of a node are looked at and when the search
-- stops. Where internalAddItem puts coins is left open. Party::canUseSharedExperience computes its level
-- limit in float; the model's integer is the same below level 2 ^ 20.
pub mod Base
pub mod Position
pub mod Tasks
pub mod Scheduler
pub mod Network
pub mod Login
pub mod Party
pub mod Wildcard
pub mod Chat
pub mod Guild
pub mod Loader
pub mod Map
pub mod Money
