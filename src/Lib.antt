-- ===== src/Lib.antt =====
-- EvilEngine: an entity component system with its queues, files, input, timers, renderer and
-- network.
--
-- The game thread keeps an entity table (src/ecs.c): entities are spawned, removed and advanced
-- once per frame, and are named by weak references with a sequence number. Queries walk the table.
-- Component storage comes from a heap and is saved to and loaded from a file. Files are read and
-- written by two threads (src/fs.c) which hand a piece of work on through bounded queues
-- (src/queue.c over src/semaphore.c and src/atomic.c). The renderer (src/render.c) takes commands
-- from such a queue on its own thread and keeps tables of the objects that it has on the GPU, which
-- src/gpu.c makes by calls of Vulkan. The
-- network (src/net.c) keeps a table of connections and sends each of them the differences between
-- snapshots of the entities. The heap (src/heap.c) grows by arenas, and the game
-- (src/frogger_game.c) moves and draws entities in each frame. The window (src/wm.c) turns messages
-- into masks of held keys and buttons, and timer objects (src/timer_object.c) give scaled time that
-- can be paused. src/lecture7.c is a demonstration of threads that count together.
--
-- Base holds what the parts share: tests, C arrays as functions, loops, machine words, bits.
-- Ecs models src/ecs.c: the record Ecs is `ecs_t`, and create, ecs_update, entity_add,
-- entity_remove, is_entity_ref_valid and the queries are the functions with the prefix `ecs_`.
-- Ecs.Component and Ecs.Register are about component types, Ecs.Entity about single calls,
-- Ecs.Reach about any sequence of calls, Ecs.Query about the loop over a query, and Ecs.Save about
-- the save file, byte by byte.
-- Queue models src/queue.c: queue_create, queue_push, queue_pop, queue_try_push and queue_try_pop.
-- Queue.Fifo and Queue.Run are about calls that do not overlap, Queue.Threads about threads that
-- interleave at each semaphore operation, atomic increment and access of an item.
-- Fs models src/fs.c: fs_read, fs_write, file_read, file_write, file_compress and file_decompress,
-- and the two threads as stages of one piece of work, with a heap that may give NULL. The queues between
-- the threads, on which a push can wait, and fs_destroy are not modelled.
-- Wm models src/wm.c, with the messages of Windows as a list.
-- TimerObject models src/timer_object.c, with a store of timers for the
-- parents, and TimerObject.Clock src/timer.c.
-- Render models the thread of src/render.c; src/gpu.h is a record of operations on a world.
-- Gpu models src/gpu.c over Vulkan as a driver that answers each call by its number, with a result and
-- with a handle, which is assumed not to be null where the call creates: the record Gpu is `gpu_t`,
-- Gpu.Device is gpu_create in its parts and gpu_destroy, Gpu.Objects the meshes, shaders, pipelines,
-- uniform buffers and descriptors, and Gpu.Frames what is recorded and submitted in a frame. Gpu.Owns
-- counts what an object would destroy. Frees that fail, and the order in which children and parents are
-- destroyed, are not modelled.
-- Net models src/net.c: Net.Connections is about the table of connections, Net.Packet about the
-- snapshots and the packets that packet_send makes of them (Net.Packet.Delta says which updates
-- these are, in bytes, Net.Packet.Size how long they get), Net.Receive about packet_recv and
-- net_update (Net.Receive.Sent describes what a packet asks for, Net.Receive.Removal what is removed
-- after it).
-- Heap models src/heap.c: heap_create, heap_alloc, heap_free and heap_destroy. Heap.Lifetime is
-- about any sequence of calls.
-- Lecture7 models the threads of src/lecture7.c: turn_at is one turn of a thread, and the schedule
-- a list.
-- Game models src/frogger_game.c: the entities that it spawns, update_blocks (Game.Blocks),
-- update_players (Game.Players), draw_models and frogger_game_update (Game.Draw). Game.Loops is
-- about its loops over queries, by Ecs.Query.
-- Math models src/vec3f.h, src/quatf.h, src/quatf.c, src/transform.c, src/mat4f.c and
-- src/math.h, over floats of which no law is assumed.
--
-- An `int` is its bit pattern, with the wrap-around written out, and C arrays are functions of the
-- index. A loop of C is for_loop or find_first with the number of rounds of the code; the loop over
-- a query runs on fuel, of which one more than the number of entities is enough; the loops over the
-- bytes of a snapshot or a packet run on as many rounds as there are bytes, and each round takes
-- eight at least; work in src/fs.c takes two stages at most. TLSF, Windows, LZ4, Vulkan and floating
-- point are parameters, and so is allocation outside Heap.
--
-- Not modelled: the meshes and shaders that the game loads, the send thread and the sockets of src/net.c, output and tracing, and the copies of LZ4, TLSF and
-- Vulkan.
pub mod Base
pub mod Ecs
pub mod Queue
pub mod Fs
pub mod Wm
pub mod TimerObject
pub mod Render
pub mod Net
pub mod Math
pub mod Heap
pub mod Game
pub mod Lecture7
pub mod Gpu
