-- ===== src/Lib.antt =====
-- A model of unrealsdk, the library that hooks the functions of games made with the Unreal engine, and
-- proofs of what its core does.
--
-- A call of an engine function reaches a detour (src/unrealsdk/game/bl3/hooks.cpp and bl2/hooks.cpp), which
-- asks the hook manager (src/unrealsdk/hook_manager.cpp) for the function's hooks and runs them around the
-- original call. Custom console commands (src/unrealsdk/commands.cpp) are hooks of this kind, set by
-- src/unrealsdk/game/bl2/console.cpp. Everything logs through src/unrealsdk/logging.cpp, is configured by
-- src/unrealsdk/config.cpp, and finds its addresses through src/unrealsdk/memory.cpp. The engine's own arrays,
-- classes and objects are read by src/unrealsdk/unreal.
--
-- Files:
-- - Base: names from the libraries, lists measured by the native numbers, strings as lists of their
--   characters, and maps keyed by text.
-- - HookManager: the nodes of hook_manager.cpp. Add, Has and Remove have the loops of add_hook, has_hook
--   and remove_hook, Table the hash table and these operations, Dispatch preprocess_hook and the running
--   of hooks, Processing the detours with wrappers/property_proxy.cpp. Spec is the reference: an ordered
--   list of hooks for each function and type. Insertion, Membership, Removals, FunctionRemovals and
--   CollisionRemovals relate the loops to it, Invariant and InsertionInvariant say which lists are
--   well-formed, and History runs sequences of calls. A node is a value that holds the four nodes it
--   points to, so that a null pointer is `null`.
-- - Commands: commands.cpp; Console has the console hooks of game/bl2/console.cpp, Ring and Pushed its
--   history, Lines how a line is cut into words, and EngineConsole the hooks of game/bl3/console.cpp and
--   bl4/console.cpp, with Entries about the history and Keys about the injection.
-- - Config: config.cpp; Paths has the names of the two files, and Overlay the merged values by path.
-- - Memory: memory.cpp; Pattern has the constructor of memory.h's Pattern from text. MultiScan has
--   multi_sigscan.h: Anchors, Counts and Preprocess are about the choice of the common byte, Threads and
--   Results about one thread, Ranges and Runs about all of them, Search about the whole.
-- - Process: unrealsdk_main.cpp's init in Once, the suspension of threads of utils.cpp in Threads,
--   and locks.cpp in Locks.
-- - Games: Selector has game/selector.cpp, Startup game/bl1e/startup_file.cpp.
-- - Logging: the levels of logging.cpp; Thread its queue, callbacks and thread, Truncate the shortening
--   of locations, ChunkStarts their chunks, Sinks the formats and the built-in logger, Init its
--   initialization.
-- - Unreal: TArray has structs/tarray.h and tarray_funcs.h, Structs classes/ustruct.cpp and uclass.cpp,
--   Objects wrappers/gobjects.cpp, Objects.WeakPointers and Objects.Fading wrappers/weak_pointer.cpp,
--   PathNames the path names of classes/uobject.cpp, Pointers wrappers/unreal_pointer.h, Delegates
--   structs/fscriptdelegate.cpp and wrappers/wrapped_multicast_delegate.cpp, Strings structs/fstring.cpp,
--   Names classes/uenum.cpp and namedobjectcache.h, Params wrappers/bound_function.h, Bools
--   properties/zboolproperty.cpp, Copies wrappers/wrapped_struct.cpp, and Elements
--   wrappers/wrapped_array.cpp, with Cells about writes, and Resizing and Returns about its resize.
-- The modules named Tests run the definitions at concrete inputs.
--
-- Numbers are natural numbers; where the source's width matters, its wrap-around is written out. Loops
-- over linked lists are recursive on the list. The loops over iterators and the loop of the truncation
-- have a bound on their rounds, the number of elements or characters, which is proved to be enough; the
-- scan runs the number of rounds that the source computes.
--
-- What is not under this repository is a parameter: the Windows API, MinHook, toml++, the engine's
-- allocator, the locale and the formatting of times and numbers. Callbacks are functions that return or
-- throw an exception derived from std::exception, and they do not change the table of hooks that they
-- are called from. What the reads and writes of a property's class do with a value, the destruction of
-- an element, and the exceptions of these are parameters of the code that uses them.
--
-- Not modelled: the other property classes, which read and write the engine's layouts, the byte patterns
-- and the remaining hooks of each game, and the build.
pub mod Base
pub mod HookManager
pub mod Commands
pub mod Games
pub mod Process
pub mod Config
pub mod Memory
pub mod Logging
pub mod Unreal
