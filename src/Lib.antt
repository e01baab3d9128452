-- ===== src/Lib.antt =====
-- Verification library of Ymir, the LXC container manager with deployment and execution units.
--
-- Parts. The daemon (src/backend/amx) reacts to the signals and calls of a data model by running
-- LxcContainer objects and the deployment unit helper of liblxcd. These stand on liblxcd's own string,
-- vector and queue classes (include_priv/utils, liblxcd). From below:
--   Base: shared Boolean tests, lists measured by native numbers, and their lemmas.
--   Buffer: heap blocks of bytes, with indeterminate cells, and the C functions on them.
--   StringClass: lxcd::string of liblxcd/string.cpp, a block and a recorded length. A function here
--     has the name of the C++ operation; `plus`, `eq` and their kin are the operators.
--   VectorClass: lxcd::vector of include_priv/utils/impl_vector.hpp, an array, a size, a capacity.
--   TaskQueue: Queue<T> and LxcQueue of liblxcd/lxcqueue.cpp. The list is modelled with its head and
--     tail pointer over a heap; the threads are steps at the granularity of the mutex.
--   MapClass: lxcd::map of include_priv/utils/map.h, a skip list. The links, the back links and the
--     values of the nodes are the memory of the map; the addresses that `new` answers and the coins of
--     random_level are arguments. MapClass.Whole has the operations on whole maps, MapClass.Chain and
--     MapClass.Invariant the shape of the list, MapClass.AssocList the association list of its entries.
--   Host: the calls of liblxc, the system and the data model, as a monad over a world that answers
--     each call from the trace of the earlier ones. The world is arbitrary, but for the answers that
--     a theorem names. From here up a string is the list of its bytes.
--   Container: LxcContainer of liblxcd/lxc-container.cpp over Host. The refresh of the root path that
--     prepare calls is an argument, since the helper is defined above it.
--   Units: DeploymentUnit of liblxcd/deployment_unit.cpp; Units.Cache and Units.Helper are
--     DeploymentUnitHelper of liblxcd/deployment_unit_helper.cpp. Its map of units is the list of the
--     entries of the skip list, to which MapClass relates it. Units.Files is copy_file of
--     liblxcd/deployment_unit.cpp, which install calls as one call of Host.
--   Amx: the handlers of src/backend/amx/amxhandler.cpp over Container and Units; Amx.Entry is main of
--     src/backend/amx/main.cpp over the calls of the Ambiorix runtime.
--   DuManager: main of du-manager/main.cpp over the units of the helper and Uuid; what getopt_long
--     finds is an argument.
--   JsonClass: JsonValue, JsonParser and JsonSerializer of liblxcd/json.cpp, on lists of bytes, with
--     stod of liblxcd/string.cpp. The arithmetic of doubles and sprintf's printing of them are an
--     interface, Doubles; what IEEE 754 and C say of whole numbers is JsonClass.Numbers.Exact and
--     PrintsWhole.
--   SharedPtr: SharedPtr and MmapSharedPtr of include_priv/utils/sharedptr.h. A program's variables
--     hold pointers into a store of counters and objects; `step` is what it can do with them.
--   Process: Process and CProcess of include_priv/utils/linux.h over Host. The four values that a
--     CProcess shares are fields of its record.
--   Mounts: exec and the parser of /proc/mounts in include_priv/utils/linux.h, on the bytes of a file
--     that fgets reads by lines.
--   Uuid: UUIDGenerator of include_priv/utils/uuid.h over Host.
--   Http: the routes and the buffer of RestApiListener in src/backend/uhttpd/httphandler.cpp; its map of
--     maps is the association list that MapClass refines. Http.Replies has the handlers of
--     src/backend/uhttpd/main.cpp over Container, with json-c's printer as an argument.
--   Examples: concrete objects and runs, to which the theorems are applied.
--
-- Bounds. size_t is a number below 2^64; only the sums that the code can bring out of range are
-- reduced. A product or sum of int that overflows wraps around. The loops recurse on the number of
-- rounds left, which the loop's bound gives; the worker's loop recurses on fuel, and as many rounds as
-- tasks were added, plus one, are enough. A search in the skip list moves at most once per entry on each
-- level, and has the size of the map plus one as fuel; the destructor has three more than the size, for
-- the head, the tail and the test that ends it. The JSON parser has fuel for each value and each member;
-- twice the length of the text is enough for what the serializer writes. A loop
-- over fgets has the bytes of its file as fuel, one over sendfile one more, and the loop over the
-- blanks of a line its length plus one. A reference count is an int:
-- programs hold less than 2^31 - 1 variables.
--
-- Not modelled: printing, the memory that is given back, out of memory, and the external libraries,
-- whose answers are the world's (json-c's printer and parser are arguments). The amx handlers run
-- execution units through calls of their own, not through Process. clear of lxcd::map reads a pointer
-- that was not set, and is left out with the const doubles of the iterators. Of the HTTP front end the
-- pipe socket, the start and the stop of the server, and the handlers that create and list
-- deployment units, which call functions that the repository does not have, are not modelled.
pub mod Base
pub mod Buffer
pub mod StringClass
pub mod VectorClass
pub mod TaskQueue
pub mod MapClass
pub mod JsonClass
pub mod Host
pub mod Container
pub mod Units
pub mod Amx
pub mod Http
pub mod Process
pub mod SharedPtr
pub mod Uuid
pub mod Mounts
pub mod DuManager
pub mod Examples
