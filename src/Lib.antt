-- ===== src/Lib.antt =====
-- gluamysql is a Garry's Mod module that gives Lua code MariaDB's non-blocking MySQL client. Lua code
-- opens a connection or calls a method of one (src/gluamysql.cpp, src/luadatabase_library.cpp); each
-- call makes an action with a promise and puts it into the queue of its LuaDatabase. In every tick of
-- the game the hook of src/main.cpp lets each database with work to do run (`RunTick`): the first
-- action of the queue is moved on by one call of the client library, and when it is done it settles its
-- promise, which runs Lua code, which may call the module again.
--
-- Which module models what (paths from the repository's root, all under src):
--   Status     src/luadatabase.cpp, src/luadatabase.h: GetCurrentDatabaseStatus, CheckDatabaseStatus
--   Row        src/gluamysql.h: PushField and PushRow; Table has Lua's tables, Int C's signed integers
--   Lua        the registry of luaL_ref and the log of calls into Lua code
--   Host       what the module is linked with: the parameters of everything below
--   Action     src/luapromise.h, src/luaaction.h and the data of the classes of src/actions
--   Database   src/luadatabase.h: LuaDatabase, Push, InsertAction
--   Library    src/luadatabase_library.cpp, src/gluamysql.cpp: the functions that Lua code calls
--   Machine    the state of the module while a database is at work, and calls into Lua code
--   Async      src/luaactionasync.h and its subclasses in src/actions
--   Querying   src/actions/query.h: QueryAction
--   Binding    src/actions/executestatement.h: CreateBuffer, PopulateBind and the constructor's loops
--   Executing  src/actions/executestatement.h: the stages of ExecuteStatementAction and its threads
--   Tables     src/gluamysql.h: tremove, PushLibrary, CreateMetaTable; the libraries; gmod13_open
--   Classes    the userdata of the two classes: GetLuaUserData, PushLuaUserData, IsValid and the like
--   Promises   lua/promise.lua: what a promise of that library does with its settlements and callbacks
--   Tick       src/luaaction.h: DoFinish; src/luadatabase.cpp: RunTick
--   Claims     which entries of the registry the databases and their actions refer to, as a list of
--              claims of which only the counts matter
--   Hooks      src/main.cpp: TickHookTick and ShutdownHook; Hooks/Loader the Lua code SHUTDOWN_LOADER
--   Tests      runs on concrete inputs, with a client that plays back a list of replies
--
-- State is passed explicitly. `Machine.State` has the database at work, the other open databases on
-- either side of it in the order of `open_databases`, and the Lua state. A C++ function that calls
-- into Lua is a function of that state whose outcome is a result, a Lua error that leaves it (what was
-- changed stays changed), or undefined behaviour.
--
-- Parameters, in `Host`: every call of the client library as a function of the state of its handle,
-- the system's `poll`, the key that luaL_ref picks, and how Lua code answers a call: a list of what it
-- asks of the module, and whether it raises an error. Where the freshness of keys matters it is the
-- hypothesis `FreshKeys`, where Lua code is to raise no error `Calm`, and where it is to ask nothing
-- besides, `Quiet`: these two are of the ticks that a theorem is about, and what Lua code did before
-- them is another function, put in by `with_react`. What the client answers over several ticks is a
-- relation: `AllAnswered` of Tick/Drain for plain calls, `Succeeds` of Tick/Gathers for a query and of
-- Tick/Executed for a statement, `Refuses` of Tick/Refused for a statement that fails. `Reachable` of Hooks/Reach has the states that the module can get into: Lua
-- code that calls it between the ticks, and ticks, in which Lua code does what it likes.
--
-- Loops and fuel: RunTick's loop tests the member that its body has just reset, so `run_tick` gives it
-- one round. The pass over the open databases has as many rounds as there are databases. The
-- loop of ShutdownHook is on fuel, and says so when it runs out; one round more than the passes that
-- it takes until no database has work to do is enough (`EndsAfter` of Hooks/AtEnd). The detached threads of a prepared
-- statement are run in steps: each time that a tick looks at the flag of a thread it makes
-- `Host.thread_steps` of them first.
--
-- Not modelled: the types of the arguments that Lua code hands over, but for those of `execute`, which
-- the types of the model hold; the clearing of weak tables by Lua's collector; Lua code that runs the
-- tick hook from within a callback; what a thread and a tick do to the same memory at the same moment;
-- the loader of lua_shared and the headers of other projects; the Lua wrappers under lua, and `wait` of
-- lua/promise.lua.
pub mod Base
pub mod Int
pub mod Table
pub mod Row
pub mod Status
pub mod Lua
pub mod Binding
pub mod Host
pub mod Action
pub mod Database
pub mod Library
pub mod Machine
pub mod Async
pub mod Querying
pub mod Executing
pub mod Tables
pub mod Classes
pub mod Claims
pub mod Tick
pub mod Hooks
pub mod Promises
mod Tests
