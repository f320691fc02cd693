-- ===== src/Host.antt =====
-- What the module is linked with and does not implement: MariaDB's client library, the system's
-- `poll`, the key that `luaL_ref` chooses, and the Lua code that promises call.
use gluamysql.Base.{ℕ, ◌≡◌, Bool, Option, none, List}
use gluamysql.Table.{Bytes}
use gluamysql.Binding.{LuaArg, Bind}
use gluamysql.Row.{Field, Numbers}
use gluamysql.Status.{Events, PollResult}
use gluamysql.Lua.{Held, Event, entry}

-- The non-blocking calls `mysql_…_start` and `mysql_…_cont`, with the arguments that both or the
-- first take. Result sets and statements go by their pointers.
pub data Call : Type 0 where
  real_connect : Bytes → Bytes → Bytes → Bytes → ℕ → Call
  real_query : Bytes → Call
  autocommit : Bool → Call
  stmt_prepare : ℕ → Bytes → Call
  fetch_row free_result stmt_close stmt_free_result : ℕ → Call
  close ping commit rollback : Call

-- The status returned, zero when the call is done, and the value written through `ret`, if any. A
-- pointer is a number, the null pointer zero.
pub record Reply : Type 0 where
  pub status : ℕ
  pub out : Option ℕ

-- The operations that Lua code can ask of a database.
pub data Request : Type 0 where
  query prepare : Bytes → Request
  autocommit : Bool → Request
  commit rollback ping : Request
  -- the methods of a prepared statement, which reach the database by the statement's pointer
  execute : ℕ → List LuaArg → Request
  collect_statement : ℕ → Request

-- What Lua code may do to the module while it runs: call a method of the database at an address,
-- open a connection, or drop its last reference to a database, which is then collected.
pub data Command : Type 0 where
  submit : ℕ → Request → Command
  connect : Bytes → Bytes → Bytes → Bytes → ℕ → Command
  collect : ℕ → Command

pub record Reaction : Type 0 where
  pub commands : List Command
  pub raises : Bool

-- `mysql_stmt_fetch`: what it returns, and what it writes to the bound buffers, lengths and flags.
pub record Fetched : Type 0 where
  pub code : ℕ
  pub columns : List Bytes
  pub is_nulls : List Bool

-- `C` is the state of a MYSQL handle with all that stands behind it.
pub record Host (C N : Type 0) : Type 0 where
  pub init : C
  pub start : Call → C → Reply × C
  pub cont : Call → ℕ → C → Reply × C
  pub poll : C → Events → PollResult × C
  pub errno : C → ℕ
  pub error : C → Bytes
  pub use_result : C → ℕ × C
  pub field_count : C → ℕ
  -- the fields of a result set, and the cells of a fetched row with their lengths
  pub fields : ℕ → C → List Field
  pub cells : ℕ → C → List (Option Bytes)
  pub insert_id : C → ℕ
  pub affected_rows : C → ℕ
  -- `mysql_stmt_init`: the pointer to a new statement
  pub stmt_init : C → ℕ × C
  -- the blocking calls on a statement: the number of its parameters, its error message, and the calls
  -- that its threads make, with what they return
  pub stmt_param_count : ℕ → C → ℕ
  pub stmt_error : ℕ → C → Bytes
  pub stmt_bind_param : ℕ → List Bind → List Bytes → C → ℕ × C
  pub stmt_execute : ℕ → C → ℕ × C
  pub stmt_result_metadata : ℕ → C → ℕ × C
  pub stmt_store_result : ℕ → C → ℕ × C
  pub stmt_bind_result : ℕ → C → ℕ × C
  pub stmt_fetch : ℕ → C → Fetched × C
  pub free_result_blocking : ℕ → C → C
  -- how many steps the thread of a statement makes until the code next looks at it
  pub thread_steps : C → ℕ
  -- the bytes of an `unsigned long`
  pub ulong_bytes : ℕ → Bytes
  pub numbers : Numbers N
  -- the bits of `lua_Integer`
  pub integer_bits : ℕ
  -- what an int holds that the constructor leaves uninitialised
  pub garbage : ℕ
  pub fresh_key : List (ℕ × Held N) → ℕ
  -- the address of a new object
  pub fresh_address : List ℕ → ℕ
  -- how Lua code answers the latest of the calls into it
  pub react : List (Event N) → Reaction

-- What the reference manual says of `luaL_ref`: the key is not in use.
abbrev pub FreshKeys : {C N : Type 0} → Host C N → Type 0
FreshKeys {N = N} h = (r : List (ℕ × Held N)) → entry (h.fresh_key r) r ≡ none
