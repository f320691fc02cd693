-- ===== src/Library.antt =====
-- src/luadatabase_library.cpp, src/gluamysql.cpp and src/luapreparedstatement.cpp: the functions
-- that Lua code calls. Each takes the object and the Lua state and gives back both; its Boolean is
-- false where it ends in a Lua error. The checks of the arguments' Lua types are in the types here.
pub mod Userdata
use gluamysql.Base.{
  Option, List, ◌&&◌, ℕ, ◌+◌, Bool, true, false, none, some, [], ◌∷◌, ◌++◌, length, ◌||◌,
  if◌then◌else◌,
}
use gluamysql.Table.{Bytes}
use gluamysql.Lua.{refnil, noref, Lua, weak_database, unref}
use gluamysql.Host.{
  execute, collect_statement, Host, Request, query, prepare, autocommit, commit, rollback, ping,
}
use gluamysql.Action.{
  Action, new_execute, prepare_statement_close, Job, prepare_statement, auto_commit, commit_action,
  rollback_action, ping_action, connect_action, close_action, lua_l_ref, new_async, new_query,
}
use gluamysql.Binding.{LuaArg, make_arguments}
use gluamysql.Database.{Db, insert_action}

module _ {C N : Type 0} (h : Host C N) where
  -- What follows `LuaDatabase::Get` in `query`, `autocommit`, `commit`, `rollback` and `ping`.
  unfoldable pub submit_job : Job → Db C × Lua N → Bool × Db C × Lua N
  unfolding new_async insert_action
  submit_job job (db, l) = let (action, l') = new_async h job l in insert_action h action (db, l')

  unfoldable pub submit_query : Bytes → Db C × Lua N → Bool × Db C × Lua N
  unfolding new_query insert_action
  submit_query text (db, l) =
      let (action, l') = new_query h text l in insert_action h action (db, l')

  -- `LuaPreparedStatement::Start`
  unfoldable pub start_statement : ℕ → Bytes → Db C × Lua N → Bool × Db C × Lua N
  unfolding submit_job
  start_statement stmt text s = submit_job (prepare_statement stmt text) s

  -- `new LuaPreparedStatement`: a statement is known by what `mysql_stmt_init` returns.
  unfoldable pub new_statement : Bytes → Db C × Lua N → Bool × Db C × Lua N
  unfolding start_statement
  new_statement text (db, l) =
      let (stmt, c) = h.stmt_init db.instance in
      start_statement stmt text (record db { channel = record db.channel { instance = c } }, l)

  unfoldable pub submit_prepare : Bytes → Db C × Lua N → Bool × Db C × Lua N
  unfolding new_statement
  submit_prepare text s = new_statement text s

  unfoldable pub insert_made : Option Action × Lua N → Db C → Bool × Db C × Lua N
  unfolding insert_action
  insert_made (none, l) db = (false, db, l)
  insert_made (some a, l) db = insert_action h a (db, l)

  -- `execute` of a prepared statement with the arguments behind the userdata.
  unfoldable pub submit_execute : ℕ → List LuaArg → Db C × Lua N → Bool × Db C × Lua N
  unfolding insert_made new_execute make_arguments
  submit_execute stmt args (db, l) =
      insert_made
        (new_execute h stmt
          (make_arguments h.ulong_bytes (h.stmt_param_count stmt db.instance) args) l)
        db

  -- `__gc` of a prepared statement; the flag is `HasCleanedUpAlready`.
  unfoldable pub statement_gc : Bool → ℕ → Db C × Lua N → Bool × Db C × Lua N
  unfolding submit_job
  statement_gc true stmt (db, l) = (true, db, l)
  statement_gc false stmt s = submit_job (prepare_statement_close stmt) s

  unfoldable pub handle_request : Bool → Request → Db C × Lua N → Bool × Db C × Lua N
  unfolding submit_job submit_query submit_prepare submit_execute statement_gc
  handle_request cleaned (query text) s = submit_query text s
  handle_request cleaned (prepare text) s = submit_prepare text s
  handle_request cleaned (autocommit b) s = submit_job (auto_commit b) s
  handle_request cleaned commit s = submit_job commit_action s
  handle_request cleaned rollback s = submit_job rollback_action s
  handle_request cleaned ping s = submit_job ping_action s
  handle_request cleaned (execute stmt args) s = submit_execute stmt args s
  handle_request cleaned (collect_statement stmt) s = statement_gc cleaned stmt s

  -- The methods of a prepared statement do not look at the database's userdata.
  abbrev pub needs_userdata : Request → Bool
  needs_userdata (execute stmt args) = false
  needs_userdata (collect_statement stmt) = false
  needs_userdata _ = true

  -- A method of the userdata: `LuaDatabase::Get` fails once `__gc` has cleared the pointer.
  unfoldable pub call_method : Bool → Request → Db C × Lua N → Bool × Db C × Lua N
  unfolding handle_request
  call_method cleaned r (db, l) =
      if db.cleared && needs_userdata r then (false, db, l) else handle_request cleaned r (db, l)

  -- `LuaDatabase::LuaDatabase`, at the address that `new` returns.
  unfoldable pub new_database : ℕ → Lua N → Db C × Lua N
  unfolding lua_l_ref
  new_database address l =
      let (reference, l') = lua_l_ref h (weak_database address) l in
      (
        record {
          address = address;
          channel = record { instance = h.init; socket_state = 0 };
          queue = [];
          stmts = [];
          current_action = none;
          reference = reference;
          queue_reference = refnil;
          gced = false;
          cleared = false;
        },
        l',
      )

  -- `mysql_connect` with its five arguments.
  unfoldable pub mysql_connect : Bytes → Bytes → Bytes → Bytes → ℕ → ℕ → Lua N → Bool × Db C × Lua N
  unfolding new_database submit_job
  mysql_connect host user passwd dbname port address l =
      submit_job (connect_action host user passwd dbname port) (new_database address l)

  -- `__gc`; the flag is `HasCleanedUpAlready`. `Get` gives null once `ClearUserData` has run. The close
  -- action goes past `InsertAction`.
  unfoldable pub gc : Bool → Db C × Lua N → Db C × Lua N
  unfolding new_async
  gc cleaned (db, l) =
      if db.cleared || cleaned
      then (db, l)
      else (let (action, l') =
            new_async h close_action (record l { registry = unref db.reference l.registry }) in
          (
            record db {
              reference = noref;
              gced = true;
              queue = db.queue ++ action ∷ [];
              cleared = true;
            },
            l',
          ))

-- `queuelength`
unfoldable pub queuelength : {C : Type 0} → Db C → ℕ
queuelength db = elim db.current_action [ none ↦ 0 | some _ ↦ 1 + length db.queue ]
