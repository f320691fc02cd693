-- ===== src/Action.antt =====
-- src/luaaction.h, src/luaactionasync.h, src/luapromise.h and the classes of src/actions: the data
-- that an action carries, the calls of the client that it makes, and how it is made and freed.
pub mod References
use gluamysql.Base.{Option, some, List, ℕ, suc, Bool, false, none, [], ◌∷◌}
use gluamysql.Table.{Bytes}
use gluamysql.Binding.{Bind}
use gluamysql.Lua.{
  rawgeti, Ref, key, Lua, ResultTable, Held, resolver, rejecter, promise_object, table, unref,
}
use gluamysql.Host.{
  Host, Call, real_connect, stmt_prepare, stmt_close, close, fetch_row, free_result, real_query,
}

-- `LuaPromise`: the three references that it holds.
pub record Promise : Type 0 where
  pub resolve : Ref
  pub reject : Ref
  pub promise : Ref

-- The subclasses of `LuaActionAsync` with the arguments of their constructors.
pub data Job : Type 0 where
  connect_action : Bytes → Bytes → Bytes → Bytes → ℕ → Job
  prepare_statement : ℕ → Bytes → Job
  prepare_statement_close : ℕ → Job
  auto_commit : Bool → Job
  commit_action rollback_action ping_action close_action : Job

-- `out` is the member that the calls write to, `out` or `ret` in the source; `CloseAction` has none.
pub record Async : Type 0 where
  pub job : Job
  pub started : Bool
  pub out : ℕ

-- The three triples of functions that `QueryAction::current_action` takes on.
pub data Stage : Type 0 where
  at_query at_fetch at_free : Stage

-- `QueryAction`; `results` and `row` are pointers.
pub record Query : Type 0 where
  pub stage : Stage
  pub started : Bool
  pub out : ℕ
  pub text : Bytes
  pub results : ℕ
  pub row : ℕ
  pub data_reference : Ref
  pub has_retried : Bool

-- The four triples that `ExecuteStatementAction::current_action` takes on.
pub data ExecStage : Type 0 where
  at_execute at_rows at_free_results at_free_statement : ExecStage

-- What a thread of the action does next.
pub data Worker : Type 0 where
  no_thread executing_statement looking_for_rows storing_result : Worker
  fetching freeing signalling : Worker

-- `ResultData`: the metadata and what was fetched into its buffers.
pub record ResultData : Type 0 where
  pub results : ℕ
  pub row : List (Option Bytes)
  pub is_nulls : List Bool

-- `ExecuteStatementAction`; `stmt` is the pointer to the client's statement, `worker` the thread.
pub record Exec : Type 0 where
  pub stage : ExecStage
  pub started : Bool
  pub in_thread : Bool
  pub thread_finished : Bool
  pub out : ℕ
  pub stmt : ℕ
  pub arguments : List Bind
  pub buffers : List Bytes
  pub reference : Ref
  pub resultdata : List ResultData
  pub worker : Worker

pub data Kind : Type 0 where
  async : Async → Kind
  querying : Query → Kind
  executing : Exec → Kind

pub record Action : Type 0 where
  pub refs : Promise
  pub has_finished : Bool
  pub kind : Kind

-- `ConnectAction::Start` and `Continue`
abbrev pub connect_call : Bytes → Bytes → Bytes → Bytes → ℕ → Call
connect_call host user passwd dbname port = real_connect host user passwd dbname port

-- `PrepareStatementAction::Start` and `Continue`
abbrev pub prepare_call : ℕ → Bytes → Call
prepare_call stmt statement = stmt_prepare stmt statement

-- `PingAction::Start` and `Continue`
abbrev pub ping_call : Call
ping_call = Call.ping

-- The member `out` of a new `PrepareStatementAction`.
abbrev pub prepare_out : ℕ
prepare_out = 0

-- The call that `Start` makes and `Continue` takes up again.
unfoldable pub job_call : Job → Call
job_call (connect_action host user passwd dbname port) = connect_call host user passwd dbname port
job_call (prepare_statement stmt statement) = prepare_call stmt statement
job_call (prepare_statement_close stmt) = stmt_close stmt
job_call (auto_commit b) = Call.autocommit b
job_call commit_action = Call.commit
job_call rollback_action = Call.rollback
job_call ping_action = ping_call
job_call close_action = close

-- The same for the stages of a query: `StartQuery`, `StartFetch`, `StartFreeResult`.
unfoldable pub stage_call : Query → Call
stage_call q = elim q.stage [
  | at_query ↦ real_query q.text
  | at_fetch ↦ fetch_row q.results
  | at_free ↦ free_result q.results
]

-- `lua_newtable`
abbrev pub empty_table : {N : Type 0} → ResultTable N
empty_table = record { rows = []; last_insert_id = none; affected_rows = none }

module _ {C N : Type 0} (h : Host C N) where
  -- `luaL_ref` of a value other than nil.
  unfoldable pub lua_l_ref : Held N → Lua N → Ref × Lua N
  lua_l_ref v l =
      let k = h.fresh_key l.registry in (key k, record l { registry = (k, v) ∷ l.registry })

  -- `LuaPromise::LuaPromise`: `Promise.new` calls `Create` with the resolving and the rejecting
  -- function before the promise itself is referenced.
  unfoldable pub new_promise : Lua N → Promise × Lua N
  unfolding lua_l_ref
  new_promise l =
      let p = l.promises in
      let (resolve, l1) = lua_l_ref (resolver p) (record l { promises = suc p }) in
      let (reject, l2) = lua_l_ref (rejecter p) l1 in
      let (promise, l3) = lua_l_ref (promise_object p) l2 in
      (record { resolve = resolve; reject = reject; promise = promise }, l3)

  -- The member initialisers; `PingAction::ret` and `PrepareStatementCloseAction::ret` have none.
  -- The member `ret` of a new `PingAction`, which nothing initialises.
  abbrev pub ping_out : ℕ
  ping_out = h.garbage

  unfoldable pub initial_out : Job → ℕ
  initial_out ping_action = ping_out
  initial_out (prepare_statement stmt text) = prepare_out
  initial_out (prepare_statement_close stmt) = h.garbage
  initial_out _ = 0

  unfoldable pub new_async : Job → Lua N → Action × Lua N
  unfolding new_promise initial_out
  new_async job l =
      let (refs, l') = new_promise l in
      (
        record {
          refs = refs;
          has_finished = false;
          kind = async (record { job = job; started = false; out = initial_out job });
        },
        l',
      )

  -- `QueryAction::QueryAction`
  unfoldable pub new_query : Bytes → Lua N → Action × Lua N
  unfolding new_promise lua_l_ref
  new_query text l =
      let (refs, l1) = new_promise l in
      let (data_reference, l2) = lua_l_ref (table empty_table) l1 in
      (
        record {
          refs = refs;
          has_finished = false;
          kind = querying (record {
            stage = at_query;
            started = false;
            out = 0;
            text = text;
            results = 0;
            row = 0;
            data_reference = data_reference;
            has_retried = false;
          });
        },
        l2,
      )

  -- `ExecuteStatementAction::ExecuteStatementAction`; none where an argument is of a wrong type, when
  -- the promise has been made already.
  unfoldable pub new_execute : ℕ → Option (List Bind × List Bytes) → Lua N → Option Action × Lua N
  unfolding new_promise lua_l_ref
  new_execute stmt none l = (none, (new_promise l).1)
  new_execute stmt (some (arguments, buffers)) l =
      let (refs, l1) = new_promise l in
      let (reference, l2) = lua_l_ref (table empty_table) l1 in
      (
        some (record {
          refs = refs;
          has_finished = false;
          kind = executing (record {
            stage = at_execute;
            started = false;
            in_thread = false;
            thread_finished = false;
            out = 0;
            stmt = stmt;
            arguments = arguments;
            buffers = buffers;
            reference = reference;
            resultdata = [];
            worker = no_thread;
          });
        }),
        l2,
      )

module _ {N : Type 0} where
  -- `Push` of an action: the promise, which the functions that Lua code calls return.
  unfoldable pub push_promise : Promise → Lua N → Option (Held N)
  push_promise p l = rawgeti p.promise l.registry

  -- `LuaPromise::Free`
  unfoldable pub free_promise : Promise → Lua N → Lua N
  free_promise p l = record l {
    registry = unref p.resolve (unref p.reject (unref p.promise l.registry));
  }

  -- What `Free` of `ExecuteStatementAction` does besides, and that of `QueryAction` likewise.
  unfoldable pub free_table : Ref → Lua N → Lua N
  free_table ref l = record l { registry = unref ref l.registry }

  -- `Free` of the classes; those of `QueryAction` and `ExecuteStatementAction` let go of the table too.
  unfoldable pub free_kind : Kind → Lua N → Lua N
  unfolding free_table
  free_kind (async x) l = l
  free_kind (querying q) l = free_table q.data_reference l
  free_kind (executing x) l = free_table x.reference l

  unfoldable pub free : Action → Lua N → Lua N
  free a l = free_kind a.kind (free_promise a.refs l)
