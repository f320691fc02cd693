-- ===== src/Executing.antt =====
-- src/actions/executestatement.h: a prepared statement is executed, and its rows are fetched, by
-- detached threads that make blocking calls; a tick only looks whether the thread is done. A thread
-- is run here in steps, some of them each time that the code looks at it.
pub mod Threads
pub mod Reference
use gluamysql.Base.{
  ◌++◌, ℕ, zero, suc, Bool, true, false, not, Option, none, some, List, [], ◌∷◌, map, ◌==◌,
  if◌then◌else◌,
}
use gluamysql.Table.{Bytes}
use gluamysql.Row.{Row, push_row}
use gluamysql.Lua.{Ref}
use gluamysql.Host.{Host, Reply, Fetched, stmt_free_result}
use gluamysql.Action.{
  Action, async, querying, executing, Promise, Exec, ExecStage, at_execute, at_rows,
  at_free_results, at_free_statement, Worker, no_thread, executing_statement, looking_for_rows,
  storing_result, fetching, freeing, signalling, ResultData,
}
use gluamysql.Database.{Channel, get_socket_status, check_status}
use gluamysql.Machine.{done, undefined, M, ◌>>=◌, ◌>>◌, pure, modify_db}
use gluamysql.Async.{reject}
use gluamysql.Querying.{store_kind, append_row}

-- `MYSQL_NO_DATA` and `MYSQL_DATA_TRUNCATED`
abbrev pub no_data : ℕ
no_data = 100

abbrev pub data_truncated : ℕ
data_truncated = 101

-- "MySQL data truncated"
abbrev pub truncated_message : Bytes
truncated_message =
    b'M' ∷ b'y' ∷ b'S' ∷ b'Q' ∷ b'L' ∷ b' ' ∷ b'd' ∷ b'a' ∷ b't' ∷ b'a' ∷ b' ' ∷ b't' ∷ b'r' ∷ b'u'
    ∷ b'n' ∷ b'c' ∷ b'a' ∷ b't' ∷ b'e' ∷ b'd' ∷ []

-- The statement at work.
unfoldable pub exec_of : Option Action → Option Exec
exec_of none = none
exec_of (some a) = elim a.kind [ executing x ↦ some x | async _ ↦ none | querying _ ↦ none ]

-- What `ExecuteContinue`, `FetchContinue` and `FreeResultsContinue` return.
abbrev pub look : Exec → ℕ
look x = if x.thread_finished then 0 else 1

module _ {C N : Type 0} (h : Host C N) where
  -- `ResultData` keeps what `mysql_stmt_fetch` wrote to its buffers, if it returned zero.
  unfoldable pub keep_fetched : ℕ → Exec → Fetched × C → Exec × C
  keep_fetched results x (f, c) =
      if f.code == 0
      then (let made : ResultData = record {
        results = results;
        row = map some f.columns;
        is_nulls = f.is_nulls;
      } in
          (record x { out = 0; resultdata = x.resultdata ++ made ∷ [] }, c))
      else (record x { out = f.code; worker = signalling }, c)

  -- One round of the loop of `FetchStart`. What `ResultData::ResultData` throws is caught nowhere,
  -- and there is no metadata without a result.
  unfoldable pub fetch_round : Exec → C → Option (Exec × C)
  unfolding keep_fetched
  fetch_round x c =
      let (results, c1) = h.stmt_result_metadata x.stmt c in
      let (bound, c2) = h.stmt_bind_result x.stmt c1 in
      if results == 0
      then none
      else (if bound == 0 then some (keep_fetched results x (h.stmt_fetch x.stmt c2)) else none)

  unfoldable pub free_next : List ResultData → Exec → C → Exec × C
  free_next [] x c = (record x { worker = signalling }, c)
  free_next (d ∷ rest) x c = (record x { resultdata = rest }, h.free_result_blocking d.results c)

  -- A step of the thread; none where the program is terminated.
  unfoldable pub worker_step : Worker → Exec → C → Option (Exec × C)
  unfolding fetch_round free_next
  worker_step no_thread x c = some (x, c)
  worker_step executing_statement x c =
      let (r, c') = h.stmt_execute x.stmt c in
      some (record x { out = r; worker = if r == 0 then looking_for_rows else signalling }, c')
  worker_step looking_for_rows x c =
      let (m, c') = h.stmt_result_metadata x.stmt c in
      some (record x { worker = if m == 0 then signalling else storing_result }, c')
  worker_step storing_result x c =
      let (r, c') = h.stmt_store_result x.stmt c in
      some (record x { out = r; worker = signalling }, c')
  worker_step fetching x c = fetch_round x c
  worker_step freeing x c = some (free_next x.resultdata x c)
  worker_step signalling x c = some (record x { thread_finished = true; worker = no_thread }, c)

  abbrev pub and_then {ℓ} : {A : Type ℓ} → (Exec → C → Option A) → Option (Exec × C) → Option A
  and_then f none = none
  and_then f (some (x, c)) = f x c

  -- That many steps.
  unfoldable pub run_worker : ℕ → Exec → C → Option (Exec × C)
  unfolding worker_step
  run_worker zero x c = some (x, c)
  run_worker (suc n) x c = and_then (run_worker n) (worker_step x.worker x c)

  abbrev pub looked : Exec → C → Option (ℕ × Exec × C)
  looked x c = some (look x, x, c)

  -- The thread goes on for a while, and the code looks at its flag.
  unfoldable pub watch : Exec → C → Option (ℕ × Exec × C)
  unfolding run_worker
  watch x c = and_then looked (run_worker (h.thread_steps c) x c)

  -- `ExecuteStart`
  unfoldable pub execute_start : Exec → C → Option (ℕ × Exec × C)
  unfolding watch
  execute_start x c =
      let (r, c') = h.stmt_bind_param x.stmt x.arguments x.buffers c in
      if r == 0
      then watch (record x { out = 0; in_thread = true; worker = executing_statement }) c'
      else some (0, record x { out = r }, c')

  -- `FreeResultsStart`
  unfoldable pub free_results_start : List ResultData → Exec → C → Option (ℕ × Exec × C)
  unfolding watch
  free_results_start [] x c = some (0, x, c)
  free_results_start (_ ∷ _) x c =
      watch (record x { thread_finished = false; in_thread = true; worker = freeing }) c

  abbrev replied : Exec → Reply × C → Option (ℕ × Exec × C)
  replied x (reply, c) = some (reply.status, x, c)

  -- The first function of the triple.
  unfoldable pub start_stage : ExecStage → Exec → C → Option (ℕ × Exec × C)
  unfolding execute_start free_results_start watch
  start_stage at_execute x c = execute_start x c
  start_stage at_rows x c =
      watch (record x { thread_finished = false; in_thread = true; worker = fetching }) c
  start_stage at_free_results x c = free_results_start x.resultdata x c
  start_stage at_free_statement x c = replied x (h.start (stmt_free_result x.stmt) c)

  -- The second, with the status of the connection.
  unfoldable pub continue_stage : ExecStage → ℕ → Exec → C → Option (ℕ × Exec × C)
  unfolding watch
  continue_stage at_free_statement status x c =
      replied x (h.cont (stmt_free_result x.stmt) status c)
  continue_stage _ status x c = watch x c

  abbrev pub placed : Option (ℕ × Exec × C) → Option (Exec × Channel C)
  placed none = none
  placed (some (status, x, c)) = some (x, record { instance = c; socket_state = status })

  abbrev begin : Exec → Channel C → Option (Exec × Channel C)
  begin x ch = placed (start_stage x.stage (record x { started = true }) ch.instance)

  abbrev resume : Exec → Channel C → Option (Exec × Channel C)
  resume x ch = placed (continue_stage x.stage ch.socket_state x ch.instance)

  abbrev pub resume_if : Exec → Bool × Channel C → Option (Exec × Channel C)
  resume_if x (true, ch) = resume x (get_socket_status h ch)
  resume_if x (false, ch) = some (x, ch)

  -- The first half of `ExecuteStatementAction::Query`. With a thread at work, or with `in_thread`
  -- still set from an earlier one, `CheckStatus` is not asked.
  unfoldable pub advance_exec : Exec → Channel C → Option (Exec × Channel C)
  unfolding start_stage continue_stage get_socket_status check_status
  advance_exec x ch =
      if not x.started
      then begin x (get_socket_status h ch)
      else (if x.in_thread then resume_if x (true, ch) else resume_if x (check_status h ch))

  abbrev pub store_exec : Exec → M C N (Unit {0})
  store_exec x = modify_db (store_kind (executing x))

  -- `Reject` with `mysql_stmt_error`.
  unfoldable pub reject_stmt : Promise → Exec → M C N (Unit {0})
  unfolding reject
  reject_stmt p x s = reject h p (some (h.stmt_error x.stmt s.db.instance)) s

  abbrev metadata : ℕ → M C N ℕ
  metadata stmt s =
      let (r, c) = h.stmt_result_metadata stmt s.db.instance in
      (done r, record s { db = record s.db { channel = record s.db.channel { instance = c } } })

  unfoldable pub have_metadata : Exec → ℕ → M C N Bool
  unfolding store_kind
  have_metadata x m =
      if m == 0 then pure true else (do store_exec (record x { stage = at_rows }); pure false)

  unfoldable pub executed : Promise → Exec → M C N Bool
  unfolding have_metadata reject_stmt
  executed p x =
      if x.out == 0
      then (do m ← metadata x.stmt; have_metadata x m)
      else (do reject_stmt p x; pure true)

  -- `ExecuteFinish`
  unfoldable pub execute_finish : Promise → Exec → M C N Bool
  unfolding executed store_kind
  execute_finish p x = do
    store_exec (record x { in_thread = false })
    executed p (record x { in_thread = false })

  unfoldable pub append_made : Ref → Option (Row N) → M C N (Unit {0})
  unfolding append_row
  append_made ref none = λ s. (undefined, s)
  append_made ref (some row) = append_row h ref row

  -- A row of the loop in `FetchFinish`, by the buffers of its `ResultData`.
  unfoldable pub append_result : Ref → ResultData → M C N (Unit {0})
  unfolding append_made
  append_result ref d s =
      append_made ref
        (push_row h.numbers (h.fields d.results s.db.instance) d.row (some d.is_nulls)) s

  unfoldable pub append_results : Ref → List ResultData → M C N (Unit {0})
  unfolding append_result
  append_results ref [] = pure tt
  append_results ref (d ∷ rest) = do append_result ref d; append_results ref rest

  unfoldable pub fetch_outcome : Promise → Exec → M C N (Unit {0})
  unfolding append_results reject_stmt reject
  fetch_outcome p x =
      if x.out == data_truncated
      then reject h p (some truncated_message)
      else (if x.out == no_data then append_results x.reference x.resultdata else reject_stmt p x)

  -- `FetchFinish`
  unfoldable pub fetch_finish : Promise → Exec → M C N Bool
  unfolding fetch_outcome store_kind
  fetch_finish p x = do
    store_exec (record x { in_thread = false })
    fetch_outcome p x
    store_exec (record x { in_thread = false; stage = at_free_results })
    pure false

  -- The third function of the triple; that of `at_free_results` leaves `in_thread` as it is.
  unfoldable pub finish_exec_stage : Promise → Exec → ExecStage → M C N Bool
  unfolding execute_finish fetch_finish store_kind
  finish_exec_stage p x at_execute = execute_finish p x
  finish_exec_stage p x at_rows = fetch_finish p x
  finish_exec_stage p x at_free_results = do
    store_exec (record x { stage = at_free_statement })
    pure false
  finish_exec_stage p x at_free_statement = pure true

  unfoldable pub rewind_of : Option Exec → M C N (Unit {0})
  unfolding store_kind
  rewind_of none = pure tt
  rewind_of (some x) = store_exec (record x { started = false })

  -- `started = false`
  unfoldable pub rewind_exec : M C N (Unit {0})
  unfolding rewind_of exec_of
  rewind_exec s = rewind_of (exec_of s.db.current_action) s

  unfoldable pub end_stage : Bool → M C N Bool
  unfolding rewind_exec
  end_stage over = do rewind_exec; pure over

  unfoldable pub conclude_exec : Promise → Exec → M C N Bool
  unfolding finish_exec_stage end_stage
  conclude_exec p x = do over ← finish_exec_stage p x x.stage; end_stage over

  unfoldable pub run_exec : Promise → Option (Exec × Channel C) → M C N Bool
  unfolding conclude_exec store_kind
  run_exec p none = λ s. (undefined, s)
  run_exec p (some (x, ch)) = do
    modify_db (λ d. store_kind (executing x) (record d { channel = ch }))
    if ch.socket_state == 0 then conclude_exec p x else pure false

  -- `ExecuteStatementAction::Query`
  unfoldable pub query_exec : Promise → Exec → M C N Bool
  unfolding advance_exec run_exec
  query_exec p x s = run_exec p (advance_exec x s.db.channel) s
