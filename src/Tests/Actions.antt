-- ===== src/Tests/Actions.antt =====
-- Actions that are made, freed and finished, and what Lua code calls.
use gluamysql.Base.{ℕ, ◌≡◌, refl, true, false, none, some, List, [], ◌∷◌, arith, ◌==◌}
use gluamysql.Lua.{key, Lua, rawgeti, weak_database, entry, unref, remove}
use gluamysql.Host.{Reply, commit}
use gluamysql.Action.{
  Action, close_action, commit_action, new_async, new_query, free, at_execute, Exec, ResultData,
  fetching, freeing, executing_statement, no_thread, lua_l_ref, new_promise,
}
use gluamysql.Action.References.{SameEntries, free-new_query}
use gluamysql.Async.{finish_job, erase_removed}
use gluamysql.Async.Close.{erase_removed-once, erase_removed-Absent}
use gluamysql.Async.Settlement.{settlement, finish_job-log}
use gluamysql.Database.{Db, push}
use gluamysql.Library.{call_method, queuelength}
use gluamysql.Library.Userdata.{
  gc_times, closing, call_method-gc_times, queuelength_lem, unfreed, is_started,
}
use gluamysql.Machine.{State, done}
use gluamysql.Tick.{run_loop}
use gluamysql.Tick.Rounds.{run_loop-once}
use gluamysql.Executing.{run_worker}
use gluamysql.Executing.Threads.{
  run_worker-freeing, run_worker-fetching, run_worker-executing, free_all, is_stopped, ends, row,
  made_of,
}
use gluamysql.Hooks.{has_work, tick_hook_tick}
use gluamysql.Hooks.Shutdown.{tick_hook_tick-idle}
use gluamysql.Tests.Demo.{demo, quiet, demo-FreshKeys, empty_lua, idle_db, state_of}

free-new_query_example :
    let (a, l) = new_query (demo 0 quiet) (b'q' ∷ []) empty_lua in
    SameEntries (free a l).registry empty_lua.registry
free-new_query_example =
    free-new_query (demo 0 quiet) (demo-FreshKeys 0 quiet) (b'q' ∷ []) empty_lua

-- A database at the address 1 in the weak table at the key 50, and a commit that was asked of it.
abbrev pub known_lua : Lua ℕ
known_lua = record empty_lua { registry = (50, weak_database 1) ∷ [] }

abbrev made : Action × Lua ℕ
made = new_async (demo 0 quiet) commit_action known_lua

abbrev known : State (List Reply) ℕ
known = state_of (record (idle_db []) { reference = key 50; current_action = some made.0 }) made.1

finish_job-log_example :
    (finish_job (demo 0 quiet) made.0.refs commit_action 1 known).1.lua.log
    ≡ settlement (demo 0 quiet) 0 commit_action 1 known.db ∷ []
unfolding new_async new_promise lua_l_ref rawgeti entry push
finish_job-log_example =
    finish_job-log (demo 0 quiet) (demo-FreshKeys 0 quiet) made.0.refs commit_action 1 0 known refl
      refl refl refl

erase_removed-once_example : erase_removed 7 (3 ∷ 7 ∷ 8 ∷ []) ≡ some (3 ∷ 8 ∷ [])
erase_removed-once_example = erase_removed-once 7 (3 ∷ []) (8 ∷ []) (ground arith) (ground arith)

erase_removed-Absent_example : erase_removed 7 (3 ∷ 8 ∷ []) ≡ none
erase_removed-Absent_example = erase_removed-Absent 7 (3 ∷ 8 ∷ []) (ground arith)

-- A database that is collected three times, and then asked for a commit.
abbrev known_db : Db (List Reply)
known_db = record (idle_db []) { reference = key 50 }

call_method-gc_times_example :
    let (a, m) = new_async (demo 0 quiet) close_action empty_lua in
    let x = gc_times (demo 0 quiet) 3 (known_db, known_lua) in
    (x ≡ (closing (demo 0 quiet) a known_db, m))
    × (call_method (demo 0 quiet) false commit x ≡ (false, x.0, x.1))
unfolding unref remove
call_method-gc_times_example =
    call_method-gc_times (demo 0 quiet) 2 known_db known_lua commit refl refl

queuelength_lem_example :
    (queuelength known.db == unfreed known.db.current_action known.db.queue)
    ≡ is_started known.db.current_action known.db.queue
queuelength_lem_example = queuelength_lem known.db

run_loop-once_example : run_loop (demo 0 quiet) 5 known ≡ run_loop (demo 0 quiet) 1 known
run_loop-once_example = run_loop-once (demo 0 quiet) 4 known

abbrev statement : Exec
statement = record {
  stage = at_execute;
  started = true;
  in_thread = true;
  thread_finished = false;
  out = 0;
  stmt = 9;
  arguments = [];
  buffers = [];
  reference = key 1;
  resultdata = [];
  worker = no_thread;
}

abbrev one_result : ResultData
one_result = record { results = 4; row = []; is_nulls = [] }

run_worker-freeing_example :
    run_worker
      (demo 0 quiet)
      3
      (record statement { worker = freeing; resultdata = one_result ∷ [] })
      []
    ≡ some (
      record statement { worker = no_thread; resultdata = []; thread_finished = true },
      free_all (demo 0 quiet) (one_result ∷ []) [],
    )
run_worker-freeing_example = run_worker-freeing (demo 0 quiet) (one_result ∷ []) statement []

run_worker-executing_example :
    is_stopped
      (demo 0 quiet)
      (run_worker (demo 0 quiet) 4 (record statement { worker = executing_statement }) [])
    ≡ true
run_worker-executing_example = run_worker-executing (demo 0 quiet) statement []

abbrev reply : Reply
reply = record { status = 0; out = none }

run_worker-fetching_example :
    run_worker (demo 0 quiet) 3 (record statement { worker = fetching }) (reply ∷ [])
    ≡ some (
      record statement {
        worker = no_thread;
        thread_finished = true;
        out = 100;
        resultdata = made_of (demo 0 quiet) 9 (reply ∷ []) ∷ [];
      },
      [],
    )
run_worker-fetching_example =
    run_worker-fetching (demo 0 quiet) statement
      (row (reply ∷ []) (refl, refl) refl (ends [] (refl, refl) refl))

tick_hook_tick-idle_example :
    tick_hook_tick
      (demo 0 quiet)
      false
      (idle_db [] ∷ record (idle_db []) { gced = true; cleared = true } ∷ [])
      empty_lua
    ≡ record { outcome = done true; dbs = idle_db [] ∷ []; lua = empty_lua }
unfolding has_work
tick_hook_tick-idle_example =
    tick_hook_tick-idle (demo 0 quiet) false
      (idle_db [] ∷ record (idle_db []) { gced = true; cleared = true } ∷ []) empty_lua
      (refl, (refl, tt))
