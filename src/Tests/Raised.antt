-- ===== src/Tests/Raised.antt =====
-- An action whose settlement raises an error.
use gluamysql.Base.{ℕ, ◌≡◌, refl, false, true, some, List, [], ◌∷◌}
use gluamysql.Lua.{entry, rawgeti, key, Lua, Event, table, resolver, rejecter, promise_object}
use gluamysql.Host.{Reply, Reaction}
use gluamysql.Action.{Promise, empty_table, Async, commit_action}
use gluamysql.Database.{get_socket_status}
use gluamysql.Machine.{State, raised, lua_call, call_held, enter}
use gluamysql.Querying.{store_kind, with_kind}
use gluamysql.Tick.{
  run_tick, run_loop, round, next_action, next_of, work, query, query_job, end_action, do_finish,
  do_finish_of, finish, go_on,
}
use gluamysql.Async.{query_async, start_job, store_reply, finish_job, settle, resolve_with}
use gluamysql.Status.{get_current_database_status}
use gluamysql.Tick.Serving.{action_of, busy}
use gluamysql.Tick.Raised.{Freed, run_tick-Freed}
use gluamysql.Tests.Demo.{demo, idle_db, state_of}

abbrev its_promise : Promise
its_promise = record { resolve = key 1; reject = key 2; promise = key 3 }

abbrev pub its_lua : Lua ℕ
its_lua = record {
  registry =
      (1, resolver 0) ∷ (2, rejecter 0) ∷ (3, promise_object 0) ∷ (4, table empty_table) ∷ [];
  promises = 1;
  log = [];
}

-- Lua code that always raises an error.
abbrev raises : List (Event ℕ) → Reaction
raises log = record { commands = []; raises = true }

abbrev committing : Async
committing = record { job = commit_action; started = false; out = 0 }

abbrev pub at_commit : State (List Reply) ℕ
at_commit =
    busy (action_of its_promise committing) []
      (state_of (idle_db (record { status = 0; out = some 0 } ∷ [])) its_lua)

its_error : (run_tick (demo 0 raises) at_commit).0 ≡ raised
unfolding run_tick run_loop round next_action next_of work query query_job query_async start_job
    store_reply get_socket_status get_current_database_status store_kind with_kind end_action
    do_finish do_finish_of finish finish_job settle resolve_with lua_call call_held enter rawgeti
    entry go_on
its_error = refl

run_tick-Freed_example :
    Freed
      (demo 0 raises)
      (run_tick (demo 0 raises) at_commit).1
      (run_tick (demo 0 raises) (run_tick (demo 0 raises) at_commit).1)
run_tick-Freed_example =
    run_tick-Freed (demo 0 raises) its_promise committing [] at_commit its_error
