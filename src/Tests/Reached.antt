-- ===== src/Tests/Reached.antt =====
-- States that the module gets into: a connection was made, and then two calls wait, or a query or a
-- prepared statement is at work.
use gluamysql.Base.{arith, ◌≡◌, false, map, ℕ, refl, true, none, some, List, [], ◌∷◌}
use gluamysql.Lua.{
  Event, entry, remove, unref, rawgeti, key, Lua, refnil, resolver, rejecter, promise_object,
  database, weak_database, with_database,
}
use gluamysql.Host.{Host, Command, Reaction, Reply, connect, submit, commit, ping}
use gluamysql.Action.{
  commit_action, ping_action, new_async, new_promise, lua_l_ref, initial_out, free, free_kind,
  free_promise,
}
use gluamysql.Database.{Db, get_socket_status, check_status, push, insert_action}
use gluamysql.Status.{get_current_database_status}
use gluamysql.Library.{call_method, handle_request, submit_job, mysql_connect, new_database}
use gluamysql.Machine.{
  State, run_command, on_address, at_address, method_at, lua_call, call_held, enter, run_commands,
}
use gluamysql.Async.{
  query_async, start_job, continue_job, store_reply, finish_job, settle, resolve_with,
  resolve_pushed, resolve_database,
}
use gluamysql.Querying.{store_kind, with_kind}
use gluamysql.Tick
use gluamysql.Tick.{
  run_tick, run_loop, round, next_action, next_of, work, query_job, end_action, do_finish,
  do_finish_of, finish, free_current, free_of, go_on, test_current, unpin,
}
use gluamysql.Hooks.{run_tick_hook, tick_hook_tick, pass_from, has_work}
use gluamysql.Hooks.Reach.{with_react, Reachable, loaded, after_command, after_tick}
use gluamysql.Claims.{Owned, claims_dbs}
use gluamysql.Claims.Calm.{is_raised}
use gluamysql.Hooks.Raising.{run_tick_never_raises}
use gluamysql.Hooks.Owned.{Reachable-Owned}
use gluamysql.Hooks.Draining.{Finishes, run_shutdown_hook-Finishes}
use gluamysql.Hooks.Held.{IsHeld, Reachable-IsHeld}
use gluamysql.Hooks.Served.{open_databases}
use gluamysql.Hooks.Worked.{Renumbered, Reachable-WorkedOff}
use gluamysql.Tick.Drain.{
  Asked, action, AllAnswered, then_next, no_more, now, later, ticks, WorkedOff,
}
use gluamysql.Tick.Serving.{queued}
use gluamysql.Tests.Demo.{demo, demo-FreshKeys, quiet, empty_lua, state_of}

-- The connection is made at once; the replies that are left come after.
abbrev pub played : List Reply → Host (List Reply) ℕ
played replies = record (demo 0 quiet) { init = record { status = 0; out = some 1 } ∷ replies }

-- A database with nothing to do.
abbrev pub connected_db : List Reply → Db (List Reply)
connected_db replies = record {
  address = 100;
  channel = record { instance = replies; socket_state = 0 };
  queue = [];
  stmts = [];
  current_action = none;
  reference = key 1;
  queue_reference = refnil;
  gced = false;
  cleared = false;
}

abbrev pub connected_lua : Lua ℕ
connected_lua = record {
  registry = (1, weak_database 100) ∷ [];
  promises = 1;
  log = record { promise = 0; success = true; args = with_database 100 } ∷ [];
}

-- When it learns of its connection, the Lua code asks for this, and then raises an error.
abbrev pub asks_and_raises : List Command → List (Event ℕ) → Reaction
asks_and_raises commands (e ∷ []) = record { commands = commands; raises = true }
asks_and_raises commands _ = record { commands = []; raises = false }

abbrev pub past_of : List Command → List Reply → Host (List Reply) ℕ
past_of commands replies = with_react (played replies) (asks_and_raises commands)

-- The first call is done at its second turn, with an error; the second at once.
abbrev two_answers : List Reply
two_answers =
    record { status = 1; out = none }
    ∷ record { status = 0; out = some 1 }
    ∷ record { status = 0; out = some 0 }
    ∷ []

abbrev asked_commit : Asked
asked_commit = record {
  number = 1;
  refs = record { resolve = key 32; reject = key 64; promise = key 128 };
  call = record { job = commit_action; started = false; out = 0 };
}

abbrev asked_ping : Asked
asked_ping = record {
  number = 2;
  refs = record { resolve = key 256; reject = key 512; promise = key 1024 };
  call = record { job = ping_action; started = false; out = 77 };
}

abbrev two_calls : List Asked
two_calls = asked_commit ∷ asked_ping ∷ []

abbrev waiting_state : State (List Reply) ℕ
waiting_state =
    state_of (record (connected_db two_answers) { queue_reference = key 16 })
      (record {
        registry =
            (1024, promise_object 2)
            ∷ (512, rejecter 2)
            ∷ (256, resolver 2)
            ∷ (128, promise_object 1)
            ∷ (64, rejecter 1)
            ∷ (32, resolver 1)
            ∷ (16, database 100)
            ∷ (1, weak_database 100)
            ∷ [];
        promises = 3;
        log = connected_lua.log;
      })

abbrev two_commands : List Command
two_commands = submit 100 commit ∷ submit 100 ping ∷ []

-- The connection is made in the first tick, whose callback asks for the two calls and raises an error;
-- the second frees the connect action.
waiting :
    Reachable
      (past_of two_commands two_answers)
      (open_databases (queued (map action two_calls) waiting_state))
      waiting_state.lua
unfolding run_tick_hook tick_hook_tick pass_from has_work run_tick run_loop round next_action
    next_of work Tick.query query_job query_async start_job store_reply get_socket_status
    get_current_database_status store_kind with_kind end_action do_finish do_finish_of finish
    finish_job settle resolve_database push resolve_pushed resolve_with lua_call call_held enter
    run_commands run_command on_address rawgeti entry go_on test_current free_current free_of free
    free_kind free_promise unref remove unpin mysql_connect new_database at_address method_at
    call_method handle_request submit_job new_async new_promise lua_l_ref insert_action initial_out
waiting = after_tick (after_tick (after_command (connect [] [] [] [] 3306) (loaded empty_lua)))

-- What the two calls wrote, and the replies left then.
abbrev two_outs : List (ℕ × List Reply)
two_outs = (1, record { status = 0; out = some 0 } ∷ []) ∷ (0, []) ∷ []

two_answered :
    AllAnswered
      (played two_answers)
      two_calls
      (record { instance = two_answers; socket_state = 0 })
      3
      two_outs
      (record { instance = []; socket_state = 0 })
unfolding query_async start_job continue_job store_reply get_socket_status check_status
two_answered =
    then_next _ _ 1 _ _ (later _ _ refl (now _ _ _ _ refl))
      (then_next _ _ 0 _ _ (now _ _ _ _ refl) (no_more _))

Reachable-WorkedOff_example :
    (x : Renumbered two_calls waiting_state.lua.registry) × WorkedOff
      (played two_answers)
      (λ log. refl)
      x.numbered
      two_outs
      waiting_state.lua.log
      (ticks (played two_answers) 3 (queued (map action two_calls) waiting_state))
Reachable-WorkedOff_example =
    Reachable-WorkedOff (played two_answers) (demo-FreshKeys 0 quiet) (λ log. refl)
      (asks_and_raises two_commands) two_calls waiting_state waiting two_answered (refl, (refl, tt))

Reachable-Owned_example :
    Owned waiting_state.lua.registry
      (claims_dbs (open_databases (queued (map action two_calls) waiting_state)))
Reachable-Owned_example =
    Reachable-Owned (past_of two_commands two_answers) (demo-FreshKeys 0 quiet) waiting

run_tick_never_raises_example :
    is_raised (run_tick (played two_answers) (queued (map action two_calls) waiting_state)).0
    ≡ false
unfolding next_action next_of
run_tick_never_raises_example =
    run_tick_never_raises (played two_answers) (demo-FreshKeys 0 quiet) (λ log. refl)
      (asks_and_raises two_commands) (queued (map action two_calls) waiting_state) waiting (λ c. cc)

Reachable-IsHeld_example : IsHeld (queued (map action two_calls) waiting_state).db waiting_state.lua
unfolding has_work
Reachable-IsHeld_example =
    Reachable-IsHeld (past_of two_commands two_answers) (demo-FreshKeys 0 quiet) [] []
      (queued (map action two_calls) waiting_state).db waiting_state.lua waiting refl refl

run_shutdown_hook-Finishes_example :
    Finishes
      (played two_answers)
      (demo-FreshKeys 0 quiet)
      (λ log. refl)
      4
      two_calls
      two_outs
      (queued (map action two_calls) waiting_state).db
      waiting_state.lua
run_shutdown_hook-Finishes_example =
    run_shutdown_hook-Finishes (played two_answers) (demo-FreshKeys 0 quiet) (λ log. refl)
      (asks_and_raises two_commands) two_calls waiting_state.db waiting_state.lua
      (record { instance = two_answers; socket_state = 0 }) 4 waiting refl two_answered
      (refl, (refl, tt)) (omega arith)
