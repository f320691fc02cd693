-- ===== src/Tests/AtEnd.antt =====
-- The end of the module.
use gluamysql.Base.{arith, refl, true, false, List, [], ◌∷◌}
use gluamysql.Lua.{entry, rawgeti, unref, remove}
use gluamysql.Host.{Reply}
use gluamysql.Action.{free, free_kind, free_promise}
use gluamysql.Database.{Db, get_socket_status}
use gluamysql.Machine.{lua_call, call_held, enter, run_commands}
use gluamysql.Querying.{store_kind, with_kind}
use gluamysql.Status.{get_current_database_status}
use gluamysql.Async.{query_async, start_job, store_reply, finish_job, settle, resolve_with}
use gluamysql.Tick.{
  run_tick, run_loop, round, next_action, next_of, work, query, query_job, end_action, do_finish,
  do_finish_of, finish, free_current, free_of, go_on, test_current, unpin,
}
use gluamysql.Hooks.{has_work, pass_from, tick_hook_tick}
use gluamysql.Hooks.AtEnd.{EndsAfter, Closed, run_shutdown_hook-Closed}
use gluamysql.Tests.Demo.{demo, quiet, idle_db}
use gluamysql.Tests.Raised.{its_lua, at_commit}

-- A commit is at work on one database, and another was collected.
abbrev two_dbs : List (Db (List Reply))
two_dbs = at_commit.db ∷ record (idle_db []) { gced = true; cleared = true } ∷ []

-- The first pass ends the commit and deletes the collected database.
one_pass : EndsAfter (demo 0 quiet) false 1 two_dbs its_lua
unfolding tick_hook_tick pass_from has_work run_tick run_loop round next_action next_of work query
    query_job query_async start_job store_reply get_socket_status get_current_database_status
    store_kind with_kind end_action do_finish do_finish_of finish finish_job settle resolve_with
    lua_call call_held enter run_commands rawgeti entry go_on free_current free_of free free_kind
    free_promise unref remove test_current unpin
one_pass = (refl, (refl, tt))

run_shutdown_hook-Closed_example : Closed (demo 0 quiet) false 2 two_dbs its_lua
run_shutdown_hook-Closed_example =
    run_shutdown_hook-Closed (demo 0 quiet) false 1 2 two_dbs its_lua (omega arith) one_pass
