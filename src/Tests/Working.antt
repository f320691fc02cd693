-- ===== src/Tests/Working.antt =====
-- States that the module gets into with a query or a prepared statement at work.
use gluamysql.Base.{ℕ, refl, false, true, none, some, List, [], ◌∷◌}
use gluamysql.Row.{
  Row, string, push_row, push_columns, push_columns_plain, push_cell, push_field, cell_string,
}
use gluamysql.Table.{rawset}
use gluamysql.Lua.{
  entry, remove, unref, rawgeti, key, Lua, table, resolver, rejecter, promise_object, database,
  weak_database,
}
use gluamysql.Host.{Host, Command, Request, Reply, submit, connect, execute}
use gluamysql.Action.{
  Promise, Query, Exec, at_query, at_execute, storing_result, empty_table, new_query, new_execute,
  new_promise, lua_l_ref, new_async, initial_out, free, free_kind, free_promise,
}
use gluamysql.Binding.{unset, make_arguments, null_binds, create_buffer, populate}
use gluamysql.Database.{get_socket_status, check_status, push, insert_action}
use gluamysql.Status.{get_current_database_status}
use gluamysql.Library.{
  submit_job, mysql_connect, new_database, call_method, handle_request, submit_query,
  submit_execute, insert_made,
}
use gluamysql.Machine.{
  State, at_address, method_at, on_address, run_command, run_commands, enter, call_held, lua_call,
}
use gluamysql.Async.{
  query_async, start_job, store_reply, finish_job, settle, resolve_with, resolve_pushed,
  resolve_database,
}
use gluamysql.Querying.{
  store_kind, with_kind, query_query, advance, store_stage, store_out, run_stage,
}
use gluamysql.Executing.{
  query_exec, run_exec, keep_fetched, fetch_round, free_next, worker_step, run_worker, watch,
  execute_start, free_results_start, start_stage, continue_stage, advance_exec,
}
use gluamysql.Tick
use gluamysql.Tick.{
  run_tick, run_loop, round, next_action, next_of, work, end_action, go_on, test_current, unpin,
  query_job, do_finish, do_finish_of, finish, free_current, free_of,
}
use gluamysql.Hooks.{run_tick_hook, tick_hook_tick, pass_from, has_work}
use gluamysql.Hooks.Reach.{Reachable, loaded, after_command, after_tick}
use gluamysql.Hooks.Served.{open_databases, Resolved, working-Resolved, running-Resolved}
use gluamysql.Tick.Fails.{working}
use gluamysql.Tick.Executes.{running, converts, no_more}
use gluamysql.Tick.Gathers
use gluamysql.Tick.Executed
use gluamysql.Tests.Demo.{demo-FreshKeys, quiet, empty_lua, state_of}
use gluamysql.Tests.Reached.{played, past_of, asks_and_raises, connected_db, connected_lua}

abbrev its_promise : Promise
its_promise = record { resolve = key 32; reject = key 64; promise = key 128 }

abbrev its_lua : Lua ℕ
its_lua = record {
  registry =
      (256, table empty_table)
      ∷ (128, promise_object 1)
      ∷ (64, rejecter 1)
      ∷ (32, resolver 1)
      ∷ (16, database 100)
      ∷ (1, weak_database 100)
      ∷ [];
  promises = 2;
  log = connected_lua.log;
}

abbrev its_state : List Reply → ℕ → State (List Reply) ℕ
its_state replies status =
    state_of
      (record (connected_db replies) {
        channel = record { instance = replies; socket_state = status };
        queue_reference = key 16;
      })
      its_lua

-- The query is done in its second tick, then there is a row, no further row, and the result is freed.
abbrev answers : List Reply
answers =
    record { status = 0; out = some 0 }
    ∷ record { status = 0; out = some 7 }
    ∷ record { status = 0; out = some 0 }
    ∷ record { status = 0; out = none }
    ∷ []

abbrev asking : Query
asking = record {
  stage = at_query;
  started = true;
  out = 0;
  text = [];
  results = 0;
  row = 0;
  data_reference = key 256;
  has_retried = false;
}

abbrev slow_replies : List Reply
slow_replies = record { status = 1; out = none } ∷ answers

abbrev slow : Host (List Reply) ℕ
slow = played slow_replies

abbrev query_asked : List Command
query_asked = submit 100 (Request.query []) ∷ []

query_at_work :
    Reachable
      (past_of query_asked slow_replies)
      (open_databases (working its_promise asking (its_state answers 1)))
      its_lua
unfolding query_job query_async start_job store_reply do_finish do_finish_of finish finish_job
    settle resolve_database resolve_pushed resolve_with lua_call call_held enter run_commands
    run_command on_address free_current free_of free free_kind free_promise unref remove
    mysql_connect new_database submit_job new_async initial_out at_address method_at call_method
    handle_request submit_query new_query new_promise lua_l_ref insert_action push rawgeti entry
    run_tick_hook tick_hook_tick pass_from has_work run_tick run_loop round next_action next_of work
    Tick.query query_query advance store_stage store_out run_stage store_kind with_kind
    get_socket_status get_current_database_status end_action go_on test_current unpin
query_at_work =
    after_tick
      (after_tick (after_tick (after_command (connect [] [] [] [] 3306) (loaded empty_lua))))

abbrev fetched : List (Row ℕ)
fetched = ((b'n' ∷ [], string (7 ∷ [])) ∷ []) ∷ []

answered :
    Gathers.Succeeds slow asking (record { instance = answers; socket_state = 1 }) 4 fetched []
unfolding advance store_stage store_out check_status get_socket_status push_row push_columns_plain
    push_cell push_field cell_string rawset
answered = Gathers.has_results _ _ refl refl refl refl refl (
    Gathers.has_row _ _ _ refl refl refl refl refl (
      Gathers.rows_end _ _ refl refl refl refl refl (Gathers.result_freed _ _ refl refl refl refl)))

working-Resolved_example :
    Resolved slow
      (demo-FreshKeys 0 quiet)
      (λ log. refl)
      its_promise
      (key 256)
      4
      fetched
      []
      (its_state answers 1)
      (working its_promise asking (its_state answers 1))
working-Resolved_example =
    working-Resolved slow (demo-FreshKeys 0 quiet) (λ log. refl) (asks_and_raises query_asked)
      its_promise asking (its_state answers 1) query_at_work answered

-- A statement is executed with no argument for its parameter; the one reply stands for the row. Its
-- thread is about to store the result.
abbrev a_row : List Reply
a_row = record { status = 0; out = none } ∷ []

abbrev its_statement : Exec
its_statement = record {
  stage = at_execute;
  started = true;
  in_thread = true;
  thread_finished = false;
  out = 0;
  stmt = 9;
  arguments =
      record {
        is_null = 0;
        buffer_type = unset;
        buffer = none;
        buffer_length = 0;
        length_pointer = none;
      }
      ∷ [];
  buffers = (1 ∷ []) ∷ [];
  reference = key 256;
  resultdata = [];
  worker = storing_result;
}

abbrev execute_asked : List Command
execute_asked = submit 100 (execute 9 []) ∷ []

statement_at_work :
    Reachable
      (past_of execute_asked a_row)
      (open_databases (running its_promise its_statement (its_state a_row 1)))
      its_lua
unfolding query_job query_async start_job store_reply do_finish do_finish_of finish finish_job
    settle resolve_database resolve_pushed resolve_with lua_call call_held enter run_commands
    run_command on_address free_current free_of free free_kind free_promise unref remove
    mysql_connect new_database submit_job new_async initial_out at_address method_at call_method
    handle_request submit_execute insert_made new_execute make_arguments null_binds create_buffer
    populate new_promise lua_l_ref insert_action push rawgeti entry run_tick_hook tick_hook_tick
    pass_from has_work run_tick run_loop round next_action next_of work Tick.query query_exec
    advance_exec start_stage execute_start watch run_worker worker_step run_exec store_kind
    with_kind get_socket_status get_current_database_status end_action go_on test_current unpin
statement_at_work =
    after_tick
      (after_tick (after_tick (after_command (connect [] [] [] [] 3306) (loaded empty_lua))))

abbrev statement_rows : List (Row ℕ)
statement_rows = ((b'n' ∷ [], string (b'v' ∷ [])) ∷ []) ∷ []

succeeds :
    Executed.Succeeds
      (played a_row)
      its_statement
      (record { instance = a_row; socket_state = 1 })
      6
      statement_rows
      []
unfolding advance_exec start_stage continue_stage execute_start free_results_start watch run_worker
    worker_step keep_fetched fetch_round free_next check_status get_socket_status push_row
    push_columns push_cell push_field cell_string rawset
succeeds = Executed.has_rows _ _ refl refl refl refl refl (
    Executed.waits _ _ refl refl (
      Executed.rows_fetched _ _ refl refl refl refl (converts refl no_more) (
        Executed.waits _ _ refl refl (
          Executed.results_freed _ _ refl refl refl
            (Executed.statement_freed _ _ refl refl refl)))))

running-Resolved_example :
    Resolved
      (played a_row)
      (demo-FreshKeys 0 quiet)
      (λ log. refl)
      its_promise
      (key 256)
      6
      statement_rows
      []
      (its_state a_row 1)
      (running its_promise its_statement (its_state a_row 1))
running-Resolved_example =
    running-Resolved (played a_row) (demo-FreshKeys 0 quiet) (λ log. refl)
      (asks_and_raises execute_asked) its_promise its_statement (its_state a_row 1)
      statement_at_work succeeds
