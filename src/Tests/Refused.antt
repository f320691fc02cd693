-- ===== src/Tests/Refused.antt =====
-- A statement whose rows do not fit, and one that frees itself while its socket is silent.
use gluamysql.Base.{ℕ, ◌≡◌, refl, none, false, List, [], ◌∷◌}
use gluamysql.Status.{get_current_database_status, PollResult}
use gluamysql.Lua.{entry, rawgeti, key, table, resolver, rejecter, promise_object, with_error}
use gluamysql.Host.{Reply, Host}
use gluamysql.Action.{Promise, Exec, at_execute, no_thread, empty_table}
use gluamysql.Database.{Channel, get_socket_status, check_status}
use gluamysql.Machine.{State, done}
use gluamysql.Machine.Quiet.{logged}
use gluamysql.Executing.{
  truncated_message, keep_fetched, fetch_round, free_next, worker_step, run_worker, watch,
  execute_start, free_results_start, start_stage, continue_stage, advance_exec,
}
use gluamysql.Tick.Drain.{ticks}
use gluamysql.Tick.Busy.{Gathered}
use gluamysql.Tick.Executes.{running}
use gluamysql.Tick.Executed.{results_freed, statement_freed}
use gluamysql.Tick.Serving.{on_channel}
use gluamysql.Tick.Refused.{Refuses, waits, has_rows, not_fetched, refusal, ticks-Refused}
use gluamysql.Tick.Unasked.{rows_freed, freeing_itself, asked, asks, ticks-unasked}
use gluamysql.Tests.Demo.{demo, quiet, idle_db, state_of}

abbrev its_promise : Promise
its_promise = record { resolve = key 1; reject = key 2; promise = key 3 }

abbrev starting : Exec
starting = record {
  stage = at_execute;
  started = false;
  in_thread = false;
  thread_finished = false;
  out = 0;
  stmt = 9;
  arguments = [];
  buffers = [];
  reference = key 4;
  resultdata = [];
  worker = no_thread;
}

-- The one reply stands for the row.
abbrev a_row : List Reply
a_row = record { status = 0; out = none } ∷ []

abbrev at_start : State (List Reply) ℕ
at_start = state_of (idle_db a_row) (record {
  registry =
      (1, resolver 0) ∷ (2, rejecter 0) ∷ (3, promise_object 0) ∷ (4, table empty_table) ∷ [];
  promises = 1;
  log = [];
})

-- The first fetch does not fit.
abbrev narrow : Host (List Reply) ℕ
narrow = record (demo 3 quiet) {
  stmt_fetch = λ stmt c. (record { code = 101; columns = []; is_nulls = [] }, c);
}

refuses :
    Refuses narrow starting
      (record { instance = a_row; socket_state = 0 })
      5
      (with_error truncated_message 3)
      []
unfolding advance_exec start_stage continue_stage execute_start free_results_start watch run_worker
    worker_step keep_fetched fetch_round free_next check_status get_socket_status
refuses = waits _ _ refl refl (
    has_rows _ _ refl refl refl refl refl (
      not_fetched _ _ refl refl refl refl
        (results_freed _ _ refl refl refl (statement_freed _ _ refl refl refl))))

ticks-Refused_example :
    Gathered narrow
      (λ log. refl)
      0
      []
      empty_table
      (logged (refusal 0 (with_error truncated_message 3)) at_start)
      (ticks narrow 5 (running its_promise starting at_start))
unfolding rawgeti entry
ticks-Refused_example =
    ticks-Refused narrow (λ log. refl) its_promise starting 0 at_start refuses
      (record { resolves = refl; rejects = refl; rows = empty_table; gathers = refl })

-- Nothing ever comes over the socket.
abbrev silent : Host (List Reply) ℕ
silent = record (demo 0 quiet) { poll = λ c e. (PollResult.timed_out, c) }

abbrev waiting : Reply
waiting = record { status = 1; out = none }

abbrev three_waits : Channel (List Reply)
three_waits = record { instance = waiting ∷ waiting ∷ waiting ∷ []; socket_state = 0 }

ticks-unasked_example :
    ticks silent 4 (running its_promise (rows_freed starting) (on_channel three_waits at_start)) ≡ (
      done tt,
      running its_promise
          (freeing_itself starting)
          (on_channel (record { instance = []; socket_state = 1 }) at_start),
    )
unfolding get_socket_status get_current_database_status
ticks-unasked_example =
    ticks-unasked silent its_promise starting at_start three_waits 2 _ refl
      (asks _ refl (asks _ refl (asked _)))
