-- ===== src/Tests/Drain.antt =====
-- Queues that are worked off, and a query that fails.
use gluamysql.Base.{ℕ, ◌≡◌, refl, false, none, some, List, [], ◌∷◌}
use gluamysql.Lua.{
  entry, rawgeti, ResultTable, key, weak_database, table, resolver, rejecter, promise_object,
}
use gluamysql.Host.{Reply}
use gluamysql.Action.{
  Job, commit_action, ping_action, Promise, Query, at_query, empty_table, new_async, new_promise,
  lua_l_ref, initial_out,
}
use gluamysql.Database.{get_socket_status, check_status, insert_action, push}
use gluamysql.Machine.{State}
use gluamysql.Library.{submit_job}
use gluamysql.Async.{query_async, start_job, continue_job, store_reply}
use gluamysql.Querying.{advance, store_stage, store_out}
use gluamysql.Tick.{run_tick}
use gluamysql.Tick.Drain.{Asked, AllAnswered, then_next, no_more, now, later, ticks, WorkedOff}
use gluamysql.Tick.Session.{asked_all, asked, asked-WorkedOff}
use gluamysql.Tick.Fails.{working, in_query, rejection}
use gluamysql.Tick.Busy.{resolution}
use gluamysql.Tick.Failing.{run_tick-failing}
use gluamysql.Tests.Demo.{demo, demo-FreshKeys, quiet, idle_db, state_of}

-- The first call is done at its second turn, with an error; the second at once.
abbrev replies : List Reply
replies =
    record { status = 1; out = none }
    ∷ record { status = 0; out = some 1 }
    ∷ record { status = 0; out = some 0 }
    ∷ []

abbrev opened : State (List Reply) ℕ
opened =
    state_of (record (idle_db replies) { reference = key 1 })
      (record { registry = (1, weak_database 1) ∷ []; promises = 0; log = [] })

abbrev jobs : List Job
jobs = commit_action ∷ ping_action ∷ []

-- What the two calls wrote, and the replies left then.
abbrev outs : List (ℕ × List Reply)
outs = (1, record { status = 0; out = some 0 } ∷ []) ∷ (0, []) ∷ []

abbrev made : List Asked
made = asked_all (demo 1 quiet) (demo-FreshKeys 1 quiet) jobs (opened.db, opened.lua)

answered :
    AllAnswered
      (demo 1 quiet)
      made
      opened.db.channel
      3
      outs
      (record { instance = []; socket_state = 0 })
unfolding query_async start_job continue_job store_reply get_socket_status check_status submit_job
    new_async insert_action new_promise lua_l_ref initial_out push
answered =
    then_next _ _ 1 _ _ (later _ _ refl (now _ _ _ _ refl))
      (then_next _ _ 0 _ _ (now _ _ _ _ refl) (no_more _))

asked-WorkedOff_example :
    WorkedOff
      (demo 1 quiet)
      (λ log. refl)
      made
      outs
      []
      (ticks (demo 1 quiet) 3 (asked (demo 1 quiet) (demo-FreshKeys 1 quiet) jobs opened))
unfolding rawgeti entry
asked-WorkedOff_example =
    asked-WorkedOff (demo 1 quiet) (λ log. refl) (demo-FreshKeys 1 quiet) jobs opened 1 refl refl
      refl (refl, (refl, tt)) answered

-- A query at work whose next reply reports a failure.
abbrev failing : Query
failing = record {
  stage = at_query;
  started = false;
  out = 0;
  text = [];
  results = 0;
  row = 0;
  data_reference = key 4;
  has_retried = false;
}

abbrev its_promise : Promise
its_promise = record { resolve = key 1; reject = key 2; promise = key 3 }

abbrev at_failing : State (List Reply) ℕ
at_failing = state_of (idle_db (record { status = 0; out = some 1 } ∷ [])) (record {
  registry =
      (1, resolver 0) ∷ (2, rejecter 0) ∷ (3, promise_object 0) ∷ (4, table empty_table) ∷ [];
  promises = 1;
  log = [];
})

run_tick-failing_example :
    (t : ResultTable ℕ) × ((run_tick
        (demo 1 quiet)
        (working its_promise failing at_failing)).1.lua.log
      ≡ resolution (demo 1 quiet) (λ log. refl) 0 [] t
        ∷ rejection (demo 1 quiet) (λ log. refl) 0 []
        ∷ [])
    × ((run_tick (demo 1 quiet) (working its_promise failing at_failing)).1.db.current_action
        ≡ none)
unfolding advance store_stage store_out rawgeti entry check_status get_socket_status
run_tick-failing_example =
    run_tick-failing (demo 1 quiet) (λ log. refl) its_promise failing 0 at_failing refl
      (in_query refl refl)
      (record { resolves = refl; rejects = refl; rows = empty_table; gathers = refl })
