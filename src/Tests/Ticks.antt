-- ===== src/Tests/Ticks.antt =====
-- Ticks of one database.
use gluamysql.Base.{ℕ, none, List, [], ◌∷◌}
use gluamysql.Lua.{key, Lua}
use gluamysql.Host.{Reply}
use gluamysql.Action.{Action, commit_action, ping_action, new_async}
use gluamysql.Machine.{State}
use gluamysql.Tick.{run_tick}
use gluamysql.Tick.Order.{Appended, pending, FifoStep, run_tick-queue, run_tick-FifoStep}
use gluamysql.Tests.Demo.{demo, quiet, empty_lua, idle_db, state_of}

abbrev first : Action × Lua ℕ
first = new_async (demo 0 quiet) commit_action empty_lua

abbrev second : Action × Lua ℕ
second = new_async (demo 0 quiet) ping_action first.1

abbrev suspended : Reply
suspended = record { status = 1; out = none }

-- Two actions wait; the first call will not be done at once.
abbrev busy : State (List Reply) ℕ
busy =
    state_of
      (record (idle_db (suspended ∷ [])) {
        queue = first.0 ∷ second.0 ∷ [];
        queue_reference = key 90;
      })
      second.1

run_tick-queue_example : Appended (second.0 ∷ []) (run_tick (demo 0 quiet) busy).1.db.queue
run_tick-queue_example = run_tick-queue (demo 0 quiet) busy

run_tick-FifoStep_example : FifoStep (first.0.refs ∷ second.0.refs ∷ []) (
    pending
      (run_tick (demo 0 quiet) busy).1.db.current_action
      (run_tick (demo 0 quiet) busy).1.db.queue)
run_tick-FifoStep_example = run_tick-FifoStep (demo 0 quiet) busy
