-- ===== src/Tick/Unasked.antt =====
-- How a prepared statement whose rows have been freed comes to free itself: without the
-- test that the socket is ready.
use gluamysql.Base.{ℕ, zero, suc, ◌≡◌, refl, ap, ◌∙◌, true, false, some, ◌==◌}
use gluamysql.Host.{Host, Reply, stmt_free_result}
use gluamysql.Action.{Promise, Exec, at_free_results, at_free_statement, no_thread}
use gluamysql.Database.{Channel, get_socket_status}
use gluamysql.Machine.{State, done}
use gluamysql.Machine.Quiet.{bind_done}
use gluamysql.Executing.{
  run_worker, worker_step, and_then, looked, placed, watch, start_stage, continue_stage,
  advance_exec,
}
use gluamysql.Tick.{run_tick}
use gluamysql.Tick.Serving.{on_channel}
use gluamysql.Tick.Drain.{ticks}
use gluamysql.Tick.Executes.{running, finish_exec_stage-results_freed}
use gluamysql.Tick.Executed.{run_tick-waits, run_tick-stage}

-- A statement when the thread that freed the results of its rows is over; then when its own results
-- are to be freed, and when that has begun.
abbrev pub rows_freed : Exec → Exec
rows_freed x = record x {
  stage = at_free_results;
  started = true;
  in_thread = true;
  thread_finished = true;
  worker = no_thread;
}

abbrev to_free : Exec → Exec
to_free x = record (rows_freed x) { stage = at_free_statement; started = false }

abbrev pub freeing_itself : Exec → Exec
freeing_itself x = record (rows_freed x) { stage = at_free_statement }

module _ {C N : Type 0} (h : Host C N) where
  abbrev replied : Reply × C → Channel C
  replied (reply, c) = record { instance = c; socket_state = reply.status }

  -- The free of the statement is begun, and gone on with; no test of what the client waits for.
  abbrev pub free_begun : ℕ → Channel C → Channel C
  free_begun stmt ch = replied (h.start (stmt_free_result stmt) (get_socket_status h ch).instance)

  abbrev pub free_goes_on : ℕ → Channel C → Channel C
  free_goes_on stmt ch =
      let d = get_socket_status h ch in
      replied (h.cont (stmt_free_result stmt) d.socket_state d.instance)

  -- The client wants to be asked again that many times.
  pub data Wanting (stmt : ℕ) : Channel C → ℕ → Channel C → Type 0 where
    asked : (ch : Channel C) → Wanting stmt ch zero ch
    asks :
        (ch : Channel C) {k : ℕ} {last : Channel C}
        → ((free_goes_on stmt ch).socket_state == 0) ≡ false
        → Wanting stmt (free_goes_on stmt ch) k last
        → Wanting stmt ch (suc k) last

  run_worker-no_thread :
      (n : ℕ) (x : Exec) (c : C)
      → run_worker h n (record x { worker = no_thread }) c
        ≡ some (record x { worker = no_thread }, c)
  unfolding run_worker worker_step
  run_worker-no_thread zero x c = refl
  run_worker-no_thread (suc n) x c = run_worker-no_thread n x c

  -- The state of the connection when the code has looked at the thread.
  abbrev pub looked_at : Channel C → Channel C
  looked_at ch = record (get_socket_status h ch) { socket_state = 0 }

  advance-rows_freed :
      (x : Exec) (ch : Channel C)
      → advance_exec h (rows_freed x) ch ≡ some (rows_freed x, looked_at ch)
  unfolding advance_exec continue_stage watch
  advance-rows_freed x ch =
      let d = get_socket_status h ch in
      ap (λ o. placed h (and_then h (looked h) o))
        (run_worker-no_thread (h.thread_steps d.instance) (rows_freed x) d.instance)

  advance-to_free :
      (x : Exec) (ch : Channel C)
      → advance_exec h (to_free x) ch ≡ some (freeing_itself x, free_begun x.stmt ch)
  unfolding advance_exec start_stage
  advance-to_free x ch = refl

  advance-freeing :
      (x : Exec) (ch : Channel C)
      → advance_exec h (freeing_itself x) ch ≡ some (freeing_itself x, free_goes_on x.stmt ch)
  unfolding advance_exec continue_stage
  advance-freeing x ch = refl

  ticks-freeing :
      (p : Promise) (x : Exec) (s : State C N) (ch : Channel C) (k : ℕ) (last : Channel C)
      → Wanting x.stmt ch k last
      → ticks h k (running p (freeing_itself x) (on_channel ch s))
        ≡ (done tt, running p (freeing_itself x) (on_channel last s))
  ticks-freeing p x s ch zero last (asked _) = refl
  ticks-freeing p x s ch (suc k) last (asks _ e w) =
      bind_done (run_tick h) (λ _. ticks h k) _ _ tt
        (run_tick-waits h p (freeing_itself x) (freeing_itself x) s ch (free_goes_on x.stmt ch)
          (advance-freeing x ch) e)
      ∙ ticks-freeing p x s (free_goes_on x.stmt ch) k last w

  -- When the thread that freed the results of a statement's rows is over, the next tick goes on to
  -- the statement, and the one after that begins to free the statement's own results. As long as the
  -- client wants to be asked again, whatever it waits for, each tick after that calls it once more:
  -- the test of `CheckStatus`, which holds a call back until the socket is ready, is not made, though
  -- `poll` is asked what to tell the client.
  pub ticks-unasked :
      (p : Promise) (x : Exec) (s : State C N) (ch : Channel C) (k : ℕ) (last : Channel C)
      → ((free_begun x.stmt (looked_at ch)).socket_state == 0) ≡ false
      → Wanting x.stmt (free_begun x.stmt (looked_at ch)) k last
      → ticks h (suc (suc k)) (running p (rows_freed x) (on_channel ch s))
        ≡ (done tt, running p (freeing_itself x) (on_channel last s))
  ticks-unasked p x s ch k last e w =
      let begun = free_begun x.stmt (looked_at ch) in
      bind_done (run_tick h) (λ _. ticks h (suc k)) _
        (running p (to_free x) (on_channel (looked_at ch) s)) tt
        (run_tick-stage h p (rows_freed x) (rows_freed x) _ s (on_channel (looked_at ch) s) ch
          (looked_at ch) (advance-rows_freed x ch) refl
          (finish_exec_stage-results_freed h p (rows_freed x) (on_channel (looked_at ch) s) refl))
      ∙ bind_done (run_tick h) (λ _. ticks h k) _
          (running p (freeing_itself x) (on_channel begun s)) tt
          (run_tick-waits h p (to_free x) (freeing_itself x) s (looked_at ch) begun
            (advance-to_free x (looked_at ch)) e)
      ∙ ticks-freeing p x s begun k last w
