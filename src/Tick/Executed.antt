-- ===== src/Tick/Executed.antt =====
-- A prepared statement over its ticks: in the end its promise is resolved with the rows that its thread
-- fetched.
use gluamysql.Base.{
  ℕ, suc, ◌≡◌, refl, sym, subst, ◌∙◌, true, false, some, List, [], ◌++◌, append_assoc, append-nil,
  ◌==◌,
}
use gluamysql.Row.{Row}
use gluamysql.Lua.{Lua, ResultTable, table, resolver, rawgeti}
use gluamysql.Host.{Host}
use gluamysql.Action.{
  Promise, Exec, executing, at_execute, at_rows, at_free_results, at_free_statement,
}
use gluamysql.Database.{Channel}
use gluamysql.Machine.{State, done}
use gluamysql.Machine.Quiet.{Quiet}
use gluamysql.Executing.{no_data, finish_exec_stage, advance_exec}
use gluamysql.Executing.Reference.{advance_exec-reference}
use gluamysql.Tick.{run_tick}
use gluamysql.Tick.Serving.{on_channel}
use gluamysql.Tick.Drain.{ticks}
use gluamysql.Tick.Busy.{
  run_tick-at_work, finish-executing, Gathered, run_tick-over, after_tick, last_tick,
}
use gluamysql.Tick.Executes.{
  running, Convert, append_results-Appended, asked, query-run_exec, run_exec-waits,
  run_exec-conclude, conclude_exec-started, finish_exec_stage-has_rows, finish_exec_stage-no_rows,
  finish_exec_stage-rows, finish_exec_stage-results_freed, finish_exec_stage-statement_freed,
}

module _ {C N : Type 0} (h : Host C N) where
  -- What the client and the threads do for a statement that succeeds: in each tick the statement at
  -- the start and the channel then, the ticks left, the rows still to come, and the handle when all
  -- is over.
  pub data Succeeds : Exec → Channel C → ℕ → List (Row N) → C → Type 0 where
    waits :
        (x : Exec) (ch : Channel C) {y : Exec} {d : Channel C} {k : ℕ} {rows : List (Row N)} {c : C}
        → advance_exec h x ch ≡ some (y, d)
        → (d.socket_state == 0) ≡ false
        → Succeeds y d k rows c
        → Succeeds x ch (suc k) rows c
    has_rows :
        (x : Exec) (ch : Channel C) {y : Exec} {d : Channel C} {k : ℕ} {rows : List (Row N)} {c : C}
        → advance_exec h x ch ≡ some (y, d)
        → (d.socket_state == 0) ≡ true
        → y.stage ≡ at_execute
        → (y.out == 0) ≡ true
        → ((h.stmt_result_metadata y.stmt d.instance).0 == 0) ≡ false
        → Succeeds
            (record y { in_thread = false; stage = at_rows; started = false })
            (asked h y d)
            k
            rows
            c
        → Succeeds x ch (suc k) rows c
    rows_fetched :
        (x : Exec) (ch : Channel C) {y : Exec} {d : Channel C} {k : ℕ} {rows more : List (Row N)}
        {c : C}
        → advance_exec h x ch ≡ some (y, d)
        → (d.socket_state == 0) ≡ true
        → y.stage ≡ at_rows
        → y.out ≡ no_data
        → Convert h d.instance y.resultdata rows
        → Succeeds
            (record y { in_thread = false; stage = at_free_results; started = false })
            d
            k
            more
            c
        → Succeeds x ch (suc k) (rows ++ more) c
    results_freed :
        (x : Exec) (ch : Channel C) {y : Exec} {d : Channel C} {k : ℕ} {rows : List (Row N)} {c : C}
        → advance_exec h x ch ≡ some (y, d)
        → (d.socket_state == 0) ≡ true
        → y.stage ≡ at_free_results
        → Succeeds (record y { stage = at_free_statement; started = false }) d k rows c
        → Succeeds x ch (suc k) rows c
    statement_freed :
        (x : Exec) (ch : Channel C) {y : Exec} {d : Channel C}
        → advance_exec h x ch ≡ some (y, d)
        → (d.socket_state == 0) ≡ true
        → y.stage ≡ at_free_statement
        → Succeeds x ch 1 [] d.instance
    no_rows :
        (x : Exec) (ch : Channel C) {y : Exec} {d : Channel C}
        → advance_exec h x ch ≡ some (y, d)
        → (d.socket_state == 0) ≡ true
        → y.stage ≡ at_execute
        → (y.out == 0) ≡ true
        → ((h.stmt_result_metadata y.stmt d.instance).0 == 0) ≡ true
        → Succeeds x ch 1 [] (asked h y d).instance

  pub run_tick-waits :
      (p : Promise) (x y : Exec) (s : State C N) (ch d : Channel C)
      → advance_exec h x ch ≡ some (y, d)
      → (d.socket_state == 0) ≡ false
      → run_tick h (running p x (on_channel ch s)) ≡ (done tt, running p y (on_channel d s))
  run_tick-waits p x y s ch d e f =
      run_tick-at_work h p (executing x) (executing y) (on_channel ch s) (on_channel d s) (
        query-run_exec h p x y (on_channel ch s) d e ∙ run_exec-waits h p x y (on_channel ch s) d f)

  pub run_tick-stage :
      (p : Promise) (x y z : Exec) (s t : State C N) (ch d : Channel C)
      → advance_exec h x ch ≡ some (y, d)
      → (d.socket_state == 0) ≡ true
      → finish_exec_stage h p y y.stage (running p y (on_channel d s)) ≡ (done false, running p z t)
      → run_tick h (running p x (on_channel ch s))
        ≡ (done tt, running p (record z { started = false }) t)
  run_tick-stage p x y z s t ch d e f g =
      run_tick-at_work h p (executing x) (executing (record z { started = false }))
        (on_channel ch s) t
        (query-run_exec h p x y (on_channel ch s) d e
          ∙ run_exec-conclude h p x y (on_channel ch s) d f
          ∙ conclude_exec-started h p y z false (on_channel d s) t g)

module _ {C N : Type 0} (h : Host C N) (quiet : Quiet h) where
  pub over :
      (p : Promise) (x y z : Exec) (n : ℕ) (t : ResultTable N) (s u : State C N) (ch d : Channel C)
      → advance_exec h x ch ≡ some (y, d)
      → (d.socket_state == 0) ≡ true
      → finish_exec_stage h p y y.stage (running p y (on_channel d s)) ≡ (done true, running p z u)
      → rawgeti p.resolve u.lua.registry ≡ some (resolver n)
      → rawgeti z.reference u.lua.registry ≡ some (table t)
      → Gathered h quiet n u.db.instance t u (run_tick h (running p x (on_channel ch s)))
  over p x y z n t s u ch d e f g w r =
      let ended : Exec = record z { started = false } in
      run_tick-over h quiet p (executing x) (executing ended) z.reference n t (on_channel ch s) u
        (query-run_exec h p x y (on_channel ch s) d e
          ∙ run_exec-conclude h p x y (on_channel ch s) d f
          ∙ conclude_exec-started h p y z true (on_channel d s) u g)
        (finish-executing h p ended) w r

  pub same_reference :
      (x y : Exec) (ch d : Channel C) (l : Lua N) {t : ResultTable N}
      → advance_exec h x ch ≡ some (y, d)
      → rawgeti x.reference l.registry ≡ some (table t)
      → rawgeti y.reference l.registry ≡ some (table t)
  same_reference x y ch d l {t} e w =
      subst (λ f. rawgeti f l.registry ≡ some (table t)) (sym (advance_exec-reference h x y ch d e))
        w

  -- If the client and the threads of a statement succeed, however long the threads take, then after
  -- that many ticks of a database with the statement at work its promise has been resolved once, with
  -- a table that has the rows that were fetched, in their order, behind those that it had; the action
  -- is freed, and no other is begun. Lua code is quiet.
  pub ticks-Executed :
      (p : Promise) (x : Exec) (n : ℕ) (t : ResultTable N) (s : State C N) {ch : Channel C} {k : ℕ}
      {rows : List (Row N)} {c : C}
      → Succeeds h x ch k rows c
      → rawgeti p.resolve s.lua.registry ≡ some (resolver n)
      → rawgeti x.reference s.lua.registry ≡ some (table t)
      → Gathered h quiet n c
          (record t { rows = t.rows ++ rows })
          s
          (ticks h k (running p x (on_channel ch s)))
  ticks-Executed p x n t s (waits _ ch {y} {d} {k} {rows} {c} e f rest) w z =
      after_tick h quiet k n c (record t { rows = t.rows ++ rows }) s s _ _
        (run_tick-waits h p x y s ch d e f) refl refl
        (ticks-Executed p y n t s rest w (same_reference x y ch d s.lua e z))
  ticks-Executed p x n t s (has_rows _ ch {y} {d} {k} {rows} {c} e f g i j rest) w z =
      after_tick h quiet k n c (record t { rows = t.rows ++ rows }) s s _ _
        (run_tick-stage h p x y _ s (on_channel (asked h y d) s) ch d e f
          (finish_exec_stage-has_rows h p y (on_channel d s) g i j))
        refl refl (ticks-Executed p _ n t s rest w (same_reference x y ch d s.lua e z))
  ticks-Executed p x n t s (rows_fetched _ ch {y} {d} {k} {rows} {more} {c} e f g i j rest) w z =
      let held = same_reference x y ch d s.lua e z in
      let a =
        append_results-Appended h y.reference y.resultdata t rows
          (running p (record y { in_thread = false }) (on_channel d s)) j held in
      let u : State C N = record s { lua = a.left } in
      subst
        (λ l.
          Gathered h quiet n c (record t { rows = l }) s
            (ticks h (suc k) (running p x (on_channel ch s))))
        (append_assoc t.rows rows more)
        (after_tick h quiet k n c (record t { rows = (t.rows ++ rows) ++ more }) s u _ _
          (run_tick-stage h p x y _ s (on_channel d u) ch d e f
            (finish_exec_stage-rows h p y (on_channel d s) a.left g i a.result))
          a.same_log refl
          (ticks-Executed p _ n (record t { rows = t.rows ++ rows }) u rest
            (a.resolves p.resolve n w) a.gathers))
  ticks-Executed p x n t s (results_freed _ ch {y} {d} {k} {rows} {c} e f g rest) w z =
      after_tick h quiet k n c (record t { rows = t.rows ++ rows }) s s _ _
        (run_tick-stage h p x y _ s (on_channel d s) ch d e f
          (finish_exec_stage-results_freed h p y (on_channel d s) g))
        refl refl (ticks-Executed p _ n t s rest w (same_reference x y ch d s.lua e z))
  ticks-Executed p x n t s (statement_freed _ ch {y} {d} e f g) w z =
      subst
        (λ l.
          Gathered h quiet n d.instance (record t { rows = l }) s
            (ticks h 1 (running p x (on_channel ch s))))
        (sym (append-nil t.rows))
        (last_tick h quiet n d.instance t s (on_channel d s) _ refl refl (
          over p x y y n t s (on_channel d s) ch d e f
            (finish_exec_stage-statement_freed h p y (on_channel d s) g) w
            (same_reference x y ch d s.lua e z)))
  ticks-Executed p x n t s (no_rows _ ch {y} {d} e f g i j) w z =
      subst
        (λ l.
          Gathered h quiet n (asked h y d).instance (record t { rows = l }) s
            (ticks h 1 (running p x (on_channel ch s))))
        (sym (append-nil t.rows))
        (last_tick h quiet n (asked h y d).instance t s (on_channel (asked h y d) s) _ refl refl (
          over p x y _ n t s (on_channel (asked h y d) s) ch d e f
            (finish_exec_stage-no_rows h p y (on_channel d s) g i j) w
            (same_reference x y ch d s.lua e z)))
