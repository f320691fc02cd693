-- ===== src/Tick/Refused.antt =====
-- A prepared statement over its ticks when its execution or the fetching of its rows fails: what its
-- promise is told.
use gluamysql.Base.{
  ℕ, suc, ◌≡◌, refl, ap, subst, append-nil, ◌∙◌, true, false, some, [], ◌==◌, if◌then◌else◌,
  Bool-cases, inl, inr,
}
use gluamysql.Lua.{Args, Event, with_error, rejecter, rawgeti}
use gluamysql.Host.{Host}
use gluamysql.Action.{Promise, Exec, at_execute, at_rows, at_free_results}
use gluamysql.Database.{Channel}
use gluamysql.Machine.{State, done, ◌>>◌, pure}
use gluamysql.Machine.Quiet.{bind_done, Quiet, logged, lua_call-rejecter_quiet}
use gluamysql.Async.{reject}
use gluamysql.Querying.{store_kind, with_kind}
use gluamysql.Executing.{
  no_data, data_truncated, truncated_message, reject_stmt, store_exec, executed, execute_finish,
  fetch_outcome, fetch_finish, finish_exec_stage, advance_exec,
}
use gluamysql.Tick.Serving.{on_channel}
use gluamysql.Tick.Drain.{ticks}
use gluamysql.Tick.Busy.{Gathered, after_tick, last_tick}
use gluamysql.Tick.Fails.{IsHeld}
use gluamysql.Tick.Executes.{running, asked, finish_exec_stage-has_rows}
use gluamysql.Tick.Executed.{
  Succeeds, run_tick-waits, run_tick-stage, over, same_reference, ticks-Executed,
}

module _ {C N : Type 0} (h : Host C N) where
  -- What the promise is told of a statement at the stage of its execution, and at that of its rows.
  abbrev pub execution_error : Exec → C → Args N
  execution_error x c = with_error (h.stmt_error x.stmt c) (h.errno c)

  abbrev pub rows_error : Exec → C → Args N
  rows_error x c =
      if x.out == data_truncated
      then with_error truncated_message (h.errno c)
      else with_error (h.stmt_error x.stmt c) (h.errno c)

  -- What the client and the threads do for a statement that fails, as in `Succeeds`; the error comes
  -- last. Where fetching fails, its results and the statement's are freed as after a success.
  pub data Refuses : Exec → Channel C → ℕ → Args N → C → Type 0 where
    waits :
        (x : Exec) (ch : Channel C) {y : Exec} {d : Channel C} {k : ℕ} {e : Args N} {c : C}
        → advance_exec h x ch ≡ some (y, d)
        → (d.socket_state == 0) ≡ false
        → Refuses y d k e c
        → Refuses x ch (suc k) e c
    has_rows :
        (x : Exec) (ch : Channel C) {y : Exec} {d : Channel C} {k : ℕ} {e : Args N} {c : C}
        → advance_exec h x ch ≡ some (y, d)
        → (d.socket_state == 0) ≡ true
        → y.stage ≡ at_execute
        → (y.out == 0) ≡ true
        → ((h.stmt_result_metadata y.stmt d.instance).0 == 0) ≡ false
        → Refuses
            (record y { in_thread = false; stage = at_rows; started = false })
            (asked h y d)
            k
            e
            c
        → Refuses x ch (suc k) e c
    not_executed :
        (x : Exec) (ch : Channel C) {y : Exec} {d : Channel C}
        → advance_exec h x ch ≡ some (y, d)
        → (d.socket_state == 0) ≡ true
        → y.stage ≡ at_execute
        → (y.out == 0) ≡ false
        → Refuses x ch 1 (execution_error y d.instance) d.instance
    not_fetched :
        (x : Exec) (ch : Channel C) {y : Exec} {d : Channel C} {k : ℕ} {c : C}
        → advance_exec h x ch ≡ some (y, d)
        → (d.socket_state == 0) ≡ true
        → y.stage ≡ at_rows
        → (y.out == no_data) ≡ false
        → Succeeds h
            (record y { in_thread = false; stage = at_free_results; started = false })
            d
            k
            []
            c
        → Refuses x ch (suc k) (rows_error y d.instance) c

abbrev pub refusal : {N : Type 0} → ℕ → Args N → Event N
refusal n e = record { promise = n; success = false; args = e }

module _ {C N : Type 0} (h : Host C N) (quiet : Quiet h) where
  reject_stmt_quiet :
      (p : Promise) (x : Exec) (n : ℕ) (s : State C N)
      → rawgeti p.reject s.lua.registry ≡ some (rejecter n)
      → reject_stmt h p x s ≡ (done tt, logged (refusal n (execution_error h x s.db.instance)) s)
  unfolding reject_stmt reject
  reject_stmt_quiet p x n s e = lua_call-rejecter_quiet h quiet p.reject _ s n e

  not_executed_stage :
      (p : Promise) (x : Exec) (n : ℕ) (s : State C N)
      → x.stage ≡ at_execute
      → (x.out == 0) ≡ false
      → rawgeti p.reject s.lua.registry ≡ some (rejecter n)
      → finish_exec_stage h p x x.stage (running p x s) ≡ (
        done true,
        running p
            (record x { in_thread = false })
            (logged (refusal n (execution_error h x s.db.instance)) s),
      )
  unfolding finish_exec_stage execute_finish executed store_kind with_kind
  not_executed_stage p x n s e f r =
      ap (λ st. finish_exec_stage h p x st (running p x s)) e
      ∙ rw f (
          bind_done (reject_stmt h p (record x { in_thread = false })) (λ _. pure true)
            (running p (record x { in_thread = false }) s) _ tt
            (reject_stmt_quiet p (record x { in_thread = false }) n _ r))

  rows_refused :
      (p : Promise) (x : Exec) (n : ℕ) (s : State C N)
      → (x.out == no_data) ≡ false
      → rawgeti p.reject s.lua.registry ≡ some (rejecter n)
      → fetch_outcome h p x s ≡ (done tt, logged (refusal n (rows_error h x s.db.instance)) s)
  unfolding fetch_outcome reject
  rows_refused p x n s f r = elim (Bool-cases (x.out == data_truncated)) [
    | inl e ↦ rw e (lua_call-rejecter_quiet h quiet p.reject _ s n r)
    | inr e ↦ rw (e, f) (reject_stmt_quiet p x n s r)
  ]

  not_fetched_stage :
      (p : Promise) (x : Exec) (n : ℕ) (s : State C N)
      → x.stage ≡ at_rows
      → (x.out == no_data) ≡ false
      → rawgeti p.reject s.lua.registry ≡ some (rejecter n)
      → finish_exec_stage h p x x.stage (running p x s) ≡ (
        done false,
        running p
            (record x { in_thread = false; stage = at_free_results })
            (logged (refusal n (rows_error h x s.db.instance)) s),
      )
  unfolding finish_exec_stage fetch_finish store_kind with_kind
  not_fetched_stage p x n s e f r =
      ap (λ st. finish_exec_stage h p x st (running p x s)) e
      ∙ bind_done (fetch_outcome h p x)
          (λ _. do
            store_exec h (record x { in_thread = false; stage = at_free_results })
            pure false)
          (running p (record x { in_thread = false }) s) _ tt
          (rows_refused p x n (running p (record x { in_thread = false }) s) f r)

  -- If binding or executing a statement fails, or fetching its rows does, however long its threads
  -- take, then after that many ticks of a database with the statement at work Lua code has been called
  -- twice: the promise was rejected with the error, and after that resolved, with the table that was
  -- there before, of which only the counts are changed; the action is freed. Lua code is quiet, and
  -- the registry holds the functions of the promise and the table.
  pub ticks-Refused :
      (p : Promise) (x : Exec) (n : ℕ) (s : State C N) {ch : Channel C} {k : ℕ} {e : Args N} {c : C}
      → Refuses h x ch k e c
      → (w : IsHeld n p x.reference s)
      → Gathered h quiet n c w.rows
          (logged (refusal n e) s)
          (ticks h k (running p x (on_channel ch s)))
  ticks-Refused p x n s (waits _ ch {y} {d} {k} {e} {c} a f rest) w =
      let z = same_reference h quiet x y ch d s.lua a w.gathers in
      let t : State C N = logged (refusal n e) s in
      after_tick h quiet k n c w.rows t t _ _ (run_tick-waits h p x y s ch d a f) refl refl (
        ticks-Refused p y n s rest
          (record { resolves = w.resolves; rejects = w.rejects; rows = w.rows; gathers = z }))
  ticks-Refused p x n s (has_rows _ ch {y} {d} {k} {e} {c} a f g i j rest) w =
      let z = same_reference h quiet x y ch d s.lua a w.gathers in
      let t : State C N = logged (refusal n e) s in
      after_tick h quiet k n c w.rows t t _ _
        (run_tick-stage h p x y _ s (on_channel (asked h y d) s) ch d a f
          (finish_exec_stage-has_rows h p y (on_channel d s) g i j))
        refl refl
        (ticks-Refused p _ n s rest
          (record { resolves = w.resolves; rejects = w.rejects; rows = w.rows; gathers = z }))
  ticks-Refused p x n s (not_executed _ ch {y} {d} a f g i) w =
      let t : State C N = logged (refusal n (execution_error h y d.instance)) s in
      last_tick h quiet n d.instance w.rows t (on_channel d t) _ refl refl (
        over h quiet p x y _ n w.rows s (on_channel d t) ch d a f
          (not_executed_stage p y n (on_channel d s) g i w.rejects) w.resolves
          (same_reference h quiet x y ch d s.lua a w.gathers))
  ticks-Refused p x n s (not_fetched _ ch {y} {d} {k} {c} a f g i rest) w =
      let t : State C N = logged (refusal n (rows_error h y d.instance)) s in
      after_tick h quiet k n c w.rows t t _ _
        (run_tick-stage h p x y _ s (on_channel d t) ch d a f
          (not_fetched_stage p y n (on_channel d s) g i w.rejects))
        refl refl
        (subst
          (λ l.
            Gathered h quiet n c (record w.rows { rows = l }) t
              (ticks h k (
                running p (record y { in_thread = false; stage = at_free_results; started = false })
                  (on_channel d t))))
          (append-nil w.rows.rows)
          (ticks-Executed h quiet p _ n w.rows t rest w.resolves
            (same_reference h quiet x y ch d s.lua a w.gathers)))
