-- ===== src/Tick/Gathers.antt =====
-- A query over its ticks: the rows that the client fetches come to its table one by one, and in the end its
-- promise is resolved with them.
use gluamysql.Base.{
  ℕ, suc, ◌≡◌, refl, ap, sym, subst, ◌∙◌, true, false, none, some, List, [], ◌∷◌, ◌++◌,
  append_assoc, append-nil, ◌==◌,
}
use gluamysql.Row.{Row, push_row}
use gluamysql.Lua.{Lua, ResultTable, table, resolver, rawgeti}
use gluamysql.Lua.Registry.{rawgeti-rawseti_other, rawgeti-rawseti_same}
use gluamysql.Host.{Host}
use gluamysql.Action.{Promise, querying, Query, at_query, at_fetch, at_free}
use gluamysql.Database.{Channel}
use gluamysql.Machine.{State, done}
use gluamysql.Machine.Quiet.{Quiet}
use gluamysql.Querying.{is_lost, advance, finish_stage}
use gluamysql.Tick.{run_tick}
use gluamysql.Tick.Serving.{on_channel}
use gluamysql.Tick.Drain.{ticks}
use gluamysql.Querying.Reference.{advance-data_reference}
use gluamysql.Tick.Fails.{working}
use gluamysql.Tick.Busy.{
  finish-querying, resolver-ne-table, Gathered, run_tick-over, after_tick, last_tick,
}
use gluamysql.Tick.Stages.{
  with_table_at, used, query-run_stage, run_stage-conclude, conclude-over, finish_stage-has_results,
  finish_stage-no_results, finish_stage-has_row, finish_stage-rows_end, finish_stage-result_freed,
  run_tick-waits, run_tick-stage,
}

module _ {C N : Type 0} (h : Host C N) where
  -- What the client does for a query that succeeds: in each tick the query at the start and the
  -- channel then, the ticks left, the rows still to come, and the handle when all is over.
  pub data Succeeds : Query → Channel C → ℕ → List (Row N) → C → Type 0 where
    waits :
        (q : Query) (ch : Channel C) {r : Query} {d : Channel C} {k : ℕ} {rows : List (Row N)}
        {c : C}
        → advance h q ch ≡ (r, d)
        → (d.socket_state == 0) ≡ false
        → Succeeds r d k rows c
        → Succeeds q ch (suc k) rows c
    has_results :
        (q : Query) (ch : Channel C) {r : Query} {d : Channel C} {k : ℕ} {rows : List (Row N)}
        {c : C}
        → advance h q ch ≡ (r, d)
        → (d.socket_state == 0) ≡ true
        → r.stage ≡ at_query
        → (r.out == 0) ≡ true
        → ((h.use_result d.instance).0 == 0) ≡ false
        → Succeeds
            (record r { results = (h.use_result d.instance).0; stage = at_fetch; started = false })
            (used h d)
            k
            rows
            c
        → Succeeds q ch (suc k) rows c
    has_row :
        (q : Query) (ch : Channel C) {r : Query} {d : Channel C} {k : ℕ} (row : Row N)
        {rows : List (Row N)} {c : C}
        → advance h q ch ≡ (r, d)
        → (d.socket_state == 0) ≡ true
        → r.stage ≡ at_fetch
        → (r.row == 0) ≡ false
        → push_row h.numbers (h.fields r.results d.instance) (h.cells r.row d.instance) none
          ≡ some row
        → Succeeds (record r { started = false }) d k rows c
        → Succeeds q ch (suc k) (row ∷ rows) c
    rows_end :
        (q : Query) (ch : Channel C) {r : Query} {d : Channel C} {k : ℕ} {rows : List (Row N)}
        {c : C}
        → advance h q ch ≡ (r, d)
        → (d.socket_state == 0) ≡ true
        → r.stage ≡ at_fetch
        → (r.row == 0) ≡ true
        → (h.errno d.instance == 0) ≡ true
        → Succeeds (record r { stage = at_free; started = false }) d k rows c
        → Succeeds q ch (suc k) rows c
    result_freed :
        (q : Query) (ch : Channel C) {r : Query} {d : Channel C}
        → advance h q ch ≡ (r, d)
        → (d.socket_state == 0) ≡ true
        → r.stage ≡ at_free
        → is_lost h (h.errno d.instance) ≡ false
        → Succeeds q ch 1 [] d.instance
    no_results :
        (q : Query) (ch : Channel C) {r : Query} {d : Channel C}
        → advance h q ch ≡ (r, d)
        → (d.socket_state == 0) ≡ true
        → r.stage ≡ at_query
        → (r.out == 0) ≡ true
        → ((h.use_result d.instance).0 == 0) ≡ true
        → (h.field_count (used h d).instance == 0) ≡ true
        → is_lost h (h.errno (used h d).instance) ≡ false
        → Succeeds q ch 1 [] (used h d).instance

module _ {C N : Type 0} (h : Host C N) (quiet : Quiet h) where
  over :
      (p : Promise) (q r r' : Query) (n : ℕ) (t : ResultTable N) (s u : State C N)
      (ch d : Channel C)
      → advance h q ch ≡ (r, d)
      → (d.socket_state == 0) ≡ true
      → finish_stage h p r r.stage (working p r (on_channel d s)) ≡ (done true, working p r' u)
      → is_lost h (h.errno u.db.instance) ≡ false
      → rawgeti p.resolve u.lua.registry ≡ some (resolver n)
      → rawgeti r'.data_reference u.lua.registry ≡ some (table t)
      → Gathered h quiet n u.db.instance t u (run_tick h (working p q (on_channel ch s)))
  over p q r r' n t s u ch d e f g k w z =
      run_tick-over h quiet p (querying q) (querying r') r'.data_reference n t (on_channel ch s) u
        (query-run_stage h p q r (on_channel ch s) d e
          ∙ run_stage-conclude h p q r (on_channel ch s) d f
          ∙ conclude-over h p r r' (on_channel d s) u g k)
        (finish-querying h p r') w z

  same_reference :
      (q r : Query) (ch d : Channel C) (l : Lua N) {t : ResultTable N}
      → advance h q ch ≡ (r, d)
      → rawgeti q.data_reference l.registry ≡ some (table t)
      → rawgeti r.data_reference l.registry ≡ some (table t)
  same_reference q r ch d l {t} e w =
      subst (λ f. rawgeti f l.registry ≡ some (table t))
        (sym (sym (ap (λ x. x.0.data_reference) e) ∙ advance-data_reference h q ch)) w

  -- If the client answers a query with rows, however often it wants to be asked again meanwhile, then
  -- after that many ticks of a database with the query at work its promise has been resolved once,
  -- with a table that has these rows, in their order, behind those that it had; the action is freed,
  -- and no other is begun. Lua code is quiet, and the connection was not lost at the end.
  pub ticks-Gathered :
      (p : Promise) (q : Query) (n : ℕ) (t : ResultTable N) (s : State C N) {ch : Channel C} {k : ℕ}
      {rows : List (Row N)} {c : C}
      → Succeeds h q ch k rows c
      → rawgeti p.resolve s.lua.registry ≡ some (resolver n)
      → rawgeti q.data_reference s.lua.registry ≡ some (table t)
      → Gathered h quiet n c
          (record t { rows = t.rows ++ rows })
          s
          (ticks h k (working p q (on_channel ch s)))
  ticks-Gathered p q n t s (waits _ ch {r} {d} {k} {rows} {c} e f rest) w z =
      after_tick h quiet k n c (record t { rows = t.rows ++ rows }) s s _ _
        (run_tick-waits h p q r s ch d e f) refl refl
        (ticks-Gathered p r n t s rest w (same_reference q r ch d s.lua e z))
  ticks-Gathered p q n t s (has_results _ ch {r} {d} {k} {rows} {c} e f g i j rest) w z =
      after_tick h quiet k n c (record t { rows = t.rows ++ rows }) s s _ _
        (run_tick-stage h p q r _ s (on_channel (used h d) s) ch d e f
          (finish_stage-has_results h p r (on_channel d s) g i j))
        refl refl (ticks-Gathered p _ n t s rest w (same_reference q r ch d s.lua e z))
  ticks-Gathered p q n t s (has_row _ ch {r} {d} {k} row {rows} {c} e f g i j rest) w z =
      let held = same_reference q r ch d s.lua e z in
      let longer : ResultTable N = record t { rows = t.rows ++ row ∷ [] } in
      let u : State C N = with_table_at r.data_reference longer s in
      subst
        (λ l.
          Gathered h quiet n c (record t { rows = l }) s
            (ticks h (suc k) (working p q (on_channel ch s))))
        (append_assoc t.rows (row ∷ []) rows)
        (after_tick h quiet k n c (record t { rows = (t.rows ++ row ∷ []) ++ rows }) s u _ _
          (run_tick-stage h p q r r s (with_table_at r.data_reference longer (on_channel d s)) ch d
            e f (finish_stage-has_row h p r (on_channel d s) row t g i j held))
          refl refl
          (ticks-Gathered p (record r { started = false }) n longer u rest
            (rawgeti-rawseti_other p.resolve r.data_reference _ s.lua.registry w held
              (resolver-ne-table n t))
            (rawgeti-rawseti_same r.data_reference _ s.lua.registry held)))
  ticks-Gathered p q n t s (rows_end _ ch {r} {d} {k} {rows} {c} e f g i j rest) w z =
      after_tick h quiet k n c (record t { rows = t.rows ++ rows }) s s _ _
        (run_tick-stage h p q r _ s (on_channel d s) ch d e f
          (finish_stage-rows_end h p r (on_channel d s) g i j))
        refl refl (ticks-Gathered p _ n t s rest w (same_reference q r ch d s.lua e z))
  ticks-Gathered p q n t s (result_freed _ ch {r} {d} e f g i) w z =
      subst
        (λ l.
          Gathered h quiet n d.instance (record t { rows = l }) s
            (ticks h 1 (working p q (on_channel ch s))))
        (sym (append-nil t.rows))
        (last_tick h quiet n d.instance t s (on_channel d s) _ refl refl (
          over p q r r n t s (on_channel d s) ch d e f
            (finish_stage-result_freed h p r (on_channel d s) g) i w
            (same_reference q r ch d s.lua e z)))
  ticks-Gathered p q n t s (no_results _ ch {r} {d} e f g i j m o) w z =
      subst
        (λ l.
          Gathered h quiet n (used h d).instance (record t { rows = l }) s
            (ticks h 1 (working p q (on_channel ch s))))
        (sym (append-nil t.rows))
        (last_tick h quiet n (used h d).instance t s (on_channel (used h d) s) _ refl refl (
          over p q r _ n t s (on_channel (used h d) s) ch d e f
            (finish_stage-no_results h p r (on_channel d s) g i j m) o w
            (same_reference q r ch d s.lua e z)))
