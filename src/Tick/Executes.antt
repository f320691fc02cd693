-- ===== src/Tick/Executes.antt =====
-- The stages of a prepared statement that is executed with success, and the ticks in which it stays at
-- work.
use gluamysql.Base.{
  ℕ, ◌≡◌, refl, ap, sym, subst, ◌∙◌, Bool, true, false, some, List, [], ◌∷◌, ◌++◌, append_assoc,
  append-nil, ◌==◌, if◌then◌else◌,
}
use gluamysql.Row.{Row, push_row}
use gluamysql.Lua.{Ref, Lua, ResultTable, table, resolver, rawgeti}
use gluamysql.Lua.Registry.{rawgeti-rawseti_other, rawgeti-rawseti_same}
use gluamysql.Host.{Host}
use gluamysql.Action.{
  Promise, Exec, executing, ResultData, at_execute, at_rows, at_free_results, at_free_statement,
}
use gluamysql.Database.{Channel}
use gluamysql.Machine.{State, Outcome, done, ◌>>◌, pure}
use gluamysql.Machine.Quiet.{bind_done}
use gluamysql.Async.{reject}
use gluamysql.Querying.{append_row, append_to, store_kind, with_kind}
use gluamysql.Executing.{
  no_data, data_truncated, truncated_message, reject_stmt, store_exec, exec_of, have_metadata,
  executed, execute_finish, append_made, append_result, append_results, fetch_outcome, fetch_finish,
  finish_exec_stage, rewind_of, rewind_exec, end_stage, conclude_exec, run_exec, query_exec,
  advance_exec,
}
use gluamysql.Tick.{query}
use gluamysql.Tick.Busy.{resolver-ne-table, at_work}
use gluamysql.Tick.Serving.{on_channel}
use gluamysql.Tick.Stages.{with_table_at}

abbrev pub running : {C N : Type 0} → Promise → Exec → State C N → State C N
running p x s = at_work p (executing x) s

module _ {C N : Type 0} (h : Host C N) where
  -- What was fetched makes these rows.
  pub data Convert (c : C) : List ResultData → List (Row N) → Type 0 where
    no_more : Convert c [] []
    converts :
        {d : ResultData} {row : Row N} {ds : List ResultData} {rows : List (Row N)}
        → push_row h.numbers (h.fields d.results c) d.row (some d.is_nulls) ≡ some row
        → Convert c ds rows
        → Convert c (d ∷ ds) (row ∷ rows)

  -- The rows have come to the table.
  pub record Appended (ref : Ref) (ds : List ResultData) (t : ResultTable N) (rows : List (Row N))
      (s : State C N) : Type 0 where
    pub left : Lua N
    pub result : append_results h ref ds s ≡ (done tt, record s { lua = left })
    pub same_log : left.log ≡ s.lua.log
    pub gathers : rawgeti ref left.registry ≡ some (table (record t { rows = t.rows ++ rows }))
    pub resolves :
        (f : Ref) (n : ℕ)
        → rawgeti f s.lua.registry ≡ some (resolver n)
        → rawgeti f left.registry ≡ some (resolver n)

  append_result-table :
      (ref : Ref) (d : ResultData) (row : Row N) (t : ResultTable N) (s : State C N)
      → push_row h.numbers (h.fields d.results s.db.instance) d.row (some d.is_nulls) ≡ some row
      → rawgeti ref s.lua.registry ≡ some (table t)
      → append_result h ref d s
        ≡ (done tt, with_table_at ref (record t { rows = t.rows ++ row ∷ [] }) s)
  unfolding append_result append_made append_row append_to
  append_result-table ref d row t s e g =
      ap (λ o. append_made h ref o s) e ∙ ap (λ o. append_to h ref row o s) g

  pub append_results-Appended :
      (ref : Ref) (ds : List ResultData) (t : ResultTable N) (rows : List (Row N)) (s : State C N)
      → Convert s.db.instance ds rows
      → rawgeti ref s.lua.registry ≡ some (table t)
      → Appended ref ds t rows s
  unfolding append_results
  append_results-Appended ref [] t [] s no_more g = record {
    left = s.lua;
    result = refl;
    same_log = refl;
    gathers =
        subst (λ l. rawgeti ref s.lua.registry ≡ some (table (record t { rows = l })))
          (sym (append-nil t.rows)) g;
    resolves = λ f n e. e;
  }
  append_results-Appended ref [] t (row ∷ rows) s w g = elim w [ ]
  append_results-Appended ref (d ∷ ds) t [] s w g = elim w [ ]
  append_results-Appended ref (d ∷ ds) t (row ∷ rows) s (converts e rest) g =
      let longer : ResultTable N = record t { rows = t.rows ++ row ∷ [] } in
      let u : State C N = with_table_at ref longer s in
      let x =
        append_results-Appended ref ds longer rows u rest
          (rawgeti-rawseti_same ref _ s.lua.registry g) in
      record {
        left = x.left;
        result =
            bind_done (append_result h ref d) (λ _. append_results h ref ds) s u tt
              (append_result-table ref d row t s e g)
            ∙ x.result;
        same_log = x.same_log;
        gathers =
            subst (λ l. rawgeti ref x.left.registry ≡ some (table (record t { rows = l })))
              (append_assoc t.rows (row ∷ []) rows) x.gathers;
        resolves = λ f n w.
            x.resolves f n
              (rawgeti-rawseti_other f ref _ s.lua.registry w g (resolver-ne-table n t));
      }

  -- The channel after `mysql_stmt_result_metadata`.
  abbrev pub asked : Exec → Channel C → Channel C
  asked x ch = record ch { instance = (h.stmt_result_metadata x.stmt ch.instance).1 }

  pub query-run_exec :
      (p : Promise) (x y : Exec) (s : State C N) (ch : Channel C)
      → advance_exec h x s.db.channel ≡ some (y, ch)
      → query h p (executing x) (running p x s) ≡ run_exec h p (some (y, ch)) (running p x s)
  unfolding query query_exec
  query-run_exec p x y s ch e = ap (λ o. run_exec h p o (running p x s)) e

  pub run_exec-waits :
      (p : Promise) (x y : Exec) (s : State C N) (ch : Channel C)
      → (ch.socket_state == 0) ≡ false
      → run_exec h p (some (y, ch)) (running p x s) ≡ (done false, running p y (on_channel ch s))
  unfolding run_exec store_kind with_kind
  run_exec-waits p x y s ch e = rw e refl

  pub run_exec-conclude :
      (p : Promise) (x y : Exec) (s : State C N) (ch : Channel C)
      → (ch.socket_state == 0) ≡ true
      → run_exec h p (some (y, ch)) (running p x s)
        ≡ conclude_exec h p y (running p y (on_channel ch s))
  unfolding run_exec store_kind with_kind
  run_exec-conclude p x y s ch e = rw e refl

  pub conclude_exec-started :
      (p : Promise) (x y : Exec) (over : Bool) (s t : State C N)
      → finish_exec_stage h p x x.stage (running p x s) ≡ (done over, running p y t)
      → conclude_exec h p x (running p x s)
        ≡ (done over, running p (record y { started = false }) t)
  unfolding conclude_exec end_stage rewind_exec rewind_of exec_of store_kind with_kind
  conclude_exec-started p x y over s t e =
      bind_done (finish_exec_stage h p x x.stage) (end_stage h) (running p x s) (running p y t) over
        e

  pub finish_exec_stage-has_rows :
      (p : Promise) (x : Exec) (s : State C N)
      → x.stage ≡ at_execute
      → (x.out == 0) ≡ true
      → ((h.stmt_result_metadata x.stmt s.db.instance).0 == 0) ≡ false
      → finish_exec_stage h p x x.stage (running p x s) ≡ (
        done false,
        running p
            (record x { in_thread = false; stage = at_rows })
            (on_channel (asked x s.db.channel) s),
      )
  unfolding finish_exec_stage execute_finish executed have_metadata store_kind with_kind
  finish_exec_stage-has_rows p x s e f g = rw (e, f, g) refl

  pub finish_exec_stage-no_rows :
      (p : Promise) (x : Exec) (s : State C N)
      → x.stage ≡ at_execute
      → (x.out == 0) ≡ true
      → ((h.stmt_result_metadata x.stmt s.db.instance).0 == 0) ≡ true
      → finish_exec_stage h p x x.stage (running p x s) ≡ (
        done true,
        running p (record x { in_thread = false }) (on_channel (asked x s.db.channel) s),
      )
  unfolding finish_exec_stage execute_finish executed have_metadata store_kind with_kind
  finish_exec_stage-no_rows p x s e f g = rw (e, f, g) refl

  pub finish_exec_stage-results_freed :
      (p : Promise) (x : Exec) (s : State C N)
      → x.stage ≡ at_free_results
      → finish_exec_stage h p x x.stage (running p x s)
        ≡ (done false, running p (record x { stage = at_free_statement }) s)
  unfolding finish_exec_stage store_kind with_kind
  finish_exec_stage-results_freed p x s e = rw e refl

  pub finish_exec_stage-statement_freed :
      (p : Promise) (x : Exec) (s : State C N)
      → x.stage ≡ at_free_statement
      → finish_exec_stage h p x x.stage (running p x s) ≡ (done true, running p x s)
  unfolding finish_exec_stage
  finish_exec_stage-statement_freed p x s e = rw e refl

  fetch_outcome-rows :
      (p : Promise) (x : Exec) (s : State C N) {r : Outcome (Unit {0}) × State C N}
      → x.out ≡ no_data
      → append_results h x.reference x.resultdata s ≡ r
      → fetch_outcome h p x s ≡ r
  unfolding fetch_outcome
  fetch_outcome-rows p x s e f =
      ap
        (λ o.
          (if o == data_truncated
              then reject h p (some truncated_message)
              else (if o == no_data
                  then append_results h x.reference x.resultdata
                  else reject_stmt h p x))
            s)
        e
      ∙ f

  pub finish_exec_stage-rows :
      (p : Promise) (x : Exec) (s : State C N) (l : Lua N)
      → x.stage ≡ at_rows
      → x.out ≡ no_data
      → append_results h x.reference x.resultdata (running p (record x { in_thread = false }) s)
        ≡ (done tt, running p (record x { in_thread = false }) (record s { lua = l }))
      → finish_exec_stage h p x x.stage (running p x s) ≡ (
        done false,
        running p (record x { in_thread = false; stage = at_free_results }) (record s { lua = l }),
      )
  unfolding finish_exec_stage fetch_finish store_kind with_kind
  finish_exec_stage-rows p x s l e f g =
      ap (λ st. finish_exec_stage h p x st (running p x s)) e
      ∙ bind_done (fetch_outcome h p x)
          (λ _. do
            store_exec h (record x { in_thread = false; stage = at_free_results })
            pure false)
          (running p (record x { in_thread = false }) s)
          (running p (record x { in_thread = false }) (record s { lua = l })) tt
          (fetch_outcome-rows p x _ f g)
