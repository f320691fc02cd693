-- ===== src/Tick/Stages.antt =====
-- The stages of a query that succeeds, and the ticks in which it stays at work.
use gluamysql.Base.{
  ◌≡◌, refl, ap, ◌∙◌, Bool, true, false, not, ◌&&◌, none, some, [], ◌∷◌, ◌++◌, ◌==◌, if◌then◌else◌,
}
use gluamysql.Row.{Row, push_row}
use gluamysql.Lua.{Ref, ResultTable, table, rawgeti, rawseti}
use gluamysql.Host.{Host}
use gluamysql.Action.{Promise, querying, Query, at_query, at_fetch, at_free}
use gluamysql.Database.{Channel}
use gluamysql.Machine.{State, Outcome, done, pure}
use gluamysql.Machine.Quiet.{bind_done}
use gluamysql.Querying.{
  is_lost, advance, finish_stage, finish_query, have_result, finish_fetch, end_of_rows,
  push_fetched, push_made, append_row, append_to, note_lost, note_query, rewind, rewind_query,
  query_of, after_stage, conclude, run_stage, query_query, store_kind, with_kind,
}
use gluamysql.Tick.{run_tick, query}
use gluamysql.Tick.Serving.{on_channel}
use gluamysql.Tick.Busy.{run_tick-at_work}
use gluamysql.Tick.Fails.{working}

abbrev pub with_table_at : {C N : Type 0} → Ref → ResultTable N → State C N → State C N
with_table_at ref t s = record s {
  lua = record s.lua { registry = rawseti ref (table t) s.lua.registry };
}

module _ {C N : Type 0} (h : Host C N) where
  pub query-run_stage :
      (p : Promise) (q r : Query) (s : State C N) (ch : Channel C)
      → advance h q s.db.channel ≡ (r, ch)
      → query h p (querying q) (working p q s) ≡ run_stage h p (r, ch) (working p q s)
  unfolding query query_query
  query-run_stage p q r s ch e = ap (λ x. run_stage h p x (working p q s)) e

  run_stage-waits :
      (p : Promise) (q r : Query) (s : State C N) (ch : Channel C)
      → (ch.socket_state == 0) ≡ false
      → run_stage h p (r, ch) (working p q s) ≡ (done false, working p r (on_channel ch s))
  unfolding run_stage store_kind with_kind
  run_stage-waits p q r s ch e = rw e refl

  pub run_stage-conclude :
      (p : Promise) (q r : Query) (s : State C N) (ch : Channel C)
      → (ch.socket_state == 0) ≡ true
      → run_stage h p (r, ch) (working p q s) ≡ conclude h p r (working p r (on_channel ch s))
  unfolding run_stage store_kind with_kind
  run_stage-conclude p q r s ch e = rw e refl

  -- The finishing function of the stage wants more.
  conclude-more :
      (p : Promise) (q r : Query) (s t : State C N)
      → finish_stage h p q q.stage (working p q s) ≡ (done false, working p r t)
      → conclude h p q (working p q s) ≡ (done false, working p (record r { started = false }) t)
  unfolding conclude after_stage rewind rewind_query query_of store_kind with_kind
  conclude-more p q r s t e =
      bind_done (finish_stage h p q q.stage) (after_stage h) (working p q s) (working p r t) false e

  not_lost :
      (b c : Bool) (m : State C N → Outcome Bool × State C N) (s : State C N)
      → c ≡ false
      → (if not b && c then m else pure true) s ≡ (done true, s)
  not_lost true c m s e = refl
  not_lost false true m s e = cc
  not_lost false false m s e = refl

  -- It is done, and the connection was not lost.
  pub conclude-over :
      (p : Promise) (q r : Query) (s t : State C N)
      → finish_stage h p q q.stage (working p q s) ≡ (done true, working p r t)
      → is_lost h (h.errno t.db.instance) ≡ false
      → conclude h p q (working p q s) ≡ (done true, working p r t)
  unfolding conclude after_stage note_lost note_query query_of
  conclude-over p q r s t e f =
      bind_done (finish_stage h p q q.stage) (after_stage h) (working p q s) (working p r t) true e
      ∙ not_lost r.has_retried (is_lost h (h.errno t.db.instance)) _ (working p r t) f

  -- The channel after `mysql_use_result`.
  abbrev pub used : Channel C → Channel C
  used ch = record ch { instance = (h.use_result ch.instance).1 }

  pub finish_stage-has_results :
      (p : Promise) (q : Query) (s : State C N)
      → q.stage ≡ at_query
      → (q.out == 0) ≡ true
      → ((h.use_result s.db.instance).0 == 0) ≡ false
      → finish_stage h p q q.stage (working p q s) ≡ (
        done false,
        working p
            (record q { results = (h.use_result s.db.instance).0; stage = at_fetch })
            (on_channel (used s.db.channel) s),
      )
  unfolding finish_stage finish_query have_result store_kind with_kind
  finish_stage-has_results p q s e f g = rw (e, f, g) refl

  pub finish_stage-no_results :
      (p : Promise) (q : Query) (s : State C N)
      → q.stage ≡ at_query
      → (q.out == 0) ≡ true
      → ((h.use_result s.db.instance).0 == 0) ≡ true
      → (h.field_count (used s.db.channel).instance == 0) ≡ true
      → finish_stage h p q q.stage (working p q s)
        ≡ (done true, working p (record q { results = 0 }) (on_channel (used s.db.channel) s))
  unfolding finish_stage finish_query have_result store_kind with_kind
  finish_stage-no_results p q s e f g k = rw (e, f, g, k) refl

  push_made-table :
      (p : Promise) (q : Query) (s : State C N) (row : Row N) (t : ResultTable N)
      → rawgeti q.data_reference s.lua.registry ≡ some (table t)
      → push_made h q (some row) (working p q s) ≡ (
        done false,
        working p q (with_table_at q.data_reference (record t { rows = t.rows ++ row ∷ [] }) s),
      )
  unfolding push_made append_row
  push_made-table p q s row t e =
      bind_done (append_row h q.data_reference row) (λ _. pure false) (working p q s) _ tt
        (rw (e, append_to) refl)

  pub finish_stage-has_row :
      (p : Promise) (q : Query) (s : State C N) (row : Row N) (t : ResultTable N)
      → q.stage ≡ at_fetch
      → (q.row == 0) ≡ false
      → push_row h.numbers (h.fields q.results s.db.instance) (h.cells q.row s.db.instance) none
        ≡ some row
      → rawgeti q.data_reference s.lua.registry ≡ some (table t)
      → finish_stage h p q q.stage (working p q s) ≡ (
        done false,
        working p q (with_table_at q.data_reference (record t { rows = t.rows ++ row ∷ [] }) s),
      )
  unfolding finish_stage finish_fetch push_fetched
  finish_stage-has_row p q s row t e f g k =
      ap (λ st. finish_stage h p q st (working p q s)) e
      ∙ ap (λ b. (if b then end_of_rows h p q else push_fetched h q) (working p q s)) f
      ∙ ap (λ o. push_made h q o (working p q s)) g
      ∙ push_made-table p q s row t k

  pub finish_stage-rows_end :
      (p : Promise) (q : Query) (s : State C N)
      → q.stage ≡ at_fetch
      → (q.row == 0) ≡ true
      → (h.errno s.db.instance == 0) ≡ true
      → finish_stage h p q q.stage (working p q s)
        ≡ (done false, working p (record q { stage = at_free }) s)
  unfolding finish_stage finish_fetch end_of_rows store_kind with_kind
  finish_stage-rows_end p q s e f g = rw (e, f, g) refl

  pub finish_stage-result_freed :
      (p : Promise) (q : Query) (s : State C N)
      → q.stage ≡ at_free
      → finish_stage h p q q.stage (working p q s) ≡ (done true, working p q s)
  unfolding finish_stage
  finish_stage-result_freed p q s e = rw e refl

  -- A tick in which a call is not done, and one in which a stage goes on.
  pub run_tick-waits :
      (p : Promise) (q r : Query) (s : State C N) (ch d : Channel C)
      → advance h q ch ≡ (r, d)
      → (d.socket_state == 0) ≡ false
      → run_tick h (working p q (on_channel ch s)) ≡ (done tt, working p r (on_channel d s))
  run_tick-waits p q r s ch d e f =
      run_tick-at_work h p (querying q) (querying r) (on_channel ch s) (on_channel d s)
        (query-run_stage p q r (on_channel ch s) d e ∙ run_stage-waits p q r (on_channel ch s) d f)

  pub run_tick-stage :
      (p : Promise) (q r r' : Query) (s t : State C N) (ch d : Channel C)
      → advance h q ch ≡ (r, d)
      → (d.socket_state == 0) ≡ true
      → finish_stage h p r r.stage (working p r (on_channel d s)) ≡ (done false, working p r' t)
      → run_tick h (working p q (on_channel ch s))
        ≡ (done tt, working p (record r' { started = false }) t)
  run_tick-stage p q r r' s t ch d e f g =
      run_tick-at_work h p (querying q) (querying (record r' { started = false })) (on_channel ch s)
        t
        (query-run_stage p q r (on_channel ch s) d e
          ∙ run_stage-conclude p q r (on_channel ch s) d f
          ∙ conclude-more p r r' (on_channel d s) t g)
