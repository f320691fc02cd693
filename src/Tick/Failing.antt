-- ===== src/Tick/Failing.antt =====
-- A query that fails: what its promise is told, and what becomes of the action.
use gluamysql.Base.{
  subst, ℕ, ◌≡◌, refl, ap, sym, ◌∙◌, Bool, true, false, none, some, ◌∷◌, arith, ◌==◌, if◌then◌else◌,
}
use gluamysql.Lua.{ResultTable}
use gluamysql.Host.{Host}
use gluamysql.Action.{Action, Promise, querying, Query}
use gluamysql.Database.{Channel}
use gluamysql.Machine.{State, Outcome, done, ◌>>=◌, pure}
use gluamysql.Machine.Quiet.{bind_done, Quiet, logged}
use gluamysql.Querying.{
  advance, finish_stage, after_stage, conclude, run_stage, query_query, store_kind, with_kind,
}
use gluamysql.Tick.Once.{run_tick-unpin, unpin-log, unpin-current_action}
use gluamysql.Tick.{next_of, next_action, run_tick, end_action, work, query}
use gluamysql.Tick.Busy.{finish-querying, resolution, end_at_work}
use gluamysql.Querying.Reference.{advance-data_reference}
use gluamysql.Tick.Fails.{working, Fails, IsHeld, rejection, failing_stage, note_lost-Noted}

module _ {C N : Type 0} (h : Host C N) (quiet : Quiet h) where
  -- Both calls that Lua code sees of a query that failed: first the rejection, then a resolution.
  record Twice (n : ℕ) (c : C) (s : State C N) (x : Outcome Bool × State C N) : Type 0 where
    pub table_seen : ResultTable N
    pub called_twice :
        x.1.lua.log ≡ resolution h quiet n c table_seen ∷ rejection h quiet n c ∷ s.lua.log
    pub freed : x.1.db.current_action ≡ none
    pub returns : x.0 ≡ done true

  concluded :
      (p : Promise) (q : Query) (n : ℕ) (s : State C N)
      → Fails h s.db.instance q
      → IsHeld n p q.data_reference s
      → Twice n s.db.instance s ((do over ← conclude h p q; end_action h over) (working p q s))
  unfolding conclude after_stage
  concluded p q n s f w =
      let rejected : State C N = logged (rejection h quiet n s.db.instance) s in
      let e = failing_stage h quiet p q q.stage n (working p q s) refl f w.rejects in
      let k = note_lost-Noted h quiet p q n rejected (record {
        resolves = w.resolves;
        rejects = w.rejects;
        rows = w.rows;
        gathers = w.gathers;
      }) in
      let both =
        bind_done (finish_stage h p q q.stage) (after_stage h) (working p q s)
          (working p q rejected) true e
        ∙ k.noted in
      let left : State C N = record rejected { lua = k.lua } in
      let x =
        end_at_work h quiet p (querying k.after) k.after.data_reference n k.rows left
          (finish-querying h p k.after) k.resolves (rw k.same_ref k.gathers) in
      subst (λ y. Twice n s.db.instance s y)
        (sym (
          bind_done (conclude h p q) (end_action h) (working p q s) (working p k.after left) true
            both))
        (record {
          table_seen = k.rows;
          called_twice =
              x.called ∙ ap (λ l. resolution h quiet n s.db.instance k.rows ∷ l) k.same_log;
          freed = x.freed;
          returns = x.returns;
        })

  when_done :
      (b : Bool) (p : Promise) (q : Query) (n : ℕ) (c : C) (s t : State C N)
      → b ≡ true
      → Twice n c s ((do over ← conclude h p q; end_action h over) t)
      → Twice n c s ((do over ← (if b then conclude h p q else pure false); end_action h over) t)
  when_done true p q n c s t e x = x
  when_done false p q n c s t e x = cc

  run_stage_failing :
      (p : Promise) (before q : Query) (ch : Channel C) (n : ℕ) (s : State C N)
      → ch.socket_state ≡ 0
      → Fails h ch.instance q
      → IsHeld n p q.data_reference s
      → Twice n ch.instance s
          ((do over ← run_stage h p (q, ch); end_action h over) (working p before s))
  unfolding run_stage store_kind with_kind
  run_stage_failing p before q ch n s z f w =
      let stored : State C N = record s { db = record s.db { channel = ch } } in
      let x = concluded p q n stored f (record {
        resolves = w.resolves;
        rejects = w.rejects;
        rows = w.rows;
        gathers = w.gathers;
      }) in
      when_done (ch.socket_state == 0) p q n ch.instance s (working p q stored) (ground arith)
        (record {
          table_seen = x.table_seen;
          called_twice = x.called_twice;
          freed = x.freed;
          returns = x.returns;
        })

  work_failing :
      (p : Promise) (q : Query) (n : ℕ) (s : State C N)
      → (advance h q s.db.channel).1.socket_state ≡ 0
      → Fails h (advance h q s.db.channel).1.instance (advance h q s.db.channel).0
      → IsHeld n p q.data_reference s
      → Twice n (advance h q s.db.channel).1.instance s (
          work h
            (some (record { refs = p; has_finished = false; kind = querying q }))
            (working p q s))
  unfolding work query query_query
  work_failing p q n s z f w =
      run_stage_failing p q (advance h q s.db.channel).0 (advance h q s.db.channel).1 n s z f
        (record {
          resolves = w.resolves;
          rejects = w.rejects;
          rows = w.rows;
          gathers = rw (advance-data_reference h q s.db.channel) w.gathers;
        })

  next_action-working :
      (p : Promise) (q : Query) (s : State C N)
      → next_action h (working p q s) ≡ (
        done (some (record { refs = p; has_finished = false; kind = querying q })),
        working p q s,
      )
  unfolding next_action next_of
  next_action-working p q s = refl

  -- If Lua code is quiet and the registry holds the functions of the promise and the table of the
  -- rows, then in the tick in which the client reports that a query failed, or that fetching a row
  -- failed, Lua code is called twice: the promise is rejected with the error of the connection, and
  -- after that it is resolved with a table, and the action is freed.
  pub run_tick-failing :
      (p : Promise) (q : Query) (n : ℕ) (s : State C N)
      → (advance h q s.db.channel).1.socket_state ≡ 0
      → Fails h (advance h q s.db.channel).1.instance (advance h q s.db.channel).0
      → IsHeld n p q.data_reference s
      → let c = (advance h q s.db.channel).1.instance in
        (t : ResultTable N) × ((run_tick h (working p q s)).1.lua.log
          ≡ resolution h quiet n c t ∷ rejection h quiet n c ∷ s.lua.log)
        × ((run_tick h (working p q s)).1.db.current_action ≡ none)
  run_tick-failing p q n s z f w =
      let x = work_failing p q n s z f w in
      let a : Action = record { refs = p; has_finished = false; kind = querying q } in
      let t : State C N = (work h (some a) (working p q s)).1 in
      let e =
        run_tick-unpin h (some a) (working p q s) (working p q s) t (next_action-working p q s)
          (λ i. (x.returns i, t)) x.freed in
      (
        x.table_seen,
        ap (λ y. y.1.lua.log) e ∙ unpin-log h t ∙ x.called_twice,
        ap (λ y. y.1.db.current_action) e ∙ unpin-current_action h t ∙ x.freed,
      )
