-- ===== src/Tick/Raised.antt =====
-- A Lua error in the settlement of an asynchronous action, and the tick after it.
use gluamysql.Base.{
  ℕ, ◌≡◌, refl, ap, sym, subst, ◌∙◌, Bool, true, false, not, ◌==◌, Option, none, some, List, [],
  ◌∷◌, ◌++◌,
}
use gluamysql.Lua.{Held, database, weak_statement, with_statement, nothing}
use gluamysql.Host.{Host}
use gluamysql.Action.{
  Action, Promise, Job, connect_action, prepare_statement, prepare_statement_close, close_action,
  Async, async, free, lua_l_ref,
}
use gluamysql.Database.{Channel, push}
use gluamysql.Action.References.{free-log}
use gluamysql.Machine.{State, Outcome, done, raised, undefined, M, ◌>>◌, pure}
use gluamysql.Machine.Growth.{lua_call-Grows}
use gluamysql.Machine.Quiet.{bind_done, bind_raised, bind_undefined}
use gluamysql.Async.{
  query_async, finish_job, settle, reject, resolve_with, resolve_pushed, resolve_database,
  resolve_statement, forget_statement, put_stmts, erase_removed,
}
use gluamysql.Tick.{
  query, finish, do_finish, do_finish_of, free_of, free_current, next_of, next_action, end_action,
  work, run_tick, unpin,
}
use gluamysql.Tick.Once.{
  run_tick-unpin, run_tick-raised, run_tick-undefined, unpin-channel, unpin-done, unpin-log,
  unpin-current_action, unpin-queue,
}
use gluamysql.Tick.Rule.{at_current}
use gluamysql.Tick.Serving.{
  action_of, busy, on_channel, next_action-busy, query-busy, run_tick-more,
}

module _ {C N : Type 0} (h : Host C N) where
  abbrev SameCurrent : {A : Type 0} → State C N → Outcome A × State C N → Type 0
  SameCurrent s x = x.1.db.current_action ≡ s.db.current_action

  settle-SameCurrent :
      (p : Promise) (ok : Bool) (good : M C N (Unit {0})) (s : State C N)
      → SameCurrent s (good s)
      → SameCurrent s (settle h p ok good s)
  unfolding settle reject
  settle-SameCurrent p true good s e = e
  settle-SameCurrent p false good s e = (lua_call-Grows h p.reject _ s).current

  resolve_pushed-SameCurrent :
      (p : Promise) (o : Option (Held N)) (s : State C N) → SameCurrent s (resolve_pushed h p o s)
  unfolding resolve_pushed resolve_with
  resolve_pushed-SameCurrent p (some (database a)) s = (lua_call-Grows h p.resolve _ s).current
  resolve_pushed-SameCurrent p _ s = refl

  put_stmts-SameCurrent : (o : Option (List ℕ)) (s : State C N) → SameCurrent s (put_stmts h o s)
  unfolding put_stmts
  put_stmts-SameCurrent none s = refl
  put_stmts-SameCurrent (some left) s = refl

  -- The state in which a prepared statement is handed to its promise.
  abbrev listed : ℕ → State C N → State C N
  listed stmt s = record s {
    db = record s.db { stmts = s.db.stmts ++ stmt ∷ [] };
    lua = (lua_l_ref h (weak_statement stmt) s.lua).1;
  }

  finish_job-SameCurrent :
      (p : Promise) (j : Job) (out : ℕ) (s : State C N) → SameCurrent s (finish_job h p j out s)
  unfolding finish_job resolve_with resolve_database resolve_statement forget_statement
  finish_job-SameCurrent p (connect_action a b c d f) out s =
      settle-SameCurrent p (not (out == 0)) (resolve_database h p) s
        (resolve_pushed-SameCurrent p (push h s.db s.lua) s)
  finish_job-SameCurrent p (prepare_statement stmt text) out s =
      settle-SameCurrent p (out == 0) (resolve_statement h p stmt) s
        (lua_call-Grows h p.resolve (with_statement stmt) (listed stmt s)).current
  finish_job-SameCurrent p (prepare_statement_close stmt) out s =
      put_stmts-SameCurrent (erase_removed stmt s.db.stmts) s
  finish_job-SameCurrent p close_action out s = refl
  finish_job-SameCurrent p _ out s =
      settle-SameCurrent p (out == 0) (resolve_with h p nothing) s
        (lua_call-Grows h p.resolve nothing s).current

  -- The tick of an action that has been finished.
  run_tick-finished :
      (a : Action) (s : State C N)
      → s.db.current_action ≡ some a
      → a.has_finished ≡ true
      → run_tick h s ≡ unpin h (at_current none (record s { lua = free a s.lua }))
  unfolding next_action next_of work free_current free_of
  run_tick-finished a s e f =
      run_tick-unpin h (some a) s s (at_current none (record s { lua = free a s.lua })) (rw e refl)
        (rw (f, e) refl) refl

  -- An asynchronous action at work that the client is done with: its settlement is what is left.
  abbrev marked : Promise → Async → List Action → State C N → State C N
  marked p y rest s = busy (record { refs = p; has_finished = true; kind = async y }) rest s

  -- The action is freed, nothing is called, and what was queued stays.
  pub record Freed (u : State C N) (x : Outcome (Unit {0}) × State C N) : Type 0 where
    pub returns : x.0 ≡ done tt
    pub none_at_work : x.1.db.current_action ≡ none
    pub same_log : x.1.lua.log ≡ u.lua.log
    pub same_queue : x.1.db.queue ≡ u.db.queue
    pub same_channel : x.1.db.channel ≡ u.db.channel

  finished-Freed :
      (a : Action) (u : State C N)
      → u.db.current_action ≡ some a
      → a.has_finished ≡ true
      → Freed u (run_tick h u)
  finished-Freed a u e f =
      let t : State C N = at_current none (record u { lua = free a u.lua }) in
      subst (λ x. Freed u x) (sym (run_tick-finished a u e f))
        (record {
          returns = unpin-done h t;
          none_at_work = unpin-current_action h t;
          same_log = unpin-log h t ∙ free-log a u.lua;
          same_queue = unpin-queue h t;
          same_channel = unpin-channel h t;
        })

  run_tick-settled :
      (p : Promise) (x y : Async) (rest : List Action) (s v : State C N) (ch : Channel C)
      (r : Outcome (Unit {0}))
      → query_async h x s.db.channel ≡ (true, y, ch)
      → finish_job h p y.job y.out (marked p y rest (on_channel ch s)) ≡ (r, v)
      → (run_tick h (busy (action_of p x) rest s)).0 ≡ raised
      → Freed
          (run_tick h (busy (action_of p x) rest s)).1
          (run_tick h (run_tick h (busy (action_of p x) rest s)).1)
  unfolding work end_action do_finish do_finish_of finish free_current free_of
  run_tick-settled p x y rest s v ch r e f =
      let start : State C N = busy (action_of p x) rest s in
      let asked : State C N = busy (action_of p y) rest (on_channel ch s) in
      let a : Action = record { refs = p; has_finished = true; kind = async y } in
      let current : v.db.current_action ≡ some a =
        sym (ap (λ z. z.1.db.current_action) f) ∙ finish_job-SameCurrent p y.job y.out _ in
      let worked : work h (some (action_of p x)) start ≡ end_action h true asked =
        bind_done (query h p (async x)) (end_action h) start asked true
          (query-busy h p x y rest s true ch e) in
      let freed : State C N = at_current none (record v { lua = free a v.lua }) in
      elim r
          as (λ o.
            finish_job h p y.job y.out (marked p y rest (on_channel ch s)) ≡ (o, v)
            → (run_tick h start).0 ≡ raised
            → Freed (run_tick h start).1 (run_tick h (run_tick h start).1)) [
              | done tt ↦ λ g i. absurd cc (
                sym (
                    ap (λ z. z.0)
                      (run_tick-unpin h (some (action_of p x)) start start freed
                        (next_action-busy h (action_of p x) rest s)
                        (worked
                          ∙ bind_done (do_finish h) (λ _. do free_current h; pure true) asked v tt g
                          ∙ rw current refl)
                        refl)
                    ∙ unpin-done h freed),
                i,
              )
              | raised ↦ λ g i.
                  let stopped : run_tick h start ≡ (raised, v) =
                    run_tick-raised h (some (action_of p x)) start start v
                      (next_action-busy h (action_of p x) rest s)
                      (worked
                        ∙ bind_raised (do_finish h) (λ _. do free_current h; pure true) asked v
                            g) in
                  subst (λ z. Freed z.1 (run_tick h z.1)) (sym stopped)
                    (finished-Freed a v current refl)
              | undefined ↦ λ g i.
                  let stopped : run_tick h start ≡ (undefined, v) =
                    run_tick-undefined h (some (action_of p x)) start start v
                      (next_action-busy h (action_of p x) rest s)
                      (worked
                        ∙ bind_undefined (do_finish h) (λ _. do free_current h; pure true) asked v
                            g) in
                  absurd cc (sym (ap (λ z. z.0) stopped), i)
            ]
        f

  -- If a Lua error ends a tick with an asynchronous action at work, then the next tick frees the
  -- action: it returns, and calls neither Lua code nor the client, so that the promise is not settled
  -- once more; the actions that were queued stay.
  pub run_tick-Freed :
      (p : Promise) (x : Async) (rest : List Action) (s : State C N)
      → (run_tick h (busy (action_of p x) rest s)).0 ≡ raised
      → Freed
          (run_tick h (busy (action_of p x) rest s)).1
          (run_tick h (run_tick h (busy (action_of p x) rest s)).1)
  run_tick-Freed p x rest s i = by_answer (query_async h x s.db.channel) refl
    where
      by_answer :
          (q : Bool × Async × Channel C)
          → query_async h x s.db.channel ≡ q
          → Freed
              (run_tick h (busy (action_of p x) rest s)).1
              (run_tick h (run_tick h (busy (action_of p x) rest s)).1)
      by_answer (true, y, ch) e = run_tick-settled p x y rest s _ ch _ e refl i
      by_answer (false, y, ch) e = absurd cc (
        sym (
            ap (λ z. z.0)
              (run_tick-more h p x y rest (busy (action_of p x) rest s) s ch
                (next_action-busy h (action_of p x) rest s) e)),
        i,
      )
