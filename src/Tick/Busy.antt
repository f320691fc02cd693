-- ===== src/Tick/Busy.antt =====
-- An action at work over its ticks, and the end of one that resolves its promise with a table.
use gluamysql.Base.{ℕ, suc, ◌≡◌, ◌≢◌, refl, ap, sym, subst, ◌∙◌, Bool, true, false, none, some, ◌∷◌}
use gluamysql.Lua.{Ref, Held, ResultTable, Event, with_table, table, resolver, rawgeti, rawseti}
use gluamysql.Lua.Registry.{rawgeti-rawseti_other}
use gluamysql.Host.{Host}
use gluamysql.Action.{Action, Promise, Kind, Query, Exec, querying, executing}
use gluamysql.Action.References.{free-log}
use gluamysql.Machine.{State, Outcome, done, ◌>>◌, pure}
use gluamysql.Machine.Quiet.{bind_done, Quiet, logged, lua_call-resolver_quiet}
use gluamysql.Async.{resolve_with}
use gluamysql.Querying.{with_counts, finish_with, finish_table}
use gluamysql.Tick.{
  next_of, next_action, run_tick, do_finish, do_finish_of, free_current, free_of, finish,
  end_action, work, query, unpin,
}
use gluamysql.Tick.Once.{
  run_tick-goes_on, run_tick-unpin, unpin-done, unpin-log, unpin-current_action, unpin-queue,
}
use gluamysql.Tick.Drain.{ticks}

abbrev pub action_at : Promise → Kind → Action
action_at p k = record { refs = p; has_finished = false; kind = k }

abbrev pub at_work : {C N : Type 0} → Promise → Kind → State C N → State C N
at_work p k s = record s { db = record s.db { current_action = some (action_at p k) } }

pub resolver-ne-table :
    {N : Type 0} (n : ℕ) (t : ResultTable N) → ◌≢◌ {A = Held N} (resolver n) (table t)
resolver-ne-table n t = λ e. cc

module _ {C N : Type 0} (h : Host C N) where
  -- Both kinds that gather rows finish with their table.
  pub finish-querying :
      (p : Promise) (q : Query) → finish h p (querying q) ≡ finish_table h p q.data_reference
  unfolding finish
  finish-querying p q = refl

  pub finish-executing :
      (p : Promise) (x : Exec) → finish h p (executing x) ≡ finish_table h p x.reference
  unfolding finish
  finish-executing p x = refl

  pub next_action-at_work :
      (p : Promise) (k : Kind) (s : State C N)
      → next_action h (at_work p k s) ≡ (done (some (action_at p k)), at_work p k s)
  unfolding next_action next_of
  next_action-at_work p k s = refl

  unpin-at_work :
      (p : Promise) (k : Kind) (s : State C N) → unpin h (at_work p k s) ≡ (done tt, at_work p k s)
  unfolding unpin
  unpin-at_work p k s = refl

  pub run_tick-at_work :
      (p : Promise) (k k' : Kind) (s t : State C N)
      → query h p k (at_work p k s) ≡ (done false, at_work p k' t)
      → run_tick h (at_work p k s) ≡ (done tt, at_work p k' t)
  unfolding work end_action
  run_tick-at_work p k k' s t e =
      run_tick-goes_on h (some (action_at p k)) (at_work p k s) (at_work p k s) (at_work p k' t)
        (next_action-at_work p k s)
        (bind_done (query h p k) (end_action h) (at_work p k s) (at_work p k' t) false e)
      ∙ unpin-at_work p k' t

module _ {C N : Type 0} (h : Host C N) (quiet : Quiet h) where
  abbrev pub resolution : ℕ → C → ResultTable N → Event N
  resolution n c t = record { promise = n; success = true; args = with_table (with_counts h c t) }

  finish_table_quiet :
      (p : Promise) (ref : Ref) (n : ℕ) (t : ResultTable N) (s : State C N)
      → rawgeti p.resolve s.lua.registry ≡ some (resolver n)
      → rawgeti ref s.lua.registry ≡ some (table t)
      → finish_table h p ref s ≡ (
        done tt,
        logged (resolution n s.db.instance t) (record s {
          lua = record s.lua {
            registry = rawseti ref (table (with_counts h s.db.instance t)) s.lua.registry;
          };
        }),
      )
  unfolding finish_table finish_with resolve_with
  finish_table_quiet p ref n t s r g = rw g (
      lua_call-resolver_quiet h quiet p.resolve _ _ n
        (rawgeti-rawseti_other p.resolve ref _ s.lua.registry r g (resolver-ne-table n t)))

  -- The state once the action has been finished and freed.
  pub record Ended (e : Event N) (s : State C N) (x : Outcome Bool × State C N) : Type 0 where
    pub returns : x.0 ≡ done true
    pub called : x.1.lua.log ≡ e ∷ s.lua.log
    pub freed : x.1.db.current_action ≡ none
    pub same_queue : x.1.db.queue ≡ s.db.queue

  pub end_at_work :
      (p : Promise) (k : Kind) (ref : Ref) (n : ℕ) (t : ResultTable N) (s : State C N)
      → finish h p k ≡ finish_table h p ref
      → rawgeti p.resolve s.lua.registry ≡ some (resolver n)
      → rawgeti ref s.lua.registry ≡ some (table t)
      → Ended (resolution n s.db.instance t) s (end_action h true (at_work p k s))
  unfolding end_action do_finish do_finish_of free_current free_of
  end_at_work p k ref n t s f r g =
      let finishing : State C N = record s {
        db = record s.db {
          current_action = some (record { refs = p; has_finished = true; kind = k });
        };
      } in
      let e = ap (λ m. m finishing) f ∙ finish_table_quiet p ref n t finishing r g in
      subst (λ x. Ended (resolution n s.db.instance t) s x)
        (sym (bind_done (do_finish h) (λ _. do free_current h; pure true) (at_work p k s) _ tt e))
        (record {
          returns = refl;
          called = free-log (record (action_at p k) { has_finished = true }) _;
          freed = refl;
          same_queue = refl;
        })

  -- The promise is resolved once, with that table and what the handle says of it, and the action is
  -- freed.
  pub record Gathered (n : ℕ) (c : C) (t : ResultTable N) (s : State C N)
      (x : Outcome (Unit {0}) × State C N) : Type 0 where
    pub returns : x.0 ≡ done tt
    pub resolved : x.1.lua.log ≡ resolution n c t ∷ s.lua.log
    pub freed : x.1.db.current_action ≡ none
    pub same_queue : x.1.db.queue ≡ s.db.queue

  pub run_tick-over :
      (p : Promise) (k k' : Kind) (ref : Ref) (n : ℕ) (t : ResultTable N) (s u : State C N)
      → query h p k (at_work p k s) ≡ (done true, at_work p k' u)
      → finish h p k' ≡ finish_table h p ref
      → rawgeti p.resolve u.lua.registry ≡ some (resolver n)
      → rawgeti ref u.lua.registry ≡ some (table t)
      → Gathered n u.db.instance t u (run_tick h (at_work p k s))
  unfolding work
  run_tick-over p k k' ref n t s u e f w z =
      let start : State C N = at_work p k s in
      let x = end_at_work p k' ref n t u f w z in
      let v : State C N = (end_action h true (at_work p k' u)).1 in
      let last =
        run_tick-unpin h (some (action_at p k)) start start v (next_action-at_work h p k s)
          (bind_done (query h p k) (end_action h) start (at_work p k' u) true e
            ∙ (λ i. (x.returns i, v)))
          x.freed in
      subst (λ y. Gathered n u.db.instance t u y) (sym last)
        (record {
          returns = unpin-done h v;
          resolved = unpin-log h v ∙ x.called;
          freed = unpin-current_action h v ∙ x.freed;
          same_queue = unpin-queue h v ∙ x.same_queue;
        })

  pub after_tick :
      (k n : ℕ) (c : C) (t : ResultTable N) (s u v w : State C N)
      → run_tick h v ≡ (done tt, w)
      → u.lua.log ≡ s.lua.log
      → u.db.queue ≡ s.db.queue
      → Gathered n c t u (ticks h k w)
      → Gathered n c t s (ticks h (suc k) v)
  after_tick k n c t s u v w e f g x =
      subst (λ y. Gathered n c t s y) (sym (bind_done (run_tick h) (λ _. ticks h k) v w tt e))
        (record {
          returns = x.returns;
          resolved = x.resolved ∙ ap (λ l. resolution n c t ∷ l) f;
          freed = x.freed;
          same_queue = x.same_queue ∙ g;
        })

  -- One tick is left, and it is the last.
  pub last_tick :
      (n : ℕ) (c : C) (t : ResultTable N) (s u v : State C N)
      → u.lua.log ≡ s.lua.log
      → u.db.queue ≡ s.db.queue
      → Gathered n c t u (run_tick h v)
      → Gathered n c t s (ticks h 1 v)
  last_tick n c t s u v f g x =
      subst (λ y. Gathered n c t s y)
        (sym (
          bind_done (run_tick h) (λ _. pure tt) v (run_tick h v).1 tt
            (λ i. (x.returns i, (run_tick h v).1))))
        (record {
          returns = refl;
          resolved = x.resolved ∙ ap (λ l. resolution n c t ∷ l) f;
          freed = x.freed;
          same_queue = x.same_queue ∙ g;
        })
