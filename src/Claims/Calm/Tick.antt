-- ===== src/Claims/Calm/Tick.antt =====
-- A tick ends in no Lua error of its own.
use gluamysql.Base.{
  ◌≡◌, refl, ap, sym, ◌∙◌, Bool, true, false, not, ◌&&◌, Option, none, some, List, [], ◌∷◌, if_elim,
}
use gluamysql.Lua.{Ref, is_unset}
use gluamysql.Host.{Host, FreshKeys}
use gluamysql.Action.{Action, Kind, async, querying, executing}
use gluamysql.Machine.{State, Outcome, done, raised, undefined, M, ◌>>=◌, ◌>>◌, pure}
use gluamysql.Tick.Drain.{query_async-job}
use gluamysql.Async.{query_async}
use gluamysql.Querying.{store_kind, with_kind}
use gluamysql.Tick.{
  query_job, query, do_finish_of, do_finish, free_of, free_current, end_action, work, test_current,
  round, go_on, run_loop, next_of, next_action, is_idle, unpin, run_tick,
}
use gluamysql.Tick.Steps.{refs_of, table_of, table_at, Steps-table}
use gluamysql.Tick.Runs.{Runs-query}
use gluamysql.Tick.Rule.{at_current, next_of-current}
use gluamysql.Claims.Commands.{AllOwned}
use gluamysql.Claims.Ticks.{AllOwned-IsRule, next_of-Owned}
use gluamysql.Claims.Calm.{is_raised, Calm, Good, Steps-Good}
use gluamysql.Claims.Calm.Finish.{
  is_connect, is_connecting, table-connects, is_raised-finish, is_raised-query,
}

module _ {C N : Type 0} (h : Host C N) (fresh : FreshKeys h) (calm : Calm h) where
  at_work-Good :
      (a : Action) (s : State C N)
      → AllOwned s
      → s.db.current_action ≡ some a
      → Good a.refs (table_of a.kind) s
  at_work-Good a s o e = record { owned = o; refs = ap refs_of e; rows = ap table_at e }

  abbrev pub CanConnect : State C N → Type 0
  CanConnect s = is_connecting s.db.current_action ≡ true → is_unset s.db.reference ≡ false

  is_raised-do_finish_of :
      (x : Option Action) (s : State C N)
      → s.db.current_action ≡ x
      → AllOwned s
      → CanConnect s
      → is_raised (do_finish_of h x s).0 ≡ false
  unfolding do_finish_of
  is_raised-do_finish_of none s e o u = refl
  is_raised-do_finish_of (some a) s e o u =
      if_elim (λ (m : M C N (Unit {0})). is_raised (m s).0 ≡ false) a.has_finished (λ _. refl)
        (λ _.
          let marked = record a { has_finished = true } in
          is_raised-finish h fresh calm a.refs a.kind (at_current (some marked) s)
            (at_work-Good marked (at_current (some marked) s)
              ((AllOwned-IsRule h fresh).of_mark a s e o) refl)
            (λ c. u (ap is_connecting e ∙ c)))

  is_raised-free_of : (x : Option Action) (s : State C N) → is_raised (free_of h x s).0 ≡ false
  unfolding free_of
  is_raised-free_of none s = refl
  is_raised-free_of (some a) s = refl

  is_raised-bind :
      {A B : Type 0} (m : M C N A) (f : A → M C N B) (s : State C N)
      → is_raised (m s).0 ≡ false
      → ((a : A) → (m s).0 ≡ done a → is_raised (f a (m s).1).0 ≡ false)
      → is_raised ((m >>= f) s).0 ≡ false
  is_raised-bind {A} {B} m f s c k = by_outcome (m s).0 c k
    where
      by_outcome :
          (r : Outcome A)
          → is_raised r ≡ false
          → ((a : A) → r ≡ done a → is_raised (f a (m s).1).0 ≡ false)
          → is_raised
              (elim r as (λ x. Outcome B × State C N) [
                | done a ↦ f a (m s).1
                | raised ↦ (raised, (m s).1)
                | undefined ↦ (undefined, (m s).1)
              ]).0
            ≡ false
      by_outcome (done a) c k = k a refl
      by_outcome raised c k = c
      by_outcome undefined c k = refl

  is_raised-freed : (s : State C N) → is_raised ((do free_current h; pure true) s).0 ≡ false
  unfolding free_current
  is_raised-freed s =
      is_raised-bind (free_current h) (λ _. pure true) s (is_raised-free_of s.db.current_action s)
        (λ _ _. refl)

  is_raised-end_action :
      (b : Bool) (s : State C N)
      → AllOwned s
      → CanConnect s
      → is_raised (end_action h b s).0 ≡ false
  unfolding end_action do_finish
  is_raised-end_action true s o u =
      is_raised-bind (do_finish h) (λ _. do free_current h; pure true) s
        (is_raised-do_finish_of s.db.current_action s refl o u) (λ _ _. is_raised-freed _)
  is_raised-end_action false s o u = refl

  -- The action at work stays what it is while `Query` runs.
  query-CanConnect :
      (a : Action) (s : State C N)
      → s.db.current_action ≡ some a
      → CanConnect s
      → CanConnect (query h a.refs a.kind s).1
  unfolding query query_job store_kind with_kind
  query-CanConnect a s e u = by_kind a.kind e
    where
      of_table : (x : Option Action) (f : Ref) → table_at x ≡ some f → is_connecting x ≡ true → ⊥
      of_table none f i c = cc
      of_table (some b) f i c = absurd cc (sym c ∙ table-connects b.kind f i)

      by_kind :
          (k : Kind)
          → s.db.current_action ≡ some (record a { kind = k })
          → CanConnect (query h a.refs k s).1
      by_kind (async x) e = λ c.
          let y = (query_async h x s.db.channel).1 in
          u (
            ap is_connecting e
            ∙ sym (ap is_connect (query_async-job h x s.db.channel))
            ∙ sym (ap (λ o. is_connecting (with_kind (async y) o)) e)
            ∙ c)
      by_kind (querying q) e = λ c. absurd (
          of_table _ q.data_reference
            (Steps-table h (Runs-query h a.refs (querying q) s (ap table_at e)) ∙ ap table_at e) c)
      by_kind (executing x) e = λ c. absurd (
          of_table _ x.reference
            (Steps-table h (Runs-query h a.refs (executing x) s (ap table_at e)) ∙ ap table_at e) c)

  is_raised-work :
      (x : Option Action) (s : State C N)
      → s.db.current_action ≡ x
      → AllOwned s
      → CanConnect s
      → is_raised (work h x s).0 ≡ false
  unfolding work
  is_raised-work none s e o u = refl
  is_raised-work (some a) s e o u =
      if_elim (λ (m : M C N Bool). is_raised (m s).0 ≡ false) a.has_finished
        (λ _. is_raised-freed s)
        (λ _.
          let g = at_work-Good a s o e in
          is_raised-bind (query h a.refs a.kind) (end_action h) s
            (is_raised-query h fresh calm a.refs a.kind s g)
            (λ over _.
              is_raised-end_action over _
                (Steps-Good h fresh calm (Runs-query h a.refs a.kind s g.rows) g).owned
                (query-CanConnect a s e u)))

  is_raised-go_on : (b : Bool) (s : State C N) → is_raised (go_on h (pure tt) b s).0 ≡ false
  unfolding go_on
  is_raised-go_on true s = refl
  is_raised-go_on false s = refl

  is_raised-unpin : (s : State C N) → is_raised (unpin h s).0 ≡ false
  unfolding unpin
  is_raised-unpin s =
      if_elim (λ (x : Outcome (Unit {0}) × State C N). is_raised x.0 ≡ false)
        (is_idle h s.db.current_action s.db.queue && not (is_unset s.db.queue_reference))
        (λ _. refl) (λ _. refl)

  is_raised-next_of :
      (x : Option Action) (q : List Action) (s : State C N) → is_raised (next_of h x q s).0 ≡ false
  unfolding next_of
  is_raised-next_of (some a) q s = refl
  is_raised-next_of none [] s = refl
  is_raised-next_of none (a ∷ rest) s = refl

  -- If Lua code raises no error, whatever it asks the module for, and the registry holds what is claimed,
  -- then a tick ends in no Lua error, unless it makes the connection of a database that was collected.
  pub is_raised-run_tick :
      (s : State C N)
      → AllOwned s
      → CanConnect (next_action h s).1
      → is_raised (run_tick h s).0 ≡ false
  unfolding run_tick run_loop round next_action test_current
  is_raised-run_tick s o u =
      let taken = (next_action h s).1 in
      is_raised-bind (run_loop h 1) (λ _. unpin h) s
        (is_raised-bind (round h) (go_on h (pure tt)) s
          (is_raised-bind (next_action h) (λ a. do more ← work h a; test_current h more) s
            (is_raised-next_of s.db.current_action s.db.queue s)
            (λ a e.
              is_raised-bind (work h a) (test_current h) taken
                (is_raised-work a taken
                  (next_of-current h s.db.current_action s.db.queue s a refl e)
                  (next_of-Owned h fresh s.db.current_action s.db.queue s refl refl o) u)
                (λ _ _. refl)))
          (λ b _. is_raised-go_on b _))
        (λ _ _. is_raised-unpin _)
