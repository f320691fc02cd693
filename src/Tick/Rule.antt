-- ===== src/Tick/Rule.antt =====
-- A relation that every step of a tick respects holds between the states before and after it.
use gluamysql.Base.{
  ◌≡◌, refl, ap, ◌∙◌, List, [], ◌∷◌, Bool, true, false, Option, none, some, if_elim,
}
use gluamysql.Lua.{Ref, Args}
use gluamysql.Host.{Host}
use gluamysql.Action.{Action, free}
use gluamysql.Machine.{State, Outcome, done, raised, undefined, M, ◌>>=◌, ◌>>◌, pure, lua_call}
use gluamysql.Tick.{
  next_of, do_finish_of, do_finish, free_of, free_current, next_action, work, end_action,
  test_current, round, go_on, run_loop, unpin, run_tick, query,
}
use gluamysql.Tick.Steps.{table_at, Touches, Local, Steps, own, lua, then_}
use gluamysql.Tick.Runs.{Runs-query, Runs-finish}

abbrev pub at_current : {C N : Type 0} → Option Action → State C N → State C N
at_current o s = record s { db = record s.db { current_action = o } }

-- The steps: the module's own ones while an action is at work, a call into Lua code, the mark that
-- `DoFinish` sets, the freeing of the action, and the end of the tick.
pub record IsRule {C N : Type 0} (h : Host C N) (R : State C N → State C N → Type 0) : Type 0 where
  pub here : (s : State C N) → R s s
  pub also : (s t u : State C N) → R s t → R t u → R s u
  pub of_local : (s t : State C N) → Local s t → Touches h s t → R s t
  pub of_call : (f : Ref) (args : Args N) (s : State C N) → R s (lua_call h f args s).1
  pub of_mark :
      (a : Action) (s : State C N)
      → s.db.current_action ≡ some a
      → R s (at_current (some (record a { has_finished = true })) s)
  pub of_free :
      (a : Action) (s : State C N)
      → s.db.current_action ≡ some a
      → R s (at_current none (record s { lua = free a s.lua }))
  pub of_unpin : (s : State C N) → R s (unpin h s).1

done_same : {A : Type 0} {a b : Option A} → ◌≡◌ {A = Outcome (Option A)} (done a) (done b) → a ≡ b
done_same {A} {a} e =
    ap (λ o. elim o as (λ _. Option A) [ done x ↦ x | raised ↦ a | undefined ↦ a ]) e

module _ {C N : Type 0} (h : Host C N) where
  -- What `next_action` returns is at work.
  pub next_of-current :
      (o : Option Action) (q : List Action) (s : State C N) (a : Option Action)
      → s.db.current_action ≡ o
      → (next_of h o q s).0 ≡ done a
      → (next_of h o q s).1.db.current_action ≡ a
  unfolding next_of
  next_of-current (some b) q s a e f = e ∙ done_same f
  next_of-current none [] s a e f = e ∙ done_same f
  next_of-current none (b ∷ rest) s a e f = done_same f

module _ {C N : Type 0} (h : Host C N) (R : State C N → State C N → Type 0)
    (rule : IsRule h R) where
  pub of_steps : {s t : State C N} → Steps h s t → R s t
  of_steps {s} {t} (own l x) = rule.of_local s t l x
  of_steps (lua f args s) = rule.of_call f args s
  of_steps {s} {t} (then_ {t = m} p q) = rule.also s m t (of_steps p) (of_steps q)

  abbrev Goes : {A : Type 0} → M C N A → Type 0
  Goes m = (s : State C N) → R s (m s).1

  bind_from :
      {A B : Type 0} (f : A → M C N B) (s t : State C N) (r : Outcome A)
      → R s t
      → ((a : A) → Goes (f a))
      → R s
          (elim r as (λ x. Outcome B × State C N) [
            | done a ↦ f a t
            | raised ↦ (raised, t)
            | undefined ↦ (undefined, t)
          ]).1
  bind_from f s t (done a) p k = rule.also s t (f a t).1 p (k a t)
  bind_from f s t raised p k = p
  bind_from f s t undefined p k = p

  Goes-bind :
      {A B : Type 0} (m : M C N A) (f : A → M C N B)
      → Goes m
      → ((a : A) → Goes (f a))
      → Goes (m >>= f)
  Goes-bind m f p k s = bind_from f s (m s).1 (m s).0 (p s) k

  Goes-do_finish_of :
      (o : Option Action) (s : State C N) → s.db.current_action ≡ o → R s (do_finish_of h o s).1
  unfolding do_finish_of
  Goes-do_finish_of none s e = rule.here s
  Goes-do_finish_of (some a) s e =
      if_elim (λ (m : M C N (Unit {0})). R s (m s).1) a.has_finished (λ _. rule.here s)
        (λ _.
          rule.also s (at_current (some (record a { has_finished = true })) s) _
            (rule.of_mark a s e) (of_steps (Runs-finish h a.refs a.kind _ refl)))

  Goes-do_finish : Goes (do_finish h)
  unfolding do_finish
  Goes-do_finish s = Goes-do_finish_of s.db.current_action s refl

  Goes-free_of :
      (o : Option Action) (s : State C N) → s.db.current_action ≡ o → R s (free_of h o s).1
  unfolding free_of
  Goes-free_of none s e = rule.here s
  Goes-free_of (some a) s e = rule.of_free a s e

  Goes-freed : Goes (do free_current h; pure true)
  unfolding free_current
  Goes-freed =
      Goes-bind (free_current h) (λ _. pure true) (λ s. Goes-free_of s.db.current_action s refl)
        (λ _ s. rule.here s)

  Goes-end_action : (over : Bool) → Goes (end_action h over)
  unfolding end_action
  Goes-end_action true =
      Goes-bind (do_finish h) (λ _. do free_current h; pure true) Goes-do_finish (λ _. Goes-freed)
  Goes-end_action false = rule.here

  Goes-work : (o : Option Action) (s : State C N) → s.db.current_action ≡ o → R s (work h o s).1
  unfolding work
  Goes-work none s e = rule.here s
  Goes-work (some a) s e =
      if_elim (λ (m : M C N Bool). R s (m s).1) a.has_finished (λ _. Goes-freed s)
        (λ _.
          bind_from (end_action h) s (query h a.refs a.kind s).1 (query h a.refs a.kind s).0
            (of_steps (Runs-query h a.refs a.kind s (ap table_at e))) Goes-end_action)

  Goes-test_current : (more : Bool) → Goes (test_current h more)
  unfolding test_current
  Goes-test_current more s = rule.here s

  Goes-go_on : (b : Bool) → Goes (go_on h (pure tt) b)
  unfolding go_on
  Goes-go_on true s = rule.here s
  Goes-go_on false s = rule.here s

  worked :
      (s t : State C N) (r : Outcome (Option Action))
      → ((a : Option Action) → r ≡ done a → t.db.current_action ≡ a)
      → R t
          (elim r as (λ _. Outcome Bool × State C N) [
            | done a ↦ (do more ← work h a; test_current h more) t
            | raised ↦ (raised, t)
            | undefined ↦ (undefined, t)
          ]).1
  worked s t (done a) w =
      bind_from (test_current h) t (work h a t).1 (work h a t).0 (Goes-work a t (w a refl))
        Goes-test_current
  worked s t raised w = rule.here t
  worked s t undefined w = rule.here t

  -- From the state in which an action has been taken up, if one waited.
  pub run_tick_rule : (s : State C N) → R (next_action h s).1 (run_tick h s).1
  unfolding run_tick run_loop round
  run_tick_rule s =
      bind_from (λ _. unpin h) _ (run_loop h 1 s).1 (run_loop h 1 s).0
        (bind_from (go_on h (pure tt)) _ (round h s).1 (round h s).0
          (worked s (next_action h s).1 (next_action h s).0
            (λ a. unfold next_action in next_of-current h s.db.current_action s.db.queue s a refl))
          Goes-go_on)
        (λ _. rule.of_unpin)
