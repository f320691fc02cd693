-- ===== src/Claims/Calm.antt =====
-- A function of the module ends in no Lua error if the Lua code that it calls raises none.
pub mod Query
pub mod Exec
pub mod Finish
pub mod Tick
use gluamysql.Base.{
  ℕ, ◌≡◌, refl, ap, ◌∙◌, Bool, true, false, Option, some, List, if◌then◌else◌, if_elim,
}
use gluamysql.Lua.{Ref, Args, Event, resolver, rejecter, rawgeti}
use gluamysql.Host.{Host, FreshKeys}
use gluamysql.Action.{Promise}
use gluamysql.Machine.{
  State, Outcome, done, raised, undefined, M, ◌>>=◌, lua_call, call_held, enter,
}
use gluamysql.Machine.Growth.{lua_call-Grows}
use gluamysql.Async.{reject, resolve_with}
use gluamysql.Tick.Steps.{refs_of, table_at, Steps, own, lua, then_, Steps-table, Runs}
use gluamysql.Tick.Rule.{of_steps}
use gluamysql.Claims.Commands.{AllOwned}
use gluamysql.Claims.Ticks.{AllOwned-IsRule}
use gluamysql.Claims.Met.{current-Numbered}

abbrev pub is_raised : {A : Type 0} → Outcome A → Bool
is_raised (done a) = false
is_raised raised = true
is_raised undefined = false

-- Lua code raises no error, whatever it asks for.
abbrev pub Calm : {C N : Type 0} → Host C N → Type 0
Calm {N = N} h = (log : List (Event N)) → (h.react log).raises ≡ false

-- The action at work has this promise and this table, and the registry holds what is claimed.
pub record Good {C N : Type 0} (p : Promise) (ref : Option Ref) (s : State C N) : Type 0 where
  pub owned : AllOwned s
  pub refs : refs_of s.db.current_action ≡ some p
  pub rows : table_at s.db.current_action ≡ ref

module _ {C N : Type 0} (h : Host C N) (fresh : FreshKeys h) (calm : Calm h) where
  Steps-refs :
      {s t : State C N} → Steps h s t → refs_of t.db.current_action ≡ refs_of s.db.current_action
  Steps-refs (own l x) = l.same_refs
  Steps-refs (lua f args s) = ap refs_of (lua_call-Grows h f args s).current
  Steps-refs (then_ p q) = Steps-refs q ∙ Steps-refs p

  pub Steps-Good :
      {p : Promise} {ref : Option Ref} {s t : State C N} → Steps h s t → Good p ref s → Good p ref t
  Steps-Good x g = record {
    owned = of_steps h (λ u v. AllOwned u → AllOwned v) (AllOwned-IsRule h fresh) x g.owned;
    refs = Steps-refs x ∙ g.refs;
    rows = Steps-table h x ∙ g.rows;
  }

  is_raised-enter : (e : Event N) (s : State C N) → is_raised (enter h e s).0 ≡ false
  unfolding enter
  is_raised-enter e s = rw (calm _) refl

  pub is_raised-resolver :
      (f : Ref) (args : Args N) (s : State C N) {n : ℕ}
      → rawgeti f s.lua.registry ≡ some (resolver n)
      → is_raised (lua_call h f args s).0 ≡ false
  unfolding lua_call call_held
  is_raised-resolver f args s e = rw e (is_raised-enter _ s)

  pub is_raised-rejecter :
      (f : Ref) (args : Args N) (s : State C N) {n : ℕ}
      → rawgeti f s.lua.registry ≡ some (rejecter n)
      → is_raised (lua_call h f args s).0 ≡ false
  unfolding lua_call call_held
  is_raised-rejecter f args s e = rw e (is_raised-enter _ s)

  module _ (p : Promise) (ref : Option Ref) where
    -- It raises no error while that action is at work.
    abbrev pub Calms : {A : Type 0} → M C N A → Type 0
    Calms m = (s : State C N) → Good p ref s → is_raised (m s).0 ≡ false

    bind_from :
        {A B : Type 0} (f : A → M C N B) (t : State C N) (r : Outcome A)
        → Good p ref t
        → is_raised r ≡ false
        → ((a : A) → Calms (f a))
        → is_raised
            (elim r as (λ x. Outcome B × State C N) [
              | done a ↦ f a t
              | raised ↦ (raised, t)
              | undefined ↦ (undefined, t)
            ]).0
          ≡ false
    bind_from f t (done a) g e k = k a t g
    bind_from f t raised g e k = e
    bind_from f t undefined g e k = refl

    pub Calms-bind :
        {A B : Type 0} (m : M C N A) (f : A → M C N B)
        → Runs h ref m
        → Calms m
        → ((a : A) → Calms (f a))
        → Calms (m >>= f)
    Calms-bind m f r c k s g = bind_from f (m s).1 (m s).0 (Steps-Good (r s g.rows) g) (c s g) k

    pub Calms-if :
        {A : Type 0} (b : Bool) (m n : M C N A) → Calms m → Calms n → Calms (if b then m else n)
    Calms-if {A} b m n c d = if_elim (λ (x : M C N A). Calms x) b (λ _. c) (λ _. d)

    pub Calms-reject : (m : Option (List ℕ)) → Calms (reject h p m)
    unfolding reject
    Calms-reject m s g =
        is_raised-rejecter p.reject _ s (current-Numbered s g.owned p g.refs).rejects

    pub Calms-resolve_with : (args : Args N) → Calms (resolve_with h p args)
    unfolding resolve_with
    Calms-resolve_with args s g =
        is_raised-resolver p.resolve args s (current-Numbered s g.owned p g.refs).resolves
