-- ===== src/Machine/Quiet.antt =====
-- Calls into Lua code that asks nothing of the module and raises no error.
use gluamysql.Base.{ℕ, ◌≡◌, refl, ap, true, false, some, List, [], ◌∷◌}
use gluamysql.Lua.{Ref, Args, Event, resolver, rejecter, rawgeti}
use gluamysql.Host.{Host}
use gluamysql.Machine.{
  pure, M, Outcome, raised, undefined, ◌>>=◌, State, done, enter, call_held, run_commands, lua_call,
}

abbrev pub Quiet : {C N : Type 0} → Host C N → Type 0
Quiet {N = N} h = (log : List (Event N)) → h.react log ≡ record { commands = []; raises = false }

-- The state with one more call logged.
abbrev pub logged : {C N : Type 0} → Event N → State C N → State C N
logged e s = record s { lua = record s.lua { log = e ∷ s.lua.log } }

-- What follows depends on the outcome alone.
pub bind_same :
    {C N A B : Type 0} (m n : M C N A) (f : A → M C N B) (s t : State C N)
    → m s ≡ n t
    → (m >>= f) s ≡ (n >>= f) t
bind_same {C} {N} {A} {B} m n f s t e =
    ap
      (λ (x : Outcome A × State C N). elim x.0 as (λ _. Outcome B × State C N) [
        | done b ↦ f b x.1
        | raised ↦ (raised, x.1)
        | undefined ↦ (undefined, x.1)
      ])
      e

-- A step that returns is followed by the next.
pub bind_done :
    {C N A B : Type 0} (m : M C N A) (f : A → M C N B) (s t : State C N) (a : A)
    → m s ≡ (done a, t)
    → (m >>= f) s ≡ f a t
bind_done m f s t a e = bind_same m (pure a) f s t e

-- A Lua error leaves what follows out.
pub bind_raised :
    {C N A B : Type 0} (m : M C N A) (f : A → M C N B) (s t : State C N)
    → m s ≡ (raised, t)
    → (m >>= f) s ≡ (raised, t)
bind_raised m f s t e = bind_same m (λ u. (raised, u)) f s t e

pub bind_undefined :
    {C N A B : Type 0} (m : M C N A) (f : A → M C N B) (s t : State C N)
    → m s ≡ (undefined, t)
    → (m >>= f) s ≡ (undefined, t)
bind_undefined m f s t e = bind_same m (λ u. (undefined, u)) f s t e

module _ {C N : Type 0} (h : Host C N) (quiet : Quiet h) where
  enter_quiet : (e : Event N) (s : State C N) → enter h e s ≡ (done tt, logged e s)
  unfolding enter run_commands
  enter_quiet e s = rw (quiet (e ∷ s.lua.log)) refl

  -- To call a promise's function is to log the settlement.
  pub lua_call-resolver_quiet :
      (f : Ref) (args : Args N) (s : State C N) (n : ℕ)
      → rawgeti f s.lua.registry ≡ some (resolver n)
      → lua_call h f args s
        ≡ (done tt, logged (record { promise = n; success = true; args = args }) s)
  unfolding lua_call
  lua_call-resolver_quiet f args s n e = rw (e, call_held) (enter_quiet _ s)

  pub lua_call-rejecter_quiet :
      (f : Ref) (args : Args N) (s : State C N) (n : ℕ)
      → rawgeti f s.lua.registry ≡ some (rejecter n)
      → lua_call h f args s
        ≡ (done tt, logged (record { promise = n; success = false; args = args }) s)
  unfolding lua_call
  lua_call-rejecter_quiet f args s n e = rw (e, call_held) (enter_quiet _ s)
