-- ===== src/Hooks/Raising.antt =====
-- No tick raises a Lua error of the module's own.
use gluamysql.Base.{◌≡◌, false, List}
use gluamysql.Lua.{Event}
use gluamysql.Host.{Host, FreshKeys, Reaction}
use gluamysql.Machine.{State}
use gluamysql.Tick.{next_action, run_tick}
use gluamysql.Claims.Calm.{is_raised, Calm}
use gluamysql.Claims.Calm.Tick.{CanConnect, is_raised-run_tick}
use gluamysql.Hooks.Reach.{Reachable, with_react}
use gluamysql.Hooks.Served.{open_databases, Reachable-AllOwned}

module _ {C N : Type 0} (h : Host C N) (fresh : FreshKeys h) (calm : Calm h) where
  -- In any state that the module can get into, whatever Lua code did before, errors included: if from
  -- then on Lua code raises no error, whatever it asks the module for, then a tick of a database ends
  -- in no Lua error. The database is not one that was collected while its connection is to be made,
  -- and `luaL_ref` picks keys that are not in use.
  pub run_tick_never_raises :
      (past : List (Event N) → Reaction) (s : State C N)
      → Reachable (with_react h past) (open_databases s) s.lua
      → CanConnect h fresh calm (next_action h s).1
      → is_raised (run_tick h s).0 ≡ false
  run_tick_never_raises past s r u =
      is_raised-run_tick h fresh calm s (Reachable-AllOwned (with_react h past) fresh s r) u
