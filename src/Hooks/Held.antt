-- ===== src/Hooks/Held.antt =====
-- The userdata of a database with work to do is in the registry.
use gluamysql.Base.{ℕ, ◌≡◌, refl, true, false, Option, none, some, List, [], ◌∷◌, ◌++◌, arith}
use gluamysql.Lua.{Lua, Ref, refnil, noref, key, Held, database, rawgeti, is_unset}
use gluamysql.Host.{Host, FreshKeys}
use gluamysql.Action.{Action}
use gluamysql.Database.{Db}
use gluamysql.Machine.{State}
use gluamysql.Machine.Pinned.{is_idle, IsPinned, AllPinned}
use gluamysql.Claims.{is_strong, weigh, unmet, claims_ref, strongly, claims_dbs}
use gluamysql.Claims.Objects.{weigh-db}
use gluamysql.Hooks.{has_work}
use gluamysql.Hooks.Reach.{Reachable, Reachable-AllPinned}
use gluamysql.Hooks.Served.{Reachable-AllOwned}

-- The registry holds the database's own userdata under its `queue_reference`.
abbrev pub IsHeld : {C N : Type 0} → Db C → Lua N → Type 0
IsHeld d l = rawgeti d.queue_reference l.registry ≡ some (database d.address)

module _ {C : Type 0} where
  pinned_of : (before after : List (Db C)) (d : Db C) → AllPinned (before ++ d ∷ after) → IsPinned d
  pinned_of [] after d p = p.0
  pinned_of (x ∷ before) after d p = pinned_of before after d p.1

  is_idle-has_work :
      (d : Db C) (o : Option Action) (q : List Action)
      → has_work (record d { current_action = o; queue = q }) ≡ true
      → is_idle o q ≡ false
  unfolding has_work
  is_idle-has_work d none [] e = cc
  is_idle-has_work d none (a ∷ q) e = refl
  is_idle-has_work d (some a) q e = refl

  is_unset-has_work :
      (d : Db C)
      → IsPinned d
      → has_work d ≡ true
      → d.gced ≡ false
      → is_unset d.queue_reference ≡ false
  is_unset-has_work d p w g = ground (arith, p, g, is_idle-has_work d d.current_action d.queue w)

module _ {N : Type 0} where
  is_strong-some : (a : ℕ) (x : Option (Held N)) → is_strong a x ≡ true → x ≡ some (database a)
  is_strong-some a (some (database b)) e = ground arith
  is_strong-some a _ e = cc

  held_at :
      (f : Ref) (a : ℕ) (r : List (ℕ × Held N))
      → is_unset f ≡ false
      → weigh (unmet r) (claims_ref strongly f a) ≡ 0
      → rawgeti f r ≡ some (database a)
  held_at refnil a r u m = cc
  held_at noref a r u m = cc
  held_at (key k) a r u m = is_strong-some a (rawgeti (key k) r) (ground (arith, m))

module _ {C N : Type 0} (h : Host C N) (fresh : FreshKeys h) where
  -- In every state that the module can get into, whatever Lua code does in its callbacks and between
  -- the ticks: an open database with work to do that was not collected has its own userdata in the
  -- registry, under its `queue_reference`, so that Lua cannot collect it. `luaL_ref` picks keys that
  -- are not in use.
  pub Reachable-IsHeld :
      (before after : List (Db C)) (d : Db C) (l : Lua N)
      → Reachable h (before ++ d ∷ after) l
      → has_work d ≡ true
      → d.gced ≡ false
      → IsHeld d l
  Reachable-IsHeld before after d l r w g =
      let s : State C N = record {
        db = d;
        before = before;
        after = after;
        lua = l;
        cleaned = false;
      } in
      let o = Reachable-AllOwned h fresh s r in
      let others = claims_dbs before ++ claims_dbs after in
      held_at d.queue_reference d.address l.registry
        (is_unset-has_work d (pinned_of before after d (Reachable-AllPinned h r)) w g)
        (omega (arith, o.met, weigh-db (unmet l.registry) d others))
