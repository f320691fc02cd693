-- ===== src/Hooks/Owned.antt =====
-- In every state that the module can get into, the registry holds what the databases and their actions
-- refer to.
use gluamysql.Base.{
  ℕ, zero, suc, ◌≡◌, refl, sym, ◌∙◌, Bool, true, false, List, [], ◌∷◌, ◌++◌, arith, length, ◌==◌,
}
use gluamysql.Lua.{Lua}
use gluamysql.Host.{Host, FreshKeys, Command, submit, connect, collect}
use gluamysql.Database.{Db}
use gluamysql.Library.{mysql_connect}
use gluamysql.Machine.{State, at_address, method_at, collected}
use gluamysql.Tick.{run_tick}
use gluamysql.Claims.{Claim, weigh, Owned, claims_db, claims_dbs}
use gluamysql.Claims.Laws.{weigh-append, weigh-moved, Owned-same, Owned-part}
use gluamysql.Claims.Requests.{KeepsOwned, method_at-Owned, collected-Owned, mysql_connect-Owned}
use gluamysql.Claims.Commands.{weigh-dbs, AllOwned, at_address-Owned}
use gluamysql.Claims.Ticks.{run_tick-AllOwned}
use gluamysql.Hooks.{has_work, Pass, pass_from, tick_hook_tick, run_tick_hook}
use gluamysql.Hooks.Cases.{both_ways, outcome_ways}
use gluamysql.Hooks.Reach.{command_outside, Reachable, loaded, after_command, after_tick}

-- The registry meets the claims of these databases, and no key is claimed twice.
abbrev pub DbsOwned : {C N : Type 0} → List (Db C) → Lua N → Type 0
DbsOwned dbs l = Owned l.registry (claims_dbs dbs)

abbrev Owning : {C N : Type 0} → Pass C N → Type 0
Owning p = DbsOwned p.dbs p.lua

weigh-snoc :
    {C : Type 0} (w : Claim → ℕ) (ds es : List (Db C)) (d : Db C)
    → weigh w (claims_dbs (ds ++ d ∷ []) ++ claims_dbs es)
      ≡ weigh w (claims_db d ++ (claims_dbs ds ++ claims_dbs es))
weigh-snoc w ds es d = omega (
  arith,
  weigh-append w (claims_dbs (ds ++ d ∷ [])) (claims_dbs es),
  weigh-dbs w ds (d ∷ []),
  weigh-append w (claims_db d) [],
  weigh-append w (claims_db d) (claims_dbs ds ++ claims_dbs es),
  weigh-append w (claims_dbs ds) (claims_dbs es),
)

module _ {C N : Type 0} (h : Host C N) (fresh : FreshKeys h) where
  joined :
      (ds es : List (Db C)) (l : Lua N)
      → Owned l.registry (claims_dbs ds ++ claims_dbs es)
      → DbsOwned (ds ++ es) l
  joined ds es l o =
      Owned-same (claims_dbs (ds ++ es)) o
        (λ w. weigh-append w (claims_dbs ds) (claims_dbs es) ∙ sym (weigh-dbs w ds es))

  left-Owned : (t : State C N) → AllOwned t → DbsOwned (t.before ++ t.db ∷ t.after) t.lua
  left-Owned t o = joined t.before (t.db ∷ t.after) t.lua (
      Owned-same (claims_dbs t.before ++ claims_dbs (t.db ∷ t.after)) o
        (λ w. weigh-moved w (claims_db t.db) (claims_dbs t.before) (claims_dbs t.after)))

  passed :
      (before ds : List (Db C)) (d : Db C) (l : Lua N)
      → Owned l.registry (claims_db d ++ (claims_dbs before ++ claims_dbs ds))
      → Owned l.registry (claims_dbs (before ++ d ∷ []) ++ claims_dbs ds)
  passed before ds d l o =
      Owned-same (claims_dbs (before ++ d ∷ []) ++ claims_dbs ds) o
        (λ w. sym (weigh-snoc w before ds d))

  pass_from-Owned :
      (cleaned : Bool) (n : ℕ) (before ds : List (Db C)) (l : Lua N) (unready : Bool)
      → Owned l.registry (claims_dbs before ++ claims_dbs ds)
      → Owning (pass_from h cleaned n before ds l unready)
  unfolding pass_from
  pass_from-Owned cleaned zero before ds l unready o = joined before ds l o
  pass_from-Owned cleaned (suc n) before [] l unready o =
      Owned-same (claims_dbs before) o (λ w. omega (arith, weigh-append w (claims_dbs before) []))
  pass_from-Owned cleaned (suc n) before (d ∷ ds) l unready o =
      let s : State C N = record {
        db = d;
        before = before;
        after = ds;
        lua = l;
        cleaned = cleaned;
      } in
      let t : State C N = (run_tick h s).1 in
      let first =
        Owned-same (claims_db d ++ (claims_dbs before ++ claims_dbs ds)) o
          (λ w. weigh-moved w (claims_dbs before) (claims_db d) (claims_dbs ds)) in
      let after = run_tick-AllOwned h fresh s first in
      both_ways Owning (has_work d) _ _
        (outcome_ways Owning (run_tick h s).0 (length t.after == length ds) _ _ _ _
          (pass_from-Owned cleaned n (t.before ++ t.db ∷ []) t.after t.lua true
            (passed t.before t.after t.db t.lua after))
          (left-Owned t after) (left-Owned t after) (left-Owned t after))
        (both_ways Owning d.gced _ _
          (pass_from-Owned cleaned n before ds l unready (
            Owned-part (claims_dbs before ++ claims_dbs ds) (claims_db d) first
              (λ w. weigh-append w (claims_db d) (claims_dbs before ++ claims_dbs ds))))
          (pass_from-Owned cleaned n (before ++ d ∷ []) ds l unready (passed before ds d l first)))

  asked-Owned :
      (a : ℕ) (f : Db C × Lua N → Db C × Lua N) (dbs : List (Db C)) (l : Lua N)
      → KeepsOwned h fresh f
      → DbsOwned dbs l
      → let x = at_address h a f dbs l in DbsOwned x.0 x.1
  asked-Owned a f dbs l k o =
      let x = at_address h a f dbs l in
      Owned-same (claims_dbs x.0)
        (at_address-Owned h fresh a f dbs l [] k (
          Owned-same (claims_dbs dbs ++ []) o
            (λ w. omega (arith, weigh-append w (claims_dbs dbs) []))))
        (λ w. omega (arith, weigh-append w (claims_dbs x.0) []))

  command_outside-Owned :
      (c : Command) (dbs : List (Db C)) (l : Lua N)
      → DbsOwned dbs l
      → let x = command_outside h false c (dbs, l) in DbsOwned x.0 x.1
  command_outside-Owned (submit a r) dbs l o =
      asked-Owned a (method_at h false r) dbs l (method_at-Owned h fresh false r) o
  command_outside-Owned (connect host user passwd dbname port) dbs l o =
      let x = mysql_connect h host user passwd dbname port _ l in
      joined dbs (x.1 ∷ []) x.2 (
        Owned-same (claims_dbs dbs ++ claims_dbs (x.1 ∷ []))
          (mysql_connect-Owned h fresh host user passwd dbname port _ l (claims_dbs dbs) o)
          (λ w. omega (
            arith,
            weigh-append w (claims_db x.1) (claims_dbs dbs),
            weigh-append w (claims_dbs dbs) (claims_dbs (x.1 ∷ [])),
            weigh-append w (claims_db x.1) [],
          )))
  command_outside-Owned (collect a) dbs l o =
      asked-Owned a (collected h false) dbs l (collected-Owned h fresh false) o

  -- If luaL_ref hands out keys that are not in use, then in every state that the module can get into,
  -- whatever Lua code does in its callbacks and between the ticks, the registry holds for each queued
  -- action and each at work the two functions and the object of one promise, and the table of its rows
  -- if it has one, and for each open database the weak table and the userdata that it refers to; and
  -- no two of these references are the same.
  pub Reachable-Owned :
      {dbs : List (Db C)} {l : Lua N} → Reachable h dbs l → Owned l.registry (claims_dbs dbs)
  unfolding run_tick_hook tick_hook_tick
  Reachable-Owned (loaded l) = record { met = refl; apart = λ k. omega arith }
  Reachable-Owned (after_command {dbs} {l} c r) = command_outside-Owned c dbs l (Reachable-Owned r)
  Reachable-Owned (after_tick {dbs} {l} r) =
      pass_from-Owned false (length dbs) [] dbs l false (Reachable-Owned r)
