-- ===== src/Hooks/Reach.antt =====
-- The states that the module can get into: what Lua code does from outside, and what the tick hook
-- does.
use gluamysql.Base.{ℕ, zero, suc, Bool, true, false, List, [], ◌∷◌, ◌++◌, length, ◌==◌, map}
use gluamysql.Lua.{Lua, Event}
use gluamysql.Host.{Host, Reaction, Command, submit, connect, collect}
use gluamysql.Database.{Db}
use gluamysql.Library.{mysql_connect}
use gluamysql.Machine.{State, at_address, method_at, collected}
use gluamysql.Machine.Pinned.{
  AllPinned, AllPinned-append, StatePinned, at_address-AllPinned, call_method-IsPinned,
  collected-IsPinned, mysql_connect-IsPinned,
}
use gluamysql.Tick.{run_tick}
use gluamysql.Tick.Held.{run_tick-StatePinned}
use gluamysql.Hooks.Cases.{both_ways, outcome_ways}
use gluamysql.Hooks.{has_work, Pass, pass_from, tick_hook_tick, run_tick_hook}

-- The same module, where Lua code answers in another way.
abbrev pub with_react : {C N : Type 0} → Host C N → (List (Event N) → Reaction) → Host C N
with_react h react = record h { react = react }

abbrev Pinning : {C N : Type 0} → Pass C N → Type 0
Pinning p = AllPinned p.dbs

module _ {C N : Type 0} (h : Host C N) where
  -- A command of Lua code while no database is at work in the tick hook.
  abbrev pub command_outside : Bool → Command → List (Db C) × Lua N → List (Db C) × Lua N
  command_outside cleaned (submit a r) (dbs, l) = at_address h a (method_at h cleaned r) dbs l
  command_outside cleaned (connect host user passwd dbname port) (dbs, l) =
      let (_, d, l') =
        mysql_connect h host user passwd dbname port
          (h.fresh_address (map (λ (d : Db C). d.address) dbs)) l in
      (dbs ++ d ∷ [], l')
  command_outside cleaned (collect a) (dbs, l) = at_address h a (collected h cleaned) dbs l

  -- From the load of the module on: no database is open, and then commands of Lua code and ticks of
  -- the game follow in any order, also after a tick that a Lua error ended.
  pub data Reachable : List (Db C) → Lua N → Type 0 where
    loaded : (l : Lua N) → Reachable [] l
    after_command :
        {dbs : List (Db C)} {l : Lua N} (c : Command)
        → Reachable dbs l
        → Reachable (command_outside false c (dbs, l)).0 (command_outside false c (dbs, l)).1
    after_tick :
        {dbs : List (Db C)} {l : Lua N}
        → Reachable dbs l
        → Reachable (run_tick_hook h false dbs l).1 (run_tick_hook h false dbs l).2

  left-AllPinned : {s : State C N} → StatePinned s → AllPinned (s.before ++ s.db ∷ s.after)
  left-AllPinned {s} p = AllPinned-append s.before _ p.behind (p.at_work, p.ahead)

  pass_from-AllPinned :
      (cleaned : Bool) (n : ℕ) (before ds : List (Db C)) (l : Lua N) (unready : Bool)
      → AllPinned before
      → AllPinned ds
      → AllPinned (pass_from h cleaned n before ds l unready).dbs
  unfolding pass_from
  pass_from-AllPinned cleaned zero before ds l unready p q = AllPinned-append before ds p q
  pass_from-AllPinned cleaned (suc n) before [] l unready p q = p
  pass_from-AllPinned cleaned (suc n) before (d ∷ ds) l unready p (q, qs) =
      let s : State C N = record {
        db = d;
        before = before;
        after = ds;
        lua = l;
        cleaned = cleaned;
      } in
      let t : State C N = (run_tick h s).1 in
      let w = run_tick-StatePinned h s (record { at_work = q; behind = p; ahead = qs }) in
      both_ways Pinning (has_work d) _ _
        (outcome_ways Pinning (run_tick h s).0 (length t.after == length ds) _ _ _ _
          (pass_from-AllPinned cleaned n (t.before ++ t.db ∷ []) t.after t.lua true
            (AllPinned-append t.before _ w.behind (w.at_work, tt)) w.ahead)
          (left-AllPinned w) (left-AllPinned w) (left-AllPinned w))
        (both_ways Pinning d.gced _ _ (pass_from-AllPinned cleaned n before ds l unready p qs) (
          pass_from-AllPinned cleaned n (before ++ d ∷ []) ds l unready
            (AllPinned-append before _ p (q, tt)) qs))

  command_outside-AllPinned :
      (c : Command) (dbs : List (Db C)) (l : Lua N)
      → AllPinned dbs
      → AllPinned (command_outside false c (dbs, l)).0
  unfolding method_at
  command_outside-AllPinned (submit a r) dbs l p =
      at_address-AllPinned h a (method_at h false r) dbs l (call_method-IsPinned h false r) p
  command_outside-AllPinned (connect host user passwd dbname port) dbs l p =
      AllPinned-append dbs _ p (mysql_connect-IsPinned h host user passwd dbname port _ l, tt)
  command_outside-AllPinned (collect a) dbs l p =
      at_address-AllPinned h a (collected h false) dbs l (collected-IsPinned h false) p

  -- In every state that the module can get into, whatever Lua code does in its callbacks and between
  -- the ticks, every open database with work to do is held by the registry or was collected.
  pub Reachable-AllPinned : {dbs : List (Db C)} {l : Lua N} → Reachable dbs l → AllPinned dbs
  unfolding run_tick_hook tick_hook_tick
  Reachable-AllPinned (loaded l) = tt
  Reachable-AllPinned (after_command {dbs} {l} c r) =
      command_outside-AllPinned c dbs l (Reachable-AllPinned r)
  Reachable-AllPinned (after_tick {dbs} {l} r) =
      pass_from-AllPinned false (length dbs) [] dbs l false tt (Reachable-AllPinned r)
