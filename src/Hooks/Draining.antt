-- ===== src/Hooks/Draining.antt =====
-- The shutdown hook finishes the calls that wait on the one database that is open.
use gluamysql.Base.{
  ℕ, zero, suc, ◌<◌, ◌≡◌, refl, ap, sym, ◌∙◌, Bool, true, false, Bool-cases, inl, inr, Option, none,
  some, List, [], ◌∷◌, ◌++◌, map, arith, if◌then◌else◌,
}
use gluamysql.Lua.{Lua, Event}
use gluamysql.Host.{Host, FreshKeys, Reaction}
use gluamysql.Action.{Action}
use gluamysql.Database.{Db, Channel}
use gluamysql.Machine.{State, Outcome, done, raised, undefined, M}
use gluamysql.Machine.Quiet.{Quiet, bind_done}
use gluamysql.Tick.{run_tick}
use gluamysql.Tick.Once.{unpin-done}
use gluamysql.Tick.Serving.{queued, on_channel}
use gluamysql.Tick.Drain.{Asked, action, AllAnswered, AllPlain, ticks, verdicts, log_after}
use gluamysql.Hooks.{
  has_work, Pass, Closing, close_all, pass_from, tick_hook_tick, finish_remaining, then_close,
  run_shutdown_hook,
}
use gluamysql.Hooks.Shutdown.{tick_hook_tick-idle, handles, statements, close_all-once}
use gluamysql.Hooks.Finished.{worked}
use gluamysql.Hooks.AtEnd.{after_pass}
use gluamysql.Hooks.Passing.{at_one}
use gluamysql.Hooks.Reach.{Reachable, with_react}
use gluamysql.Hooks.Worked.{Renumbered, Reachable-WorkedOff}
use gluamysql.Hooks.Alone.{busy_by, run_tick-Alone, run_tick-idle, run_tick-StaysIdle}

module _ {C N : Type 0} (h : Host C N) (cleaned : Bool) where
  -- The state in which this database is the only one that is open.
  abbrev pub only : Db C → Lua N → State C N
  only d l = at_one h cleaned [] d [] l

  only_lem :
      (t : State C N) → t.before ≡ [] → t.after ≡ [] → t.cleaned ≡ cleaned → t ≡ only t.db t.lua
  only_lem t e f g i = record { db = t.db; before = e i; after = f i; lua = t.lua; cleaned = g i }

  ticks-idle : (n : ℕ) (s : State C N) → has_work s.db ≡ false → (ticks h n s).1.lua.log ≡ s.lua.log
  ticks-idle zero s e = refl
  ticks-idle (suc n) s e =
      let t : State C N = (run_tick h s).1 in
      let x = run_tick-StaysIdle h s e in
      let returned : (run_tick h s).0 ≡ done tt =
        ap (λ x. x.0) (run_tick-idle h s e) ∙ unpin-done h s in
      ap (λ (x : Outcome (Unit {0}) × State C N). x.1.lua.log)
        (bind_done (run_tick h) (λ _. ticks h n) s t tt (λ i. (returned i, t)))
      ∙ ticks-idle n t x.idle
      ∙ x.same_log

  was_done :
      (r : Outcome (Unit {0})) (t : State C N) (k : M C N (Unit {0}))
      → (elim r as (λ _. Outcome (Unit {0}) × State C N) [
        | done a ↦ k t
        | raised ↦ (raised, t)
        | undefined ↦ (undefined, t)
      ]).0
        ≡ done tt
      → r ≡ done tt
  was_done (done a) t k e = refl
  was_done raised t k e = cc
  was_done undefined t k e = cc

  abbrev passed : List (Db C) → Lua N → Pass C N
  passed ds l = record { outcome = done true; dbs = ds; lua = l }

  -- A pass over the only database, which has work to do.
  tick_hook_tick-only :
      (d e : Db C) (l m : Lua N)
      → has_work d ≡ true
      → run_tick h (only d l) ≡ (done tt, only e m)
      → tick_hook_tick h cleaned (d ∷ []) l ≡ record { outcome = done false; dbs = e ∷ []; lua = m }
  unfolding tick_hook_tick pass_from
  tick_hook_tick-only d e l m w r =
      let first : tick_hook_tick h cleaned (d ∷ []) l
          ≡ worked h cleaned 0 [] (run_tick h (only d l)) =
        rw (pass_from, w) refl in
      first ∙ ap (worked h cleaned 0 []) r

  tick_hook_tick-only_idle :
      (d : Db C) (l : Lua N)
      → has_work d ≡ false
      → d.gced ≡ false
      → tick_hook_tick h cleaned (d ∷ []) l ≡ record { outcome = done true; dbs = d ∷ []; lua = l }
  tick_hook_tick-only_idle d l e g =
      tick_hook_tick-idle h cleaned (d ∷ []) l (e, tt)
      ∙ ap (λ b. passed (if b then [] else d ∷ []) l) g

  -- The first loop of the hook is left with a database that has nothing to do.
  pub record Drained (fuel n : ℕ) (d : Db C) (l : Lua N) : Type 0 where
    pub last : Db C
    pub lua : Lua N
    pub comes :
        finish_remaining h cleaned fuel (d ∷ []) l
        ≡ some (record { outcome = done true; dbs = last ∷ []; lua = lua })
    pub same_log : lua.log ≡ (ticks h n (only d l)).1.lua.log
    pub same_address : last.address ≡ d.address

  idle-Drained :
      (k n : ℕ) (d : Db C) (l : Lua N) → has_work d ≡ false → d.gced ≡ false → Drained (suc k) n d l
  unfolding finish_remaining
  idle-Drained k n d l e g = record {
    last = d;
    lua = l;
    comes = ap (after_pass h cleaned k) (tick_hook_tick-only_idle d l e g);
    same_log = sym (ticks-idle n (only d l) e);
    same_address = refl;
  }

module _ {C N : Type 0} (h : Host C N) (quiet : Quiet h) (cleaned : Bool) where
  abbrev Drains : ℕ → ℕ → Db C → Lua N → Type 0
  Drains fuel n d l =
      n < fuel
      → (ticks h n (only h cleaned d l)).0 ≡ done tt
      → has_work (ticks h n (only h cleaned d l)).1.db ≡ false
      → d.gced ≡ false
      → Drained h cleaned fuel n d l

  worked-Drained :
      (k n : ℕ) (d : Db C) (l : Lua N)
      → ((m : ℕ) (e : Db C) (v : Lua N) → Drains k m e v)
      → has_work d ≡ true
      → Drains (suc k) n d l
  unfolding finish_remaining
  worked-Drained k zero d l rest w q e i g = absurd cc
  worked-Drained k (suc n) d l rest w q e i g =
      let s = only h cleaned d l in
      let t : State C N = (run_tick h s).1 in
      let a = run_tick-Alone h quiet s in
      let returned = was_done h cleaned (run_tick h s).0 t (ticks h n) e in
      let same = only_lem h cleaned t a.same_before a.same_after a.same_cleaned in
      let ticked : run_tick h s ≡ (done tt, only h cleaned t.db t.lua) =
        λ j. (returned j, same j) in
      let later = bind_done (run_tick h) (λ _. ticks h n) s (only h cleaned t.db t.lua) tt ticked in
      let x =
        rest n t.db t.lua (omega arith) (sym (ap (λ y. y.0) later) ∙ e)
          (ap (λ (y : Outcome (Unit {0}) × State C N). has_work y.1.db) (sym later) ∙ i)
          (a.same_gced ∙ g) in
      record {
        last = x.last;
        lua = x.lua;
        comes =
            ap (after_pass h cleaned k) (tick_hook_tick-only h cleaned d t.db l t.lua w ticked)
            ∙ x.comes;
        same_log =
            x.same_log ∙ ap (λ (y : Outcome (Unit {0}) × State C N). y.1.lua.log) (sym later);
        same_address = x.same_address ∙ a.same_address;
      }

  pub finish_remaining-Drained : (fuel n : ℕ) (d : Db C) (l : Lua N) → Drains fuel n d l
  finish_remaining-Drained zero n d l q e i g = absurd (omega arith)
  finish_remaining-Drained (suc k) n d l q e i g = elim (Bool-cases (has_work d)) [
    | inl w ↦ worked-Drained k n d l (finish_remaining-Drained k) w q e i g
    | inr w ↦ idle-Drained h cleaned k n d l w g
  ]

busy_none : (o : Option Action) (q : List Action) → o ≡ none → q ≡ [] → busy_by o q ≡ false
busy_none none [] e f = refl
busy_none none (a ∷ q) e f = cc
busy_none (some a) q e f = cc

module _ {C N : Type 0} (h : Host C N) (fresh : FreshKeys h) (quiet : Quiet h) where
  -- The hook came to its end with the promises of these calls settled, by what the calls wrote, in
  -- their order, and the connection was closed once, with the statements that the database lists.
  pub record Finishes (fuel : ℕ) (items : List Asked) (outs : List (ℕ × C)) (d : Db C) (l : Lua N)
      : Type 0 where
    pub numbered : Renumbered items l.registry
    pub last : Db C
    pub lua : Lua N
    pub closings : List (Closing C)
    pub comes :
        run_shutdown_hook h false fuel (d ∷ []) l
        ≡ some (record { outcome = done true; dbs = last ∷ []; lua = lua }, closings, true)
    pub settled : lua.log ≡ log_after h quiet (verdicts h quiet numbered.numbered outs) l.log
    pub same_address : last.address ≡ d.address
    pub all_handles : handles closings ≡ last.instance ∷ []
    pub all_stmts : statements closings ≡ last.stmts ++ []

  none_left : (s : State C N) → s.db.current_action ≡ none → s.db.queue ≡ [] → has_work s.db ≡ false
  unfolding has_work
  none_left s e f = busy_none s.db.current_action s.db.queue e f

  -- In any state that the module can get into, whatever Lua code did before, with one database open that
  -- was not collected, with plain calls queued and nothing at work: if the client answers them after so
  -- many ticks, and from then on Lua code asks nothing of the module and raises no error, then the
  -- shutdown hook, with more rounds than that, comes to its end. The promise that the registry has for
  -- each call has then been settled once, by what the call wrote, in the order of the queue, and the
  -- connection is closed once, with the statements that the database lists. `luaL_ref` picks keys that
  -- are not in use.
  pub run_shutdown_hook-Finishes :
      (past : List (Event N) → Reaction) (items : List Asked) (db : Db C) (l : Lua N)
      (c : Channel C) {d : Channel C} {n : ℕ} {outs : List (ℕ × C)} (fuel : ℕ)
      → let s = queued (map action items) (on_channel c (only h false db l)) in
        Reachable (with_react h past) (s.db ∷ []) l
        → db.gced ≡ false
        → AllAnswered h items c n outs d
        → AllPlain items
        → n < fuel
        → Finishes fuel items outs s.db l
  unfolding run_shutdown_hook close_all
  run_shutdown_hook-Finishes past items db l c {d} {n} {outs} fuel r g w p q =
      let s = queued (map action items) (on_channel c (only h false db l)) in
      let (x, y) = Reachable-WorkedOff h fresh quiet past items (only h false db l) r w p in
      let z =
        finish_remaining-Drained h quiet false fuel n s.db l q y.returns
          (none_left (ticks h n s).1 y.none_at_work y.none_waits) g in
      let once = close_all-once false (z.last ∷ []) in
      record {
        numbered = x;
        last = z.last;
        lua = z.lua;
        closings = (close_all false (z.last ∷ [])).0;
        comes = ap (then_close h false) z.comes;
        settled = z.same_log ∙ y.settled;
        same_address = z.same_address;
        all_handles = once.0;
        all_stmts = once.1;
      }
