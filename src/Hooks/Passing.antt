-- ===== src/Hooks/Passing.antt =====
-- What a pass of the tick hook does to the open databases, as a relation: it ticks one with work to do,
-- or deletes one that was collected and has none.
use gluamysql.Base.{
  ℕ, zero, suc, ◌≡◌, refl, sym, subst, append-nil, Bool, true, false, List, [], ◌∷◌, ◌++◌, length,
  ◌==◌, append_assoc,
}
use gluamysql.Lua.{Lua}
use gluamysql.Host.{Host}
use gluamysql.Database.{Db}
use gluamysql.Machine.{State}
use gluamysql.Tick.{run_tick}
use gluamysql.Hooks.{has_work, Pass, pass_from, tick_hook_tick}
use gluamysql.Hooks.Cases.{outcome_ways}

module _ {C N : Type 0} (h : Host C N) (cleaned : Bool) where
  -- The state in which the database between the others is at work.
  abbrev pub at_one : List (Db C) → Db C → List (Db C) → Lua N → State C N
  at_one before d after l = record {
    db = d;
    before = before;
    after = after;
    lua = l;
    cleaned = cleaned;
  }

  abbrev pub after_one : List (Db C) → Db C → List (Db C) → Lua N → State C N
  after_one before d after l = (run_tick h (at_one before d after l)).1

  abbrev pub all_of : State C N → List (Db C)
  all_of t = t.before ++ t.db ∷ t.after

  -- From these databases to those, with the Lua state.
  pub data Passing : List (Db C) → Lua N → List (Db C) → Lua N → Type 0 where
    stays : (ds : List (Db C)) (l : Lua N) → Passing ds l ds l
    deletes :
        (before after : List (Db C)) (d : Db C) {l m : Lua N} {es : List (Db C)}
        → has_work d ≡ false
        → d.gced ≡ true
        → Passing (before ++ after) l es m
        → Passing (before ++ d ∷ after) l es m
    ticks_one :
        (before after : List (Db C)) (d : Db C) {l m : Lua N} {es : List (Db C)}
        → has_work d ≡ true
        → Passing (all_of (after_one before d after l)) (after_one before d after l).lua es m
        → Passing (before ++ d ∷ after) l es m

  pub Passing-trans :
      {ds es fs : List (Db C)} {l m n : Lua N}
      → Passing ds l es m
      → Passing es m fs n
      → Passing ds l fs n
  Passing-trans (stays _ _) q = q
  Passing-trans (deletes before after d e g p) q = deletes before after d e g (Passing-trans p q)
  Passing-trans (ticks_one before after d e p) q = ticks_one before after d e (Passing-trans p q)

  -- To that which a pass leaves.
  abbrev pub To : List (Db C) → Lua N → Pass C N → Type 0
  To ds l p = Passing ds l p.dbs p.lua

  two_ways :
      (P : Pass C N → Type 0) (w : Bool) (x y : Pass C N)
      → (w ≡ true → P x)
      → (w ≡ false → P y)
      → P (elim w as (λ _. Pass C N) [ true ↦ x | false ↦ y ])
  two_ways P true x y f g = f refl
  two_ways P false x y f g = g refl

  To-snoc :
      (before ds : List (Db C)) (d : Db C) (l : Lua N) {es : List (Db C)} {m : Lua N}
      → Passing ((before ++ d ∷ []) ++ ds) l es m
      → Passing (before ++ d ∷ ds) l es m
  To-snoc before ds d l {es} {m} = subst (λ xs. Passing xs l es m) (append_assoc before (d ∷ []) ds)

  pass_from-Passing :
      (n : ℕ) (before ds : List (Db C)) (l : Lua N) (unready : Bool)
      → To (before ++ ds) l (pass_from h cleaned n before ds l unready)
  unfolding pass_from
  pass_from-Passing zero before ds l unready = stays (before ++ ds) l
  pass_from-Passing (suc n) before [] l unready =
      subst (λ es. Passing es l before l) (sym (append-nil before)) (stays before l)
  pass_from-Passing (suc n) before (d ∷ ds) l unready =
      let t : State C N = (run_tick h (at_one before d ds l)).1 in
      let stop = stays (t.before ++ t.db ∷ t.after) t.lua in
      two_ways (To (before ++ d ∷ ds) l) (has_work d) _ _
        (λ w.
          outcome_ways (To (before ++ d ∷ ds) l) (run_tick h (at_one before d ds l)).0
            (length t.after == length ds) _ _ _ _
            (ticks_one before ds d w (
              To-snoc t.before t.after t.db t.lua
                (pass_from-Passing n (t.before ++ t.db ∷ []) t.after t.lua true)))
            (ticks_one before ds d w stop) (ticks_one before ds d w stop)
            (ticks_one before ds d w stop))
        (λ w.
          two_ways (To (before ++ d ∷ ds) l) d.gced _ _
            (λ g. deletes before ds d w g (pass_from-Passing n before ds l unready))
            (λ g. To-snoc before ds d l (pass_from-Passing n (before ++ d ∷ []) ds l unready)))

  -- A pass of the hook does nothing else, however it ends.
  pub tick_hook_tick-Passing :
      (ds : List (Db C)) (l : Lua N) → To ds l (tick_hook_tick h cleaned ds l)
  unfolding tick_hook_tick
  tick_hook_tick-Passing ds l = pass_from-Passing (length ds) [] ds l false
