-- ===== src/Hooks/Shutdown.antt =====
-- A pass of the tick hook that finds nothing to do, and the loop that waits for one.
use gluamysql.Base.{
  ℕ, ◌≡◌, refl, ap, ◌∙◌, Bool, true, false, List, [], ◌∷◌, ◌++◌, length, append_assoc,
  if◌then◌else◌, map,
}
use gluamysql.Lua.{Lua}
use gluamysql.Host.{Host}
use gluamysql.Database.{Db}
use gluamysql.Machine.{done}
use gluamysql.Hooks.{
  has_work, Pass, Closing, stmt_closed, closed, close_stmts, close_all, pass_from, tick_hook_tick,
}

module _ {C : Type 0} where
  abbrev pub AllIdle : List (Db C) → Type 0
  AllIdle [] = Unit {0}
  AllIdle (d ∷ ds) = (has_work d ≡ false) × AllIdle ds

  -- The databases that have not been collected, in their order.
  abbrev pub kept_open : List (Db C) → List (Db C)
  kept_open [] = []
  kept_open (d ∷ ds) = if d.gced then kept_open ds else d ∷ kept_open ds

  -- The connections that are closed.
  abbrev pub handles : List (Closing C) → List C
  handles [] = []
  handles (stmt_closed x ∷ cs) = handles cs
  handles (closed c ∷ cs) = c ∷ handles cs

  abbrev pub statements : List (Closing C) → List ℕ
  statements [] = []
  statements (stmt_closed x ∷ cs) = x ∷ statements cs
  statements (closed c ∷ cs) = statements cs

  abbrev pub all_statements : List (Db C) → List ℕ
  all_statements [] = []
  all_statements (d ∷ ds) = d.stmts ++ all_statements ds

  handles-close_stmts :
      (xs : List ℕ) (cs : List (Closing C)) → handles (close_stmts xs ++ cs) ≡ handles cs
  unfolding close_stmts
  handles-close_stmts [] cs = refl
  handles-close_stmts (x ∷ xs) cs = handles-close_stmts xs cs

  statements-close_stmts :
      (xs : List ℕ) (cs : List (Closing C))
      → statements (close_stmts xs ++ cs) ≡ xs ++ statements cs
  unfolding close_stmts
  statements-close_stmts [] cs = refl
  statements-close_stmts (x ∷ xs) cs = ap (λ r. x ∷ r) (statements-close_stmts xs cs)

  -- Whether the flag is set behind the second loop.
  abbrev pub is_cleaned : Bool → List (Db C) → Bool
  is_cleaned flag [] = flag
  is_cleaned flag (d ∷ ds) = true

  is_cleaned-true : (ds : List (Db C)) → is_cleaned true ds ≡ true
  is_cleaned-true [] = refl
  is_cleaned-true (d ∷ ds) = refl

  -- At the end every connection and every listed statement is closed once, in the order of the
  -- databases.
  pub close_all-once :
      (flag : Bool) (ds : List (Db C))
      → (handles (close_all flag ds).0 ≡ map (λ (d : Db C). d.instance) ds)
        × (statements (close_all flag ds).0 ≡ all_statements ds)
        × ((close_all flag ds).1 ≡ is_cleaned flag ds)
  unfolding close_all
  close_all-once flag [] = (refl, refl, refl)
  close_all-once flag (d ∷ ds) =
      let (p, q, r) = close_all-once true ds in
      (
        handles-close_stmts d.stmts _ ∙ ap (λ r. d.instance ∷ r) p,
        statements-close_stmts d.stmts _ ∙ ap (λ r. d.stmts ++ r) q,
        r ∙ is_cleaned-true ds,
      )

module _ {C N : Type 0} (h : Host C N) (cleaned : Bool) where
  abbrev quiet_pass : List (Db C) → Lua N → Pass C N
  quiet_pass ds l = record { outcome = done true; dbs = ds; lua = l }

  either :
      (b : Bool) (x y : Pass C N) (before es fs : List (Db C)) (l : Lua N)
      → x ≡ quiet_pass (before ++ es) l
      → y ≡ quiet_pass (before ++ fs) l
      → elim b as (λ _. Pass C N) [ true ↦ x | false ↦ y ]
        ≡ quiet_pass (before ++ (if b then es else fs)) l
  either true x y before es fs l p q = p
  either false x y before es fs l p q = q

  pass_from-idle :
      (before ds : List (Db C)) (l : Lua N)
      → AllIdle ds
      → pass_from h cleaned (length ds) before ds l false
        ≡ record { outcome = done true; dbs = before ++ kept_open ds; lua = l }
  unfolding pass_from
  pass_from-idle before [] l p = refl
  pass_from-idle before (d ∷ ds) l (e, p) =
      rw (pass_from, e)
        (either d.gced _ _ before (kept_open ds) (d ∷ kept_open ds) l (pass_from-idle before ds l p)
          (pass_from-idle (before ++ d ∷ []) ds l p
            ∙ ap (λ r. quiet_pass r l) (append_assoc before (d ∷ []) (kept_open ds))))

  -- If no open database has work to do, a pass says so, deletes the collected ones, keeps the others
  -- in their order, and runs no Lua code.
  pub tick_hook_tick-idle :
      (ds : List (Db C)) (l : Lua N)
      → AllIdle ds
      → tick_hook_tick h cleaned ds l ≡ record { outcome = done true; dbs = kept_open ds; lua = l }
  unfolding tick_hook_tick
  tick_hook_tick-idle ds l p = pass_from-idle [] ds l p
