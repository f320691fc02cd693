-- ===== src/Hooks/AtEnd.antt =====
-- What the shutdown hook does until it comes to its end, and what it closes.
use gluamysql.Base.{
  ℕ, zero, suc, ◌<◌, ◌≡◌, refl, ap, subst, ◌∙◌, Bool, true, false, Option, some, List, [], ◌∷◌, map,
  arith,
}
use gluamysql.Lua.{Lua}
use gluamysql.Host.{Host}
use gluamysql.Database.{Db}
use gluamysql.Machine.{Outcome, done, raised, undefined}
use gluamysql.Hooks.{
  Pass, Closing, close_all, tick_hook_tick, finish_remaining, then_close, run_shutdown_hook,
}
use gluamysql.Hooks.Shutdown.{
  AllIdle, kept_open, tick_hook_tick-idle, handles, statements, all_statements, is_cleaned,
  close_all-once,
}
use gluamysql.Hooks.Finished.{is_ready, tick_hook_tick-AllIdle}
use gluamysql.Hooks.Passing.{Passing, Passing-trans, tick_hook_tick-Passing}

abbrev pub AllUncollected : {C : Type 0} → List (Db C) → Type 0
AllUncollected [] = Unit {0}
AllUncollected (d ∷ ds) = (d.gced ≡ false) × AllUncollected ds

abbrev pub returns : Outcome Bool → Bool
returns (done _) = true
returns raised = false
returns undefined = false

module _ {C : Type 0} where
  kept_open-AllIdle : (ds : List (Db C)) → AllIdle ds → AllIdle (kept_open ds)
  kept_open-AllIdle [] p = tt
  kept_open-AllIdle (d ∷ ds) (e, p) = ground (arith, e, kept_open-AllIdle ds p)

  kept_open-AllUncollected : (ds : List (Db C)) → AllUncollected (kept_open ds)
  kept_open-AllUncollected [] = tt
  kept_open-AllUncollected (d ∷ ds) = ground (arith, kept_open-AllUncollected ds)

returns_ways :
    {Q : Type 0} (o : Outcome Bool)
    → returns o ≡ true
    → (o ≡ done true → Q)
    → (o ≡ done false → Q)
    → Q
returns_ways (done true) e f g = f refl
returns_ways (done false) e f g = g refl
returns_ways raised e f g = cc
returns_ways undefined e f g = cc

module _ {C N : Type 0} (h : Host C N) (cleaned : Bool) where
  -- Each of so many passes over the open databases returns, and then no database has work to do.
  abbrev pub EndsAfter : ℕ → List (Db C) → Lua N → Type 0
  EndsAfter zero ds l = AllIdle ds
  EndsAfter (suc n) ds l =
      let p = tick_hook_tick h cleaned ds l in (returns p.outcome ≡ true) × EndsAfter n p.dbs p.lua

  abbrev pub after_pass : ℕ → Pass C N → Option (Pass C N)
  after_pass k p = elim p.outcome [
    | done b ↦ elim b [ true ↦ some p | false ↦ finish_remaining h cleaned k p.dbs p.lua ]
    | raised ↦ some p
    | undefined ↦ some p
  ]

  -- What the first loop leaves.
  pub record Left (ds : List (Db C)) (l : Lua N) (p : Pass C N) : Type 0 where
    pub is_done : p.outcome ≡ done true
    pub passes : Passing h cleaned ds l p.dbs p.lua
    pub idle : AllIdle p.dbs
    pub uncollected : AllUncollected p.dbs

  abbrev LoopEnds : ℕ → List (Db C) → Lua N → Type 0
  LoopEnds k ds l = (p : Pass C N) × (finish_remaining h cleaned k ds l ≡ some p) × Left ds l p

  idle-LoopEnds : (k : ℕ) (ds : List (Db C)) (l : Lua N) → AllIdle ds → LoopEnds (suc k) ds l
  unfolding finish_remaining
  idle-LoopEnds k ds l p =
      let e = tick_hook_tick-idle h cleaned ds l p in
      (
        record { outcome = done true; dbs = kept_open ds; lua = l },
        ap (after_pass k) e,
        record {
          is_done = refl;
          passes =
              subst (λ q. Passing h cleaned ds l q.dbs q.lua) e
                (tick_hook_tick-Passing h cleaned ds l);
          idle = kept_open-AllIdle ds p;
          uncollected = kept_open-AllUncollected ds;
        },
      )

  after_pass-false :
      (k : ℕ) (p : Pass C N)
      → p.outcome ≡ done false
      → after_pass k p ≡ finish_remaining h cleaned k p.dbs p.lua
  after_pass-false k p e = rw e refl

  finish_remaining-LoopEnds :
      (n k : ℕ) (ds : List (Db C)) (l : Lua N) → n < k → EndsAfter n ds l → LoopEnds k ds l
  unfolding finish_remaining
  finish_remaining-LoopEnds n zero ds l q e = absurd (omega arith)
  finish_remaining-LoopEnds zero (suc k) ds l q e = idle-LoopEnds k ds l e
  finish_remaining-LoopEnds (suc n) (suc k) ds l q (e, es) =
      let p = tick_hook_tick h cleaned ds l in
      returns_ways p.outcome e
        (λ r.
          idle-LoopEnds k ds l
            (tick_hook_tick-AllIdle h cleaned ds l (record { is_true = ap is_ready r })))
        (λ r.
          let (t, f, left) = finish_remaining-LoopEnds n k p.dbs p.lua (omega arith) es in
          (
            t,
            after_pass-false k p r ∙ f,
            record {
              is_done = left.is_done;
              passes = Passing-trans h cleaned (tick_hook_tick-Passing h cleaned ds l) left.passes;
              idle = left.idle;
              uncollected = left.uncollected;
            },
          ))

  -- The hook comes to its end: what its first loop left, what it then closed, and the flag.
  pub record Closed (fuel : ℕ) (ds : List (Db C)) (l : Lua N) : Type 0 where
    pub pass : Pass C N
    pub closings : List (Closing C)
    pub flag : Bool
    pub comes : run_shutdown_hook h cleaned fuel ds l ≡ some (pass, closings, flag)
    pub left : Left ds l pass
    pub all_handles : handles closings ≡ map (λ (d : Db C). d.instance) pass.dbs
    pub all_stmts : statements closings ≡ all_statements pass.dbs
    pub flagged : flag ≡ is_cleaned cleaned pass.dbs

  -- If each of so many passes over the open databases returns, and no database has work to do after
  -- them, then the shutdown hook, with more rounds than that, comes to its end. Until then it has done
  -- nothing but to tick databases that had work to do and to delete databases that were collected and
  -- had none. None of those left has work to do or was collected, and the hook closes the connection
  -- of each, once, in their order, with the statements that they list; if there is one, the flag
  -- `HasCleanedUpAlready` is set then.
  pub run_shutdown_hook-Closed :
      (n fuel : ℕ) (ds : List (Db C)) (l : Lua N) → n < fuel → EndsAfter n ds l → Closed fuel ds l
  unfolding run_shutdown_hook
  run_shutdown_hook-Closed n fuel ds l q e =
      let (p, f, left) = finish_remaining-LoopEnds n fuel ds l q e in
      let (a, b, c) = close_all-once cleaned p.dbs in
      record {
        pass = p;
        closings = (close_all cleaned p.dbs).0;
        flag = (close_all cleaned p.dbs).1;
        comes = ap (then_close h cleaned) f ∙ rw left.is_done refl;
        left = left;
        all_handles = a;
        all_stmts = b;
        flagged = c;
      }
