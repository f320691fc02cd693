-- ===== src/Hooks.antt =====
-- src/main.cpp: the tick hook over all open databases, and the shutdown hook.
pub mod Shutdown
pub mod Loader
pub mod Finished
pub mod AtEnd
pub mod Cases
pub mod Reach
pub mod Owned
pub mod Served
pub mod Worked
pub mod Alone
pub mod Draining
pub mod Passing
pub mod Raising
pub mod Held
use gluamysql.Base.{
  ℕ, zero, suc, Bool, true, false, not, Option, none, some, List, [], ◌∷◌, ◌++◌, ◌==◌, length,
}
use gluamysql.Lua.{Lua}
use gluamysql.Host.{Host}
use gluamysql.Database.{Db}
use gluamysql.Machine.{Outcome, done, raised, undefined}
use gluamysql.Tick.{run_tick}

-- `current_action != nullptr || queue.size() > 0`
unfoldable pub has_work : {C : Type 0} → Db C → Bool
has_work db = elim db.current_action [
  | some _ ↦ true
  | none ↦ elim db.queue [ [] ↦ false | _ ∷ _ ↦ true ]
]

-- What a pass over `open_databases` leaves, and whether it found nothing to do.
pub record Pass (C N : Type 0) : Type 0 where
  pub outcome : Outcome Bool
  pub dbs : List (Db C)
  pub lua : Lua N

-- The calls that close what is left at the end.
pub data Closing (C : Type 0) : Type 0 where
  stmt_closed : ℕ → Closing C
  closed : C → Closing C

module _ {C : Type 0} where
  unfoldable pub close_stmts : List ℕ → List (Closing C)
  close_stmts [] = []
  close_stmts (x ∷ xs) = stmt_closed x ∷ close_stmts xs

  -- The second loop of `ShutdownHook`, which erases every database, and the flag
  -- `HasCleanedUpAlready`, which each round sets.
  unfoldable pub close_all : Bool → List (Db C) → List (Closing C) × Bool
  unfolding close_stmts
  close_all flag [] = ([], flag)
  close_all flag (d ∷ ds) =
      let (cs, b) = close_all true ds in (close_stmts d.stmts ++ closed d.instance ∷ cs, b)

module _ {C N : Type 0} (h : Host C N) (cleaned : Bool) where
  -- The loop of `TickHookTick` at its iterator: `before` is behind it, `todo` from it on. A database
  -- that Lua code opens meanwhile goes to the end of the deque, which makes the iterator invalid.
  unfoldable pub pass_from : ℕ → List (Db C) → List (Db C) → Lua N → Bool → Pass C N
  unfolding has_work run_tick
  pass_from zero before todo l unready = record {
    outcome = done (not unready);
    dbs = before ++ todo;
    lua = l;
  }
  pass_from (suc n) before [] l unready = record {
    outcome = done (not unready);
    dbs = before;
    lua = l;
  }
  pass_from (suc n) before (d ∷ ds) l unready = elim (has_work d) [
    | true ↦
        (let (r, s) =
            run_tick h
              (record { db = d; before = before; after = ds; lua = l; cleaned = cleaned }) in
          elim r [
            | done _ ↦ elim (length s.after == length ds) [
              | true ↦ pass_from n (s.before ++ s.db ∷ []) s.after s.lua true
              | false ↦ record {
                outcome = undefined;
                dbs = s.before ++ s.db ∷ s.after;
                lua = s.lua;
              }
            ]
            | raised ↦ record { outcome = raised; dbs = s.before ++ s.db ∷ s.after; lua = s.lua }
            | undefined ↦ record {
              outcome = undefined;
              dbs = s.before ++ s.db ∷ s.after;
              lua = s.lua;
            }
          ])
    | false ↦ elim d.gced [
      | true ↦ pass_from n before ds l unready
      | false ↦ pass_from n (before ++ d ∷ []) ds l unready
    ]
  ]

  -- `TickHookTick`
  unfoldable pub tick_hook_tick : List (Db C) → Lua N → Pass C N
  unfolding pass_from
  tick_hook_tick dbs l = pass_from (length dbs) [] dbs l false

  -- `TickHook`, the function that the game calls, which returns nothing; a Lua error or what is
  -- undefined stays what it is.
  unfoldable pub run_tick_hook : List (Db C) → Lua N → Outcome (Unit {0}) × List (Db C) × Lua N
  unfolding tick_hook_tick
  run_tick_hook dbs l =
      let p = tick_hook_tick dbs l in
      (elim p.outcome [ done _ ↦ done tt | raised ↦ raised | undefined ↦ undefined ], p.dbs, p.lua)

  -- The first loop of `ShutdownHook` on fuel; `none` means that the fuel ran out.
  unfoldable pub finish_remaining : ℕ → List (Db C) → Lua N → Option (Pass C N)
  unfolding tick_hook_tick
  finish_remaining zero dbs l = none
  finish_remaining (suc n) dbs l =
      let p = tick_hook_tick dbs l in
      elim p.outcome [
        | done b ↦ elim b [ true ↦ some p | false ↦ finish_remaining n p.dbs p.lua ]
        | raised ↦ some p
        | undefined ↦ some p
      ]

  -- A Lua error leaves the function before anything is closed.
  abbrev pub close_after : Pass C N → Outcome Bool → Pass C N × List (Closing C) × Bool
  close_after p (done _) = let (cs, b) = close_all cleaned p.dbs in (p, cs, b)
  close_after p _ = (p, [], cleaned)

  abbrev pub then_close : Option (Pass C N) → Option (Pass C N × List (Closing C) × Bool)
  then_close none = none
  then_close (some p) = some (close_after p p.outcome)

  -- `ShutdownHook` on fuel: what its first loop leaves, the calls that close what is left then, and the
  -- flag `HasCleanedUpAlready`.
  unfoldable pub run_shutdown_hook :
      ℕ → List (Db C) → Lua N → Option (Pass C N × List (Closing C) × Bool)
  unfolding finish_remaining close_all
  run_shutdown_hook fuel dbs l = then_close (finish_remaining fuel dbs l)
