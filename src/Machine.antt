-- ===== src/Machine.antt =====
-- The state of the module while one of its databases is at work, and what a call into Lua code can
-- do to it: the code that a promise calls may call back into the module, and may raise an error,
-- which leaves every C++ function on the way out at once.
pub mod Growth
pub mod Pinned
pub mod Log
pub mod Quiet
use gluamysql.Base.{
  Option, ℕ, Bool, true, false, some, List, [], ◌∷◌, ◌++◌, map, ◌==◌, if◌then◌else◌,
}
use gluamysql.Lua.{Held, Ref, Lua, resolver, rejecter, Args, Event, rawgeti, is_unset}
use gluamysql.Host.{Host, Request, Command, submit, connect, collect}
use gluamysql.Database.{Db}
use gluamysql.Library.{call_method, mysql_connect, gc}

-- `open_databases` is `before`, then `db`, then `after`.
pub record State (C N : Type 0) : Type 0 where
  pub db : Db C
  pub before : List (Db C)
  pub after : List (Db C)
  pub lua : Lua N
  pub cleaned : Bool

-- How a C++ function ends: it returns, a Lua error leaves it, or its behaviour is undefined.
pub data Outcome (A : Type 0) : Type 0 where
  done : A → Outcome A
  raised undefined : Outcome A

abbrev pub M : Type 0 → Type 0 → Type 0 → Type 0
M C N A = State C N → Outcome A × State C N

module _ {C N : Type 0} where
  infixl 5 ◌>>=◌ ◌>>◌
  abbrev pub ◌>>=◌ : {A B : Type 0} → M C N A → (A → M C N B) → M C N B
  ◌>>=◌ m f s =
      let (r, s') = m s in
      elim r [ done a ↦ f a s' | raised ↦ (raised, s') | undefined ↦ (undefined, s') ]

  abbrev pub ◌>>◌ : {B : Type 0} → M C N (Unit {0}) → M C N B → M C N B
  m >> k = m >>= λ _. k

  abbrev pub pure : {A : Type 0} → A → M C N A
  pure a s = (done a, s)

  abbrev pub modify_db : (Db C → Db C) → M C N (Unit {0})
  modify_db f s = (done tt, record s { db = f s.db })

  abbrev pub modify_lua : (Lua N → Lua N) → M C N (Unit {0})
  modify_lua f s = (done tt, record s { lua = f s.lua })

  abbrev pub get_db : M C N (Db C)
  get_db s = (done s.db, s)

  abbrev pub get_lua : M C N (Lua N)
  get_lua s = (done s.lua, s)

module _ {C N : Type 0} (h : Host C N) where
  -- A method on the database at an address, if it is still there.
  unfoldable pub at_address :
      ℕ → (Db C × Lua N → Db C × Lua N) → List (Db C) → Lua N → List (Db C) × Lua N
  at_address a f [] l = ([], l)
  at_address a f (d ∷ ds) l = elim (d.address == a) [
    | true ↦ (let (d', l') = f (d, l) in (d' ∷ ds, l'))
    | false ↦ (let (ds', l') = at_address a f ds l in (d ∷ ds', l'))
  ]

  unfoldable pub on_address : ℕ → (Db C × Lua N → Db C × Lua N) → State C N → State C N
  unfolding at_address
  on_address a f s =
      if s.db.address == a
      then (let (d, l) = f (s.db, s.lua) in record s { db = d; lua = l })
      else (let (before, l) = at_address a f s.before s.lua in
          let (after, l') = at_address a f s.after l in
          record s { before = before; after = after; lua = l' })

  -- Lua's collector finalises the userdata of a database only while no reference in the registry
  -- keeps it alive.
  unfoldable pub collected : Bool → Db C × Lua N → Db C × Lua N
  unfolding gc
  collected cleaned (db, l) = if is_unset db.queue_reference then gc h cleaned (db, l) else (db, l)

  abbrev addresses : State C N → List ℕ
  addresses s = map (λ (d : Db C). d.address) (s.before ++ s.db ∷ s.after)

  unfoldable pub method_at : Bool → Request → Db C × Lua N → Db C × Lua N
  unfolding call_method
  method_at cleaned r x = let (_, d, l) = call_method h cleaned r x in (d, l)

  unfoldable pub run_command : Command → State C N → State C N
  unfolding on_address collected method_at mysql_connect
  run_command (submit a r) s = on_address a (method_at s.cleaned r) s
  run_command (connect host user passwd dbname port) s =
      let (_, d, l) =
        mysql_connect h host user passwd dbname port (h.fresh_address (addresses s)) s.lua in
      record s { after = s.after ++ d ∷ []; lua = l }
  run_command (collect a) s = on_address a (collected s.cleaned) s

  unfoldable pub run_commands : List Command → State C N → State C N
  run_commands [] s = s
  run_commands (c ∷ cs) s = run_commands cs (run_command c s)

  -- The Lua code behind a promise's function, called with these arguments.
  unfoldable pub enter : Event N → M C N (Unit {0})
  enter e s =
      let s1 : State C N = record s { lua = record s.lua { log = e ∷ s.lua.log } } in
      let r = h.react s1.lua.log in
      (if r.raises then raised else done tt, run_commands r.commands s1)

  -- To call anything but a function is an error.
  unfoldable pub call_held : Option (Held N) → Args N → M C N (Unit {0})
  unfolding enter
  call_held (some (resolver p)) args = enter (record { promise = p; success = true; args = args })
  call_held (some (rejecter p)) args = enter (record { promise = p; success = false; args = args })
  call_held _ args = λ s. (raised, s)

  -- `lua_call` of the function at a reference.
  unfoldable pub lua_call : Ref → Args N → M C N (Unit {0})
  unfolding call_held
  lua_call f args s = call_held (rawgeti f s.lua.registry) args s
