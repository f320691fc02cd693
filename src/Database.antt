-- ===== src/Database.antt =====
-- src/luadatabase.h and src/luadatabase.cpp: the object behind a connection, and the state of the
-- module while one of its connections is at work.
pub mod Insert
use gluamysql.Base.{ℕ, Bool, true, false, Option, none, some, List, [], ◌∷◌, ◌++◌, if◌then◌else◌}
use gluamysql.Status.{get_current_database_status, check_database_status}
use gluamysql.Lua.{Ref, Lua, Held, database, weak_database, rawgeti, is_unset}
use gluamysql.Host.{Host}
use gluamysql.Action.{Action, lua_l_ref}

-- The members `instance` and `socket_state`, which the client's calls go through.
pub record Channel (C : Type 0) : Type 0 where
  pub instance : C
  pub socket_state : ℕ

-- `LuaDatabase`; `address` is that of the object. `cleared` is of its userdata, which is the only one:
-- `ClearUserData` has made its pointer null.
pub record Db (C : Type 0) : Type 0 where
  pub address : ℕ
  pub channel : Channel C
  pub open channel use *
  pub queue : List Action
  pub stmts : List ℕ
  pub current_action : Option Action
  pub reference : Ref
  pub queue_reference : Ref
  pub gced : Bool
  pub cleared : Bool

module _ {C N : Type 0} (h : Host C N) where
  -- `GetSocketStatus`, whose result is stored and then overwritten by its callers.
  unfoldable pub get_socket_status : Channel C → Channel C
  unfolding get_current_database_status
  get_socket_status ch =
      let (s, c) = get_current_database_status (h.poll ch.instance) ch.socket_state in
      record { instance = c; socket_state = s }

  -- `CheckStatus`
  unfoldable pub check_status : Channel C → Bool × Channel C
  unfolding check_database_status
  check_status ch =
      let (b, c) = check_database_status (h.poll ch.instance) ch.instance ch.socket_state in
      (b, record ch { instance = c })

  -- `Push`: the userdata in the weak table, or the error of indexing nil.
  unfoldable pub push : Db C → Lua N → Option (Held N)
  push db l = elim (rawgeti db.reference l.registry) [
    | some (weak_database a) ↦ some (database a)
    | _ ↦ none
  ]

  -- `InsertAction`. The Boolean is false where a Lua error leaves the function early.
  unfoldable pub insert_action : Action → Db C × Lua N → Bool × Db C × Lua N
  unfolding push lua_l_ref
  insert_action a (db, l) =
      if is_unset db.queue_reference
      then (elim (push db l) [
        | none ↦ (false, db, l)
        | some v ↦
            (let (ref, l') = lua_l_ref h v l in
              (true, record db { queue_reference = ref; queue = db.queue ++ a ∷ [] }, l'))
      ])
      else (true, record db { queue = db.queue ++ a ∷ [] }, l)
