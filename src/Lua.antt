-- ===== src/Lua.antt =====
-- The Lua state as the module sees it: the registry, where `luaL_ref` keeps values alive, and the
-- calls that were made into Lua code.
pub mod Registry
use gluamysql.Base.{
  ℕ, zero, suc, Bool, true, false, Option, none, some, List, [], ◌∷◌, ◌++◌, ◌==◌, if◌then◌else◌,
}
use gluamysql.Table.{Bytes}
use gluamysql.Row.{Row}

-- What `luaL_ref` returns: LUA_REFNIL, LUA_NOREF or a key of the registry.
pub data Ref : Type 0 where
  refnil noref : Ref
  key : ℕ → Ref

-- The table that a query resolves to: its rows under 1, 2, …, and the two named entries.
pub record ResultTable (N : Type 0) : Type 0 where
  pub rows : List (Row N)
  pub last_insert_id : Option N
  pub affected_rows : Option N

-- What the module keeps in the registry. Promises are numbered as they are made; databases and
-- statements go by the address of their object. A weak entry is the table `{__mode = "v"}` with the
-- userdata in it.
pub data Held (N : Type 0) : Type 0 where
  resolver rejecter promise_object : ℕ → Held N
  table : ResultTable N → Held N
  database weak_database weak_statement : ℕ → Held N

-- The arguments with which the module calls the functions of a promise.
pub data Args (N : Type 0) : Type 0 where
  nothing : Args N
  with_database with_statement : ℕ → Args N
  with_table : ResultTable N → Args N
  with_error : Bytes → ℕ → Args N

pub record Event (N : Type 0) : Type 0 where
  pub promise : ℕ
  pub success : Bool
  pub args : Args N

-- `log` has the latest call first.
pub record Lua (N : Type 0) : Type 0 where
  pub registry : List (ℕ × Held N)
  pub promises : ℕ
  pub log : List (Event N)

module _ {V : Type 0} where
  unfoldable pub entry : ℕ → List (ℕ × V) → Option V
  entry k [] = none
  entry k ((j, v) ∷ r) = if j == k then some v else entry k r

  unfoldable pub remove : ℕ → List (ℕ × V) → List (ℕ × V)
  remove k [] = []
  remove k ((j, v) ∷ r) = let rest = remove k r in if j == k then rest else (j, v) ∷ rest

  -- `lua_rawgeti` on the registry.
  unfoldable pub rawgeti : Ref → List (ℕ × V) → Option V
  unfolding entry
  rawgeti refnil r = none
  rawgeti noref r = none
  rawgeti (key k) r = entry k r

  -- `lua_rawseti` on the registry.
  unfoldable pub rawseti : Ref → V → List (ℕ × V) → List (ℕ × V)
  unfolding remove
  rawseti refnil v r = r
  rawseti noref v r = r
  rawseti (key k) v r = (k, v) ∷ remove k r

  -- `luaL_unref` does nothing on LUA_REFNIL and LUA_NOREF.
  unfoldable pub unref : Ref → List (ℕ × V) → List (ℕ × V)
  unfolding remove
  unref refnil r = r
  unref noref r = r
  unref (key k) r = remove k r

-- The test `reference == LUA_REFNIL || reference == LUA_NOREF`.
abbrev pub is_unset : Ref → Bool
is_unset refnil = true
is_unset noref = true
is_unset (key _) = false
