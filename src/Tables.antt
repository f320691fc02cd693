-- ===== src/Tables.antt =====
-- src/gluamysql.h: the helpers on Lua's tables, and what src/main.cpp, src/gluamysql.cpp and the two
-- library files register with them.
pub mod Shift
use gluamysql.Base.{
  ℕ, zero, suc, ◌-◌, Bool, true, false, Option, none, some, List, [], ◌∷◌, ◌++◌, map, ◌==◌,
  if◌then◌else◌,
}
use gluamysql.Table.{Bytes, rawset}

module _ {V : Type 0} where
  -- `lua_rawseti`; the integer keys of a table are a function here.
  unfoldable pub rawseti_at : ℕ → Option V → (ℕ → Option V) → ℕ → Option V
  rawseti_at i v t j = if j == i then v else t j

  -- The loop of `tremove`, from an index on.
  unfoldable pub shift : ℕ → ℕ → (ℕ → Option V) → ℕ → Option V
  unfolding rawseti_at
  shift zero i t = t
  shift (suc n) i t = shift n (suc i) (rawseti_at i (t (suc i)) t)

  -- `tremove` at an index that is not negative; `length` is what `lua_objlen` returns.
  unfoldable pub tremove : ℕ → ℕ → (ℕ → Option V) → ℕ → Option V
  unfolding shift rawseti_at
  tremove length ind t = rawseti_at length none (shift (length - ind) ind t)

-- The functions that are registered.
pub data Function : Type 0 where
  connect : Function
  db_gc db_to_string query prepare autocommit commit rollback ping is_valid queuelength : Function
  parametercount execute stmt_to_string stmt_gc : Function
  tick_hook shutdown_hook : Function

abbrev pub LibraryOf : Type 0 → Type 0
LibraryOf F = List (Bytes × F)

module _ {F : Type 0} where
  -- The loop over a library.
  unfoldable pub set_fields : LibraryOf F → List (Bytes × F) → List (Bytes × F)
  set_fields [] t = t
  set_fields ((name, f) ∷ lib) t = set_fields lib (rawset name (some f) t)

  -- `PushLibrary`
  unfoldable pub push_library : LibraryOf F → List (Bytes × F)
  unfolding set_fields
  push_library lib = set_fields lib []

-- A field of a metatable: the metatable itself, or a function.
pub data MetaField (F : Type 0) : Type 0 where
  itself : MetaField F
  function : F → MetaField F

abbrev pub index_name : Bytes
index_name = b'_' ∷ b'_' ∷ b'i' ∷ b'n' ∷ b'd' ∷ b'e' ∷ b'x' ∷ []

abbrev pub as_function : {F : Type 0} → Bytes × F → Bytes × MetaField F
as_function (name, f) = (name, function f)

-- `CreateMetaTable`, on what the metatable of that name held before.
unfoldable pub create_meta_table :
    {F : Type 0} → LibraryOf F → List (Bytes × MetaField F) → List (Bytes × MetaField F)
unfolding set_fields
create_meta_table lib t = set_fields (map as_function lib) (rawset index_name (some itself) t)

-- `gluamysql::library`
unfoldable pub mysql_library : LibraryOf Function
mysql_library = (b'c' ∷ b'o' ∷ b'n' ∷ b'n' ∷ b'e' ∷ b'c' ∷ b't' ∷ [], connect) ∷ []

-- `LuaDatabase::library`
unfoldable pub database_library : LibraryOf Function
database_library =
    (b'_' ∷ b'_' ∷ b'g' ∷ b'c' ∷ [], db_gc)
    ∷ (b'_' ∷ b'_' ∷ b't' ∷ b'o' ∷ b's' ∷ b't' ∷ b'r' ∷ b'i' ∷ b'n' ∷ b'g' ∷ [], db_to_string)
    ∷ (b'q' ∷ b'u' ∷ b'e' ∷ b'r' ∷ b'y' ∷ [], query)
    ∷ (b'p' ∷ b'r' ∷ b'e' ∷ b'p' ∷ b'a' ∷ b'r' ∷ b'e' ∷ [], prepare)
    ∷ (b'a' ∷ b'u' ∷ b't' ∷ b'o' ∷ b'c' ∷ b'o' ∷ b'm' ∷ b'm' ∷ b'i' ∷ b't' ∷ [], autocommit)
    ∷ (b'c' ∷ b'o' ∷ b'm' ∷ b'm' ∷ b'i' ∷ b't' ∷ [], commit)
    ∷ (b'r' ∷ b'o' ∷ b'l' ∷ b'l' ∷ b'b' ∷ b'a' ∷ b'c' ∷ b'k' ∷ [], rollback)
    ∷ (b'p' ∷ b'i' ∷ b'n' ∷ b'g' ∷ [], ping)
    ∷ (b'I' ∷ b's' ∷ b'V' ∷ b'a' ∷ b'l' ∷ b'i' ∷ b'd' ∷ [], is_valid)
    ∷ (b'q' ∷ b'u' ∷ b'e' ∷ b'u' ∷ b'e' ∷ b'l' ∷ b'e' ∷ b'n' ∷ b'g' ∷ b't' ∷ b'h' ∷ [], queuelength)
    ∷ []

-- `LuaPreparedStatement::library`
unfoldable pub statement_library : LibraryOf Function
statement_library =
    (
      b'p' ∷ b'a' ∷ b'r' ∷ b'a' ∷ b'm' ∷ b'e' ∷ b't' ∷ b'e' ∷ b'r' ∷ b'c' ∷ b'o' ∷ b'u' ∷ b'n'
          ∷ b't' ∷ [],
      parametercount,
    )
    ∷ (b'e' ∷ b'x' ∷ b'e' ∷ b'c' ∷ b'u' ∷ b't' ∷ b'e' ∷ [], execute)
    ∷ (b'_' ∷ b'_' ∷ b't' ∷ b'o' ∷ b's' ∷ b't' ∷ b'r' ∷ b'i' ∷ b'n' ∷ b'g' ∷ [], stmt_to_string)
    ∷ (b'_' ∷ b'_' ∷ b'g' ∷ b'c' ∷ [], stmt_gc)
    ∷ []

-- What `gmod13_open` leaves: the global `mysql`, the two metatables, the function added to the hook
-- `Tick`, and the one that the loader of the shutdown hook is called with, if the loader compiles;
-- if it does not, the function ends in a Lua error.
pub record Registered : Type 0 where
  pub global : List (Bytes × Function)
  pub database_meta : List (Bytes × MetaField Function)
  pub statement_meta : List (Bytes × MetaField Function)
  pub on_tick : Function
  pub on_shutdown : Option Function

-- `gmod13_open`, on what the two metatables held before and whether `luaL_loadbuffer` succeeds.
unfoldable pub gmod13_open :
    List (Bytes × MetaField Function) → List (Bytes × MetaField Function) → Bool → Registered
unfolding push_library create_meta_table mysql_library database_library statement_library
gmod13_open database_before statement_before loads = record {
  global = push_library mysql_library;
  database_meta = create_meta_table database_library database_before;
  statement_meta = create_meta_table statement_library statement_before;
  on_tick = tick_hook;
  on_shutdown = if loads then some shutdown_hook else none;
}
