-- ===== src/Classes.antt =====
-- src/luadatabase.cpp, src/luapreparedstatement.cpp and the two library files: the userdata of the
-- two classes, and the functions that only read them. Pointers are numbers, the null pointer zero.
pub mod Confusion
use gluamysql.Base.{
  List, ℕ, Bool, true, false, not, ◌&&◌, Option, none, some, [], ◌∷◌, ◌++◌, ◌==◌, if◌then◌else◌,
}
use gluamysql.Table.{rawget, Bytes}

-- `PushUserType`, `GetUserType` and `SetUserType` of the module base.
pub record UserTypes (U : Type 0) : Type 0 where
  pub push_user_type : ℕ → ℕ → U
  pub get_user_type : U → ℕ → ℕ
  pub set_user_type : U → ℕ → U

-- `LuaDatabase::MetaType` and `LuaPreparedStatement::MetaType`, to which nothing is ever assigned.
abbrev pub database_type : ℕ
database_type = 0

abbrev pub statement_type : ℕ
statement_type = 0

-- The two values of `MetaName`.
abbrev database_name : Bytes
database_name =
    b'g' ∷ b'l' ∷ b'u' ∷ b'a' ∷ b'm' ∷ b'y' ∷ b's' ∷ b'q' ∷ b'l' ∷ b':' ∷ b':' ∷ b'L' ∷ b'u' ∷ b'a'
    ∷ b'D' ∷ b'a' ∷ b't' ∷ b'a' ∷ b'b' ∷ b'a' ∷ b's' ∷ b'e' ∷ []

abbrev statement_name : Bytes
statement_name =
    b'g' ∷ b'l' ∷ b'u' ∷ b'a' ∷ b'm' ∷ b'y' ∷ b's' ∷ b'q' ∷ b'l' ∷ b':' ∷ b':' ∷ b'L' ∷ b'u' ∷ b'a'
    ∷ b'P' ∷ b'r' ∷ b'e' ∷ b'p' ∷ b'a' ∷ b'r' ∷ b'e' ∷ b'd' ∷ b'S' ∷ b't' ∷ b'a' ∷ b't' ∷ b'e'
    ∷ b'm' ∷ b'e' ∷ b'n' ∷ b't' ∷ []

-- Both have the same last lines: a null pointer is a Lua error, `none`, unless it is to be ignored.
abbrev checked : Bool → ℕ → Option ℕ
checked ignore_null ret = if not ignore_null && ret == 0 then none else some ret

module _ {U : Type 0} (u : UserTypes U) where
  -- `LuaUserData<LuaDatabase>::GetLuaUserData`
  unfoldable pub get_database : Bool → U → Option ℕ
  get_database ignore_null x = checked ignore_null (u.get_user_type x database_type)

  -- `LuaUserData<LuaPreparedStatement>::GetLuaUserData`
  unfoldable pub get_statement : Bool → U → Option ℕ
  get_statement ignore_null x = checked ignore_null (u.get_user_type x statement_type)

  -- The two functions `PushLuaUserData`.
  unfoldable pub push_database : ℕ → U
  push_database what = u.push_user_type what database_type

  unfoldable pub push_statement : ℕ → U
  push_statement what = u.push_user_type what statement_type

  -- `ClearUserData`
  unfoldable pub clear_user_data : U → U
  clear_user_data x = u.set_user_type x 0

  -- `LuaDatabase::Get`
  unfoldable pub get : Bool → U → Option ℕ
  unfolding get_database
  get ignore_null x = get_database ignore_null x

  abbrev pub is_pointer : Option ℕ → Option Bool
  is_pointer none = none
  is_pointer (some p) = some (not (p == 0))

  -- `IsValid`
  unfoldable pub is_valid : U → Option Bool
  unfolding get
  is_valid x = is_pointer (get false x)

  -- What `%s: %p` and `%s: NULL` print.
  abbrev printed : (ℕ → Bytes) → Bytes → Option ℕ → Option Bytes
  printed pointer name none = none
  printed pointer name (some p) =
      some (name ++ b':' ∷ b' ' ∷ (if p == 0 then b'N' ∷ b'U' ∷ b'L' ∷ b'L' ∷ [] else pointer p))

  -- `__tostring` of a database
  unfoldable pub database_to_string : (ℕ → Bytes) → U → Option Bytes
  unfolding get
  database_to_string pointer x = printed pointer database_name (get true x)

  -- `__tostring` of a statement
  unfoldable pub statement_to_string : (ℕ → Bytes) → U → Option Bytes
  unfolding get_statement
  statement_to_string pointer x = printed pointer statement_name (get_statement true x)

  abbrev counted : (ℕ → ℕ) → Option ℕ → Option ℕ
  counted count none = none
  counted count (some p) = some (count p)

  -- `parametercount`, with what the client says of the statement behind a pointer.
  unfoldable pub parametercount : (ℕ → ℕ) → U → Option ℕ
  unfolding get_statement
  parametercount count x = counted count (get_statement false x)

  abbrev prepared_name : Bytes
  prepared_name = b'p' ∷ b'r' ∷ b'e' ∷ b'p' ∷ b'a' ∷ b'r' ∷ b'e' ∷ b'd' ∷ []

  -- The weak table that the finished preparation of a statement leaves in the registry.
  unfoldable pub prepared_table : U → List (Bytes × U)
  prepared_table x = (prepared_name, x) ∷ []

  -- `LuaPreparedStatement::PushReference`, with the table that its reference leads to; `none` is nil.
  unfoldable pub push_reference : List (Bytes × U) → Option U
  push_reference t = rawget (b'd' ∷ b'b' ∷ []) t
