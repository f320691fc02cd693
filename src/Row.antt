-- ===== src/Row.antt =====
-- src/gluamysql.h: one row of a result set as a Lua table (`PushField`, `PushRow`). A Lua value is
-- an `Option`, nil being `none`; `N` is the type of Lua's numbers, `atof` the C library's.
pub mod Columns
use gluamysql.Base.{
  ℕ, ◌+◌, ◌-◌, ◌%◌, Bool, true, false, Option, none, some, List, [], ◌∷◌, ◌==◌, ltb, if◌then◌else◌,
}
use gluamysql.Int.{ℤ, pos, negsuc}
use gluamysql.Table.{Bytes, rawset}

-- `enum_field_types` of the client's headers.
pub data FieldType : Type 0 where
  decimal tiny short long float double null timestamp longlong int24 date time datetime : FieldType
  year newdate varchar bit timestamp2 datetime2 time2 json newdecimal enum set : FieldType
  tiny_blob medium_blob long_blob blob var_string string geometry : FieldType

-- The values that a row holds.
pub data Value (N : Type 0) : Type 0 where
  boolean : Bool → Value N
  number : N → Value N
  string : Bytes → Value N

-- The table that `PushRow` leaves.
abbrev pub Row : Type 0 → Type 0
Row N = List (Bytes × Value N)

-- What `PushRow` reads of a `MYSQL_FIELD`.
pub record Field : Type 0 where
  pub name : Bytes
  pub type : FieldType

-- `std::string::c_str` as a C function reads it: up to the first zero byte.
unfoldable pub c_str : Bytes → Bytes
c_str [] = []
c_str (b ∷ s) = let rest = c_str s in if b == 0 then [] else b ∷ rest

-- `field[0]`, which is zero where the string ends.
unfoldable pub first_char : Bytes → ℕ
first_char [] = 0
first_char (b ∷ _) = b

-- `static_cast<int>` of a `char`, which is signed.
unfoldable pub char_to_int : ℕ → ℤ
char_to_int b = if ltb b 128 then pos b else negsuc (255 - b)

-- How numbers are made: `PushField` makes them in the first two ways, and the last is what
-- `lua_pushinteger` makes of a `lua_Integer`, which is a number with a fraction in Lua, a `double`.
pub record Numbers (N : Type 0) : Type 0 where
  pub atof : Bytes → N
  pub of_int : ℤ → N
  pub of_integer : ℤ → N

-- `std::string(row[i], lengths[i])`: a NULL cell is a null pointer with length 0.
unfoldable pub cell_string : Option Bytes → Bytes
cell_string none = []
cell_string (some s) = s

module _ {N : Type 0} (n : Numbers N) where
  unfoldable pub push_field : Bytes → FieldType → Option (Value N)
  unfolding c_str first_char char_to_int
  push_field field float = some (number (n.atof (c_str field)))
  push_field field double = some (number (n.atof (c_str field)))
  push_field field longlong = some (number (n.atof (c_str field)))
  push_field field long = some (number (n.atof (c_str field)))
  push_field field int24 = some (number (n.atof (c_str field)))
  push_field field tiny = some (number (n.atof (c_str field)))
  push_field field short = some (number (n.atof (c_str field)))
  push_field field bit = some (number (n.of_int (char_to_int (first_char field))))
  push_field field null = none
  push_field field _ = some (string field)

  unfoldable pub push_cell : Bool → Field → Option Bytes → Option (Value N)
  unfolding push_field cell_string
  push_cell true field cell = none
  push_cell false field cell = push_field (cell_string cell) field.type

  -- The loop of `PushRow` with `is_nulls` given; `none` is a read behind the end of an array.
  unfoldable pub push_columns :
      List Field → List (Option Bytes) → List Bool → Row N → Option (Row N)
  unfolding push_cell
  push_columns [] cells is_nulls row = some row
  push_columns (f ∷ fs) [] is_nulls row = none
  push_columns (f ∷ fs) (c ∷ cs) [] row = none
  push_columns (f ∷ fs) (c ∷ cs) (b ∷ bs) row =
      push_columns fs cs bs (rawset f.name (push_cell b f c) row)

  -- The same loop where `is_nulls` is the null pointer.
  unfoldable pub push_columns_plain : List Field → List (Option Bytes) → Row N → Option (Row N)
  unfolding push_cell
  push_columns_plain [] cells row = some row
  push_columns_plain (f ∷ fs) [] row = none
  push_columns_plain (f ∷ fs) (c ∷ cs) row =
      push_columns_plain fs cs (rawset f.name (push_cell false f c) row)

  -- `PushRow`; `fields` are the first `fieldcount` fields of the result set.
  unfoldable pub push_row : List Field → List (Option Bytes) → Option (List Bool) → Option (Row N)
  unfolding push_columns push_columns_plain
  push_row fields cells none = push_columns_plain fields cells []
  push_row fields cells (some is_nulls) = push_columns fields cells is_nulls []
