-- ===== src/Binding.antt =====
-- src/actions/executestatement.h: how the arguments of `execute` become the parameters of a
-- statement (`CreateBuffer`, `PopulateBind` and the constructor's loops). `buffers` is a deque of
-- strings, whose elements stay where they are when it grows: a pointer into one is its index.
pub mod Buffers
pub mod Reading
pub mod Parameters
use gluamysql.Base.{
  ℕ, zero, suc, Bool, Option, none, some, List, [], ◌∷◌, ◌++◌, length, if◌then◌else◌,
}
use gluamysql.Table.{Bytes}

-- A Lua value by its type; a number goes by the bytes of its double.
pub data LuaArg : Type 0 where
  nil other : LuaArg
  boolean : Bool → LuaArg
  number string : Bytes → LuaArg

-- The `buffer_type` set; `unset` is what the vector's resizing leaves.
pub data BufferType : Type 0 where
  unset tiny double blob : BufferType

-- `MYSQL_BIND`, as far as it is set here.
pub record Bind : Type 0 where
  pub is_null : ℕ
  pub buffer_type : BufferType
  pub buffer : Option ℕ
  pub buffer_length : ℕ
  pub length_pointer : Option ℕ

-- The bytes of an `unsigned long`.
module _ (ulong : ℕ → Bytes) where
  abbrev pub Bound : Type 0
  Bound = Bind × List Bytes

  -- `CreateBuffer` and `buffers.push_back`
  unfoldable pub create_buffer : Bytes → List Bytes → ℕ × List Bytes
  create_buffer s buffers = (length buffers, buffers ++ s ∷ [])

  -- A write through a pointer into a buffer.
  unfoldable pub write : ℕ → Bytes → List Bytes → List Bytes
  write i s [] = []
  write zero s (b ∷ bs) = s ∷ bs
  write (suc i) s (b ∷ bs) = b ∷ write i s bs

  -- `PopulateBind`; `none` is the error of `luaL_typerror`.
  unfoldable pub populate_bind : LuaArg → Bind → List Bytes → Option Bound
  unfolding create_buffer write
  populate_bind (boolean b) what buffers =
      let (p, bs) =
        create_buffer ((if b then 1 else 0) ∷ []) (write what.is_null (0 ∷ []) buffers) in
      some (record what { buffer_type = tiny; buffer = some p }, bs)
  populate_bind (number d) what buffers =
      let (p, bs) = create_buffer d (write what.is_null (0 ∷ []) buffers) in
      some (record what { buffer_type = double; buffer = some p }, bs)
  populate_bind (string s) what buffers =
      let (p, bs1) = create_buffer s (write what.is_null (0 ∷ []) buffers) in
      let (n, bs2) = create_buffer (ulong (length s)) bs1 in
      some (
        record what {
          buffer_type = blob;
          buffer = some p;
          buffer_length = length s;
          length_pointer = some n;
        },
        bs2,
      )
  populate_bind nil what buffers = some (what, write what.is_null (1 ∷ []) buffers)
  populate_bind other what buffers = none

  -- The first loop of the constructor: each parameter gets a flag that says NULL.
  unfoldable pub null_binds : ℕ → List Bytes → List Bind × List Bytes
  unfolding create_buffer
  null_binds zero buffers = ([], buffers)
  null_binds (suc n) buffers =
      let (p, bs) = create_buffer (1 ∷ []) buffers in
      let (rest, bs') = null_binds n bs in
      (
        record {
          is_null = p;
          buffer_type = unset;
          buffer = none;
          buffer_length = 0;
          length_pointer = none;
        }
            ∷ rest,
        bs',
      )

  abbrev and_then : Bind → Option (List Bind × List Bytes) → Option (List Bind × List Bytes)
  and_then b none = none
  and_then b (some (rest, bs)) = some (b ∷ rest, bs)

  -- The second loop, over the arguments that there are, up to the number of parameters.
  unfoldable pub populate : List LuaArg → List Bind → List Bytes → Option (List Bind × List Bytes)
  unfolding populate_bind
  populate [] binds buffers = some (binds, buffers)
  populate (a ∷ rest) [] buffers = some ([], buffers)
  populate (a ∷ rest) (b ∷ binds) buffers = elim (populate_bind a b buffers) [
    | none ↦ none
    | some (b', bs) ↦ and_then b' (populate rest binds bs)
  ]

  -- Both, for a statement with `count` parameters.
  unfoldable pub make_arguments : ℕ → List LuaArg → Option (List Bind × List Bytes)
  unfolding null_binds populate
  make_arguments count args =
      let (binds, buffers) = null_binds count [] in populate args binds buffers
