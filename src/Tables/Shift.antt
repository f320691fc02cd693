-- ===== src/Tables/Shift.antt =====
-- Removing an element from a table, and looking up what a library put into one.
use gluamysql.Base.{
  ℕ, zero, suc, ◌+◌, ◌-◌, ◌≡◌, refl, ◌&&◌, Option, none, some, List, [], ◌∷◌, map, ◌==◌, leb, ltb,
  arith, if◌then◌else◌,
}
use gluamysql.Table.{Bytes, same_bytes, rawget, rawset, rawget-rawset}
use gluamysql.Tables.{
  rawseti_at, shift, tremove, LibraryOf, set_fields, create_meta_table, MetaField, itself,
  as_function, index_name,
}

module _ {V : Type 0} where
  shift_lem :
      (n i : ℕ) (t : ℕ → Option V) (j : ℕ)
      → shift n i t j ≡ (if leb i j && ltb j (i + n) then t (suc j) else t j)
  unfolding shift rawseti_at
  shift_lem zero i t j = grind arith
  shift_lem (suc n) i t j = grind (arith, shift_lem n (suc i) (rawseti_at i (t (suc i)) t) j)

  -- The elements behind the index move down by one and the last one is taken out; the others stay.
  -- For an index behind the end that is all: the last element is lost.
  pub tremove_lem :
      (length ind : ℕ) (t : ℕ → Option V) (j : ℕ)
      → tremove length ind t j
        ≡ (if j == length then none else (if leb ind j && ltb j length then t (suc j) else t j))
  unfolding tremove rawseti_at
  tremove_lem length ind t j = grind (arith, shift_lem (length - ind) ind t j)

module _ {F : Type 0} where
  -- The last entry of that name, if there is one.
  abbrev pub last_entry : Bytes → LibraryOf F → Option F → Option F
  last_entry k [] found = found
  last_entry k ((name, f) ∷ lib) found =
      last_entry k lib (if same_bytes name k then some f else found)

  pub set_fields-rawget :
      (k : Bytes) (lib : LibraryOf F) (t : List (Bytes × F))
      → rawget k (set_fields lib t) ≡ last_entry k lib (rawget k t)
  unfolding set_fields
  set_fields-rawget k [] t = refl
  set_fields-rawget k ((name, f) ∷ lib) t =
      rw (← rawget-rawset name k (some f) t) (set_fields-rawget k lib (rawset name (some f) t))

-- A metatable answers with the last function of the library under a name, and under any other with
-- itself for "__index", and else with what it held before.
pub create_meta_table-rawget :
    {F : Type 0} (k : Bytes) (lib : LibraryOf F) (t : List (Bytes × MetaField F))
    → rawget k (create_meta_table lib t)
      ≡ last_entry k
          (map as_function lib)
          (if same_bytes index_name k then some itself else rawget k t)
unfolding create_meta_table
create_meta_table-rawget k lib t =
    rw (← rawget-rawset index_name k (some itself) t)
      (set_fields-rawget k (map as_function lib) (rawset index_name (some itself) t))
