-- ===== src/Row/Columns.antt =====
-- What a row's table holds under each column name.
use gluamysql.Base.{
  ◌≤◌, ◌≡◌, refl, Bool, false, Option, none, some, List, [], ◌∷◌, arith, if◌then◌else◌, length,
}
use gluamysql.Table.{Bytes, same_bytes, rawget, rawset, rawget-rawset}
use gluamysql.Row.{
  Field, Numbers, Value, Row, cell_string, push_cell, push_columns, push_columns_plain, push_row,
}

abbrev pub no_nulls : List Field → List Bool
no_nulls [] = []
no_nulls (_ ∷ fs) = false ∷ no_nulls fs

-- The NULL flags in effect: none is set where the caller has no array of them.
abbrev pub null_flags : List Field → Option (List Bool) → List Bool
null_flags fs none = no_nulls fs
null_flags fs (some is_nulls) = is_nulls

-- An empty cell in place of each NULL.
abbrev pub blanked : List (Option Bytes) → List (Option Bytes)
blanked [] = []
blanked (c ∷ cs) = some (cell_string c) ∷ blanked cs

length-no_nulls : (fs : List Field) → length (no_nulls fs) ≡ length fs
length-no_nulls [] = refl
length-no_nulls (f ∷ fs) = omega (arith, length-no_nulls fs)

module _ {N : Type 0} (n : Numbers N) where
  -- The value of the last column with that name, by what the cells hold; nil if there is none.
  abbrev pub last_value :
      Bytes → List Field → List (Option Bytes) → List Bool → Option (Value N) → Option (Value N)
  last_value k (f ∷ fs) (c ∷ cs) (b ∷ bs) old =
      last_value k fs cs bs (if same_bytes f.name k then push_cell n b f c else old)
  last_value k _ _ _ old = old

  push_columns-rawget :
      (fs : List Field) (cs : List (Option Bytes)) (bs : List Bool) (row : Row N)
      → length fs ≤ length cs
      → length fs ≤ length bs
      → (r : Row N) × (push_columns n fs cs bs row ≡ some r)
        × ((k : Bytes) → rawget k r ≡ last_value k fs cs bs (rawget k row))
  unfolding push_columns
  push_columns-rawget [] cs bs row p q = (row, refl, λ k. refl)
  push_columns-rawget (f ∷ fs) [] bs row p q = absurd (omega arith)
  push_columns-rawget (f ∷ fs) (c ∷ cs) [] row p q = absurd (omega arith)
  push_columns-rawget (f ∷ fs) (c ∷ cs) (b ∷ bs) row p q =
      let rest =
        push_columns-rawget fs cs bs (rawset f.name (push_cell n b f c) row) (omega arith)
          (omega arith) in
      (rest.0, rest.1, λ k. rw (← rawget-rawset f.name k (push_cell n b f c) row) (rest.2 k))

  push_columns_plain-eq :
      (fs : List Field) (cs : List (Option Bytes)) (row : Row N)
      → push_columns_plain n fs cs row ≡ push_columns n fs cs (no_nulls fs) row
  unfolding push_columns_plain push_columns
  push_columns_plain-eq [] cs row = refl
  push_columns_plain-eq (f ∷ fs) [] row = refl
  push_columns_plain-eq (f ∷ fs) (c ∷ cs) row = push_columns_plain-eq fs cs _

  -- If there are a cell and, where NULL flags are handed over, a flag for every field, then
  -- `push_row` makes a table, and under every key the table holds the value of the last column of
  -- that name, converted by its type, nil for a flagged cell, and nothing where no column has that name.
  pub push_row-rawget :
      (fs : List Field) (cs : List (Option Bytes)) (is_nulls : Option (List Bool))
      → length fs ≤ length cs
      → length fs ≤ length (null_flags fs is_nulls)
      → (r : Row N) × (push_row n fs cs is_nulls ≡ some r)
        × ((k : Bytes) → rawget k r ≡ last_value k fs cs (null_flags fs is_nulls) none)
  unfolding push_row rawget
  push_row-rawget fs cs none p q =
      rw (push_columns_plain-eq fs cs []) (push_columns-rawget fs cs (no_nulls fs) [] p q)
  push_row-rawget fs cs (some is_nulls) p q = push_columns-rawget fs cs is_nulls [] p q

  push_columns_plain-blanked :
      (fs : List Field) (cs : List (Option Bytes)) (row : Row N)
      → push_columns_plain n fs (blanked cs) row ≡ push_columns_plain n fs cs row
  unfolding push_columns_plain cell_string push_cell
  push_columns_plain-blanked [] cs row = refl
  push_columns_plain-blanked (f ∷ fs) [] row = refl
  push_columns_plain-blanked (f ∷ fs) (c ∷ cs) row = push_columns_plain-blanked fs cs _

  -- Without NULL flags, as for the rows of a plain query, a NULL and an empty string make the same row.
  pub push_row-blanked :
      (fs : List Field) (cs : List (Option Bytes))
      → push_row n fs (blanked cs) none ≡ push_row n fs cs none
  unfolding push_row
  push_row-blanked fs cs = push_columns_plain-blanked fs cs []
