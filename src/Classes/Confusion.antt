-- ===== src/Classes/Confusion.antt =====
-- What the two classes make of each other's userdata, and of one that was cleared.
use gluamysql.Base.{ℕ, ◌≡◌, refl, true, false, none, some, arith, ◌==◌, if◌then◌else◌}
use gluamysql.Classes.{
  get, UserTypes, get_database, get_statement, push_statement, push_database, clear_user_data,
  is_valid, is_pointer,
}

module _ {U : Type 0} (u : UserTypes U) where
  -- If `GetUserType` gives back the pointer that was pushed with the same type number, then the
  -- functions of a database take the userdata of a statement for a database at the statement's
  -- address, and those of a statement take a database for a statement, for any pointer but null.
  pub get_database-push_statement :
      ((p t : ℕ) → u.get_user_type (u.push_user_type p t) t ≡ p)
      → (p : ℕ) → (p == 0) ≡ false
      → (get_database u false (push_statement u p) ≡ some p)
        × (get_statement u false (push_database u p) ≡ some p)
  unfolding get_database push_statement get_statement push_database
  get_database-push_statement law p e = (rw (law p 0, e) refl, rw (law p 0, e) refl)

  -- `IsValid` is true or ends in an error, and never returns false; and if `GetUserType` gives null,
  -- for every type number, of a userdata that `SetUserType` has invalidated by passing null, then it
  -- ends in an error for a userdata that was cleared.
  pub is_valid_never_false :
      ((x : U) (t : ℕ) → u.get_user_type (u.set_user_type x 0) t ≡ 0)
      → (x : U)
      → (is_valid u x ≡ (if u.get_user_type x 0 == 0 then none else some true))
        × (is_valid u (clear_user_data u x) ≡ none)
  unfolding is_valid get get_database clear_user_data
  is_valid_never_false law x = (read (u.get_user_type x 0), rw (law x 0) refl)
    where
      read :
          (p : ℕ)
          → is_pointer u (if p == 0 then none else some p) ≡ (if p == 0 then none else some true)
      read p = ground arith
