-- ===== src/Database/Insert.antt =====
-- The three ways in which `InsertAction` ends.
use gluamysql.Base.{
  ◌≡◌, inl, inr, Bool, true, false, none, some, [], ◌∷◌, ◌++◌, Bool-cases, Option-cases,
}
use gluamysql.Lua.{Lua, Held, is_unset}
use gluamysql.Host.{Host}
use gluamysql.Action.{Action, lua_l_ref}
use gluamysql.Database.{Db, push, insert_action}

module _ {C N : Type 0} (h : Host C N) (a : Action) (d : Db C) (l : Lua N) where
  pub insert_action_cases {ℓ} :
      (P : Bool × Db C × Lua N → Type ℓ)
      → (is_unset d.queue_reference ≡ true → push h d l ≡ none → P (false, d, l))
      → ((v : Held N)
          → push h d l ≡ some v
          → P (
            true,
            record d { queue_reference = (lua_l_ref h v l).0; queue = d.queue ++ a ∷ [] },
            (lua_l_ref h v l).1,
          ))
      → (is_unset d.queue_reference ≡ false → P (true, record d { queue = d.queue ++ a ∷ [] }, l))
      → P (insert_action h a (d, l))
  unfolding insert_action
  insert_action_cases P failed pins pinned = elim (Bool-cases (is_unset d.queue_reference)) [
    | inr e ↦ rw e (pinned e)
    | inl e ↦ elim (Option-cases (push h d l)) [
      | inl p ↦ rw (e, p, insert_action) (failed e p)
      | inr (v, p) ↦ rw (e, p, insert_action) (pins v p)
    ]
  ]
