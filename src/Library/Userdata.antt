-- ===== src/Library/Userdata.antt =====
-- The userdata of a database: what `__gc` leaves of it, and what `queuelength` counts.
use gluamysql.Base.{
  ℕ, zero, suc, ◌≡◌, refl, ap, sym, subst, ◌∙◌, Bool, true, false, Option, none, some, List, [],
  ◌∷◌, ◌++◌, arith, length, ◌==◌,
}
use gluamysql.Lua.{Lua, noref, unref}
use gluamysql.Host.{Host, Request}
use gluamysql.Action.{Action, close_action, new_async}
use gluamysql.Database.{Db}
use gluamysql.Library.{needs_userdata, call_method, gc, queuelength}

module _ {C N : Type 0} (h : Host C N) where
  -- `__gc` is called so many times.
  abbrev pub gc_times : ℕ → Db C × Lua N → Db C × Lua N
  gc_times zero x = x
  gc_times (suc n) x = gc_times n (gc h false x)

  -- The database after its collection, with this action queued.
  abbrev pub closing : Action → Db C → Db C
  closing a db = record db {
    reference = noref;
    gced = true;
    cleared = true;
    queue = db.queue ++ a ∷ [];
  }

  gc_times-cleared : (n : ℕ) (x : Db C × Lua N) → x.0.cleared ≡ true → gc_times n x ≡ x
  unfolding gc
  gc_times-cleared zero x e = refl
  gc_times-cleared (suc n) (db, l) e = ap (gc_times n) (rw e refl) ∙ gc_times-cleared n (db, l) e

  -- However often `__gc` runs, once at least, for a userdata that has its pointer, before the module
  -- has cleaned up: one close action was added to the end of the queue, and the reference to the weak
  -- table was given back once; and from then on a method of the userdata ends in an error and does
  -- nothing.
  pub call_method-gc_times :
      (n : ℕ) (db : Db C) (l : Lua N) (r : Request)
      → db.cleared ≡ false
      → needs_userdata h r ≡ true
      → let (a, m) =
          new_async h close_action (record l { registry = unref db.reference l.registry }) in
        (gc_times (suc n) (db, l) ≡ (closing a db, m))
        × (let x = gc_times (suc n) (db, l) in call_method h false r x ≡ (false, x.0, x.1))
  unfolding gc call_method
  call_method-gc_times n db l r e f =
      let (a, m) =
        new_async h close_action (record l { registry = unref db.reference l.registry }) in
      let once : gc h false (db, l) ≡ (closing a db, m) = rw e refl in
      let all = ap (gc_times n) once ∙ gc_times-cleared n (closing a db, m) refl in
      (all, subst (λ x. call_method h false r x ≡ (false, x.0, x.1)) (sym all) (rw f refl))

-- The actions that have been asked for and not freed.
abbrev pub unfreed : Option Action → List Action → ℕ
unfreed none queue = length queue
unfreed (some a) queue = suc (length queue)

abbrev pub is_started : Option Action → List Action → Bool
is_started none (a ∷ queue) = false
is_started _ _ = true

counted :
    {C : Type 0} (db : Db C) (o : Option Action) (queue : List Action)
    → (queuelength (record db { current_action = o; queue = queue }) == unfreed o queue)
      ≡ is_started o queue
unfolding queuelength
counted db none [] = refl
counted db none (a ∷ queue) = ground arith
counted db (some a) queue = ground arith

-- `queuelength` counts the actions that have not been freed unless some are queued while none is at
-- work; then it does not.
pub queuelength_lem :
    {C : Type 0} (db : Db C)
    → (queuelength db == unfreed db.current_action db.queue) ≡ is_started db.current_action db.queue
queuelength_lem db = counted db db.current_action db.queue
