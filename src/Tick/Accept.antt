-- ===== src/Tick/Accept.antt =====
-- A plain call that an open database accepts: its action comes to the end of the queue, and its promise to
-- the registry.
use gluamysql.Base.{
  ℕ, ◌≡◌, refl, ap, sym, subst, ◌∙◌, Bool, true, false, some, List, [], ◌∷◌, ◌++◌, map, map-append,
}
use gluamysql.Lua.Registry.{rawgeti-cons}
use gluamysql.Lua.{weak_database, database, rawgeti, Ref, Lua, Held, resolver, rejecter}
use gluamysql.Host.{Host, FreshKeys}
use gluamysql.Action.{Action, Job, lua_l_ref, new_promise, new_async, initial_out}
use gluamysql.Database.{Db, push, insert_action}
use gluamysql.Database.Insert.{insert_action_cases}
use gluamysql.Library.{submit_job}
use gluamysql.Tick.Drain.{Asked, action, AllKept}
use gluamysql.Tick.Kept.{new_asked, AreFresh, cons-AllKept, AllKept-snoc}

-- The database holds these actions in its queue, the registry their promises, and its weak table
-- leads to its userdata.
pub record Holds {C N : Type 0} (items : List Asked) (x : Db C × Lua N) : Type 0 where
  pub queue : x.0.queue ≡ map action items
  pub kept : AllKept x.1.registry items
  pub open_at : ℕ
  pub is_open : rawgeti x.0.reference x.1.registry ≡ some (weak_database open_at)

-- What is the same before and after the asking.
pub record SameBase {C N : Type 0} (x y : Db C × Lua N) : Type 0 where
  pub channel : y.0.channel ≡ x.0.channel
  pub current : y.0.current_action ≡ x.0.current_action
  pub log : y.1.log ≡ x.1.log

module _ {C N : Type 0} (h : Host C N) (fresh : FreshKeys h) where
  -- `luaL_ref` picks the keys of a new promise.
  abbrev first_key : Lua N → ℕ
  first_key l = h.fresh_key l.registry

  abbrev second_key : Lua N → ℕ
  second_key l = h.fresh_key ((first_key l, resolver l.promises) ∷ l.registry)

  abbrev third_key : Lua N → ℕ
  third_key l =
      h.fresh_key
        ((second_key l, rejecter l.promises) ∷ (first_key l, resolver l.promises) ∷ l.registry)

  -- The action that comes of a call.
  abbrev pub asked_by : Job → Lua N → Asked
  asked_by j l =
      new_asked l.promises (first_key l) (second_key l) (third_key l)
        (record { job = j; started = false; out = initial_out h j })

  keys-AreFresh :
      (l : Lua N) → AreFresh l.promises (first_key l) (second_key l) (third_key l) l.registry
  keys-AreFresh l = record { first = fresh _; second = fresh _; third = fresh _ }

  made-AllKept :
      (j : Job) (l : Lua N) (items : List Asked)
      → AllKept l.registry items
      → AllKept (new_async h j l).1.registry (items ++ asked_by j l ∷ [])
  unfolding new_async new_promise lua_l_ref
  made-AllKept j l items w =
      AllKept-snoc l.promises (first_key l) (second_key l) (third_key l) _ items l.registry
        (keys-AreFresh l) w

  made_action : (j : Job) (l : Lua N) → (new_async h j l).0 ≡ action (asked_by j l)
  unfolding new_async new_promise lua_l_ref
  made_action j l = refl

  made-is_open :
      (j : Job) (l : Lua N) (f : Ref) {v : Held N}
      → rawgeti f l.registry ≡ some v
      → rawgeti f (new_async h j l).1.registry ≡ some v
  unfolding new_async new_promise lua_l_ref
  made-is_open j l f e =
      rawgeti-cons f _ _ _ (fresh _)
        (rawgeti-cons f _ _ _ (fresh _) (rawgeti-cons f _ _ l.registry (fresh _) e))

  made-log : (j : Job) (l : Lua N) → (new_async h j l).1.log ≡ l.log
  unfolding new_async new_promise lua_l_ref
  made-log j l = refl

  push-open :
      (d : Db C) (l : Lua N) (a : ℕ)
      → rawgeti d.reference l.registry ≡ some (weak_database a)
      → push h d l ≡ some (database a)
  unfolding push
  push-open d l a e = rw (e, push) refl

  -- What an accepted call leaves.
  pub record Accepted (items : List Asked) (x : Db C × Lua N) (y : Bool × Db C × Lua N)
      : Type 0 where
    pub accepted : y.0 ≡ true
    pub holds : Holds items (y.1, y.2)
    pub same_base : SameBase x (y.1, y.2)

  insert-Accepted :
      (b : Asked) (items : List Asked) (d : Db C) (l : Lua N) (a : ℕ)
      → d.queue ≡ map action items
      → AllKept l.registry (items ++ b ∷ [])
      → rawgeti d.reference l.registry ≡ some (weak_database a)
      → Accepted (items ++ b ∷ []) (d, l) (insert_action h (action b) (d, l))
  unfolding lua_l_ref
  insert-Accepted b items d l a q k o =
      let grown : d.queue ++ action b ∷ [] ≡ map action (items ++ b ∷ []) =
        ap (λ (r : List Action). r ++ action b ∷ []) q ∙ sym (map-append action items (b ∷ [])) in
      insert_action_cases h (action b) d l (λ r. Accepted (items ++ b ∷ []) (d, l) r)
        (λ _ e. absurd cc (sym e ∙ push-open d l a o))
        (λ v e. record {
          accepted = refl;
          holds = record {
            queue = grown;
            kept = cons-AllKept (h.fresh_key l.registry) v (items ++ b ∷ []) l.registry (fresh _) k;
            open_at = a;
            is_open = rawgeti-cons d.reference _ v l.registry (fresh _) o;
          };
          same_base = record { channel = refl; current = refl; log = refl };
        })
        (λ e. record {
          accepted = refl;
          holds = record { queue = grown; kept = k; open_at = a; is_open = o };
          same_base = record { channel = refl; current = refl; log = refl };
        })

  pub submit_job-Accepted :
      (j : Job) (items : List Asked) (d : Db C) (l : Lua N)
      → Holds items (d, l)
      → Accepted (items ++ asked_by j l ∷ []) (d, l) (submit_job h j (d, l))
  unfolding submit_job
  submit_job-Accepted j items d l w =
      let l' : Lua N = (new_async h j l).1 in
      let x =
        insert-Accepted (asked_by j l) items d l' w.open_at w.queue (made-AllKept j l items w.kept)
          (made-is_open j l d.reference w.is_open) in
      subst (λ a. Accepted (items ++ asked_by j l ∷ []) (d, l) (insert_action h a (d, l')))
        (sym (made_action j l))
        (record {
          accepted = x.accepted;
          holds = x.holds;
          same_base = record {
            channel = x.same_base.channel;
            current = x.same_base.current;
            log = x.same_base.log ∙ made-log j l;
          };
        })
