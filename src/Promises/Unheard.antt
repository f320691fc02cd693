-- ===== src/Promises/Unheard.antt =====
-- A promise that `Promise.new` made.
use gluamysql.Base.{
  ◌≡◌, refl, ap, ◌∙◌, Bool, true, false, Option, none, some, List, [], ◌∷◌, ◌++◌, if_elim,
}
use gluamysql.Promises.{
  Slot, PromiseObject, Use, settle, use_next, use_catch, use_then, use_capital_catch, Called, new,
  call_back, try_result, try, finish_as, promise_finish, next_at, next, catch_at, catch, step, run,
}

module _ {F V : Type 0} where
  -- The object's own fields hide the methods of the same names, and no callback is set.
  record IsHidden (p : PromiseObject F V) : Type 0 where
    pub next_hidden : p.next_field ≡ Slot.empty_table
    pub catch_hidden : p.catch_field ≡ Slot.empty_table
    pub no_next : p.next_callback ≡ none
    pub no_catch : p.catch_callback ≡ none

  record IsUnheard (x : Called F V) : Type 0 where
    pub no_callback : x.1 ≡ []
    pub still : IsHidden x.0

  call_back-IsUnheard :
      (o : Option F) (v : V) (p : PromiseObject F V)
      → o ≡ none
      → IsHidden p
      → IsUnheard (call_back o v p)
  unfolding call_back
  call_back-IsUnheard none v p e w = record { no_callback = refl; still = w }
  call_back-IsUnheard (some f) v p e w = cc

  try_result-IsUnheard :
      (r : Option (Bool × V)) (p : PromiseObject F V) → IsHidden p → IsUnheard (try_result r p)
  unfolding try_result
  try_result-IsUnheard none p w = record { no_callback = refl; still = w }
  try_result-IsUnheard (some (true, v)) p w = call_back-IsUnheard p.next_callback v p w.no_next w
  try_result-IsUnheard (some (false, v)) p w = call_back-IsUnheard p.catch_callback v p w.no_catch w

  finish_as-IsUnheard :
      (r : Option (Bool × V)) (success : Bool) (v : V) (p : PromiseObject F V)
      → IsHidden p
      → IsUnheard (finish_as r success v p)
  unfolding finish_as try
  finish_as-IsUnheard (some r) success v p w = record { no_callback = refl; still = w }
  finish_as-IsUnheard none success v p w =
      let q : PromiseObject F V = record p { result = some (success, v) } in
      let hidden : IsHidden q = record {
        next_hidden = w.next_hidden;
        catch_hidden = w.catch_hidden;
        no_next = w.no_next;
        no_catch = w.no_catch;
      } in
      if_elim IsUnheard q.finished (λ _. record { no_callback = refl; still = hidden })
        (λ _. try_result-IsUnheard q.result q hidden)

  next_at-IsUnheard :
      (s : Slot) (f : F) (p : PromiseObject F V)
      → s ≡ Slot.empty_table
      → IsHidden p
      → IsUnheard (next_at s f p)
  unfolding next_at
  next_at-IsUnheard Slot.empty_table f p e w = record { no_callback = refl; still = w }
  next_at-IsUnheard Slot.absent f p e w = cc

  catch_at-IsUnheard :
      (s : Slot) (f : F) (p : PromiseObject F V)
      → s ≡ Slot.empty_table
      → IsHidden p
      → IsUnheard (catch_at s f p)
  unfolding catch_at
  catch_at-IsUnheard Slot.empty_table f p e w = record { no_callback = refl; still = w }
  catch_at-IsUnheard Slot.absent f p e w = cc

  step-IsUnheard : (u : Use F V) (p : PromiseObject F V) → IsHidden p → IsUnheard (step u p)
  unfolding step promise_finish next catch
  step-IsUnheard (settle success v) p w = finish_as-IsUnheard p.result success v p w
  step-IsUnheard (use_next f) p w = next_at-IsUnheard p.next_field f p w.next_hidden w
  step-IsUnheard (use_catch f) p w = catch_at-IsUnheard p.catch_field f p w.catch_hidden w
  step-IsUnheard (use_then f) p w = next_at-IsUnheard p.next_field f p w.next_hidden w
  step-IsUnheard (use_capital_catch f) p w = catch_at-IsUnheard p.catch_field f p w.catch_hidden w

  run-IsUnheard : (us : List (Use F V)) (p : PromiseObject F V) → IsHidden p → IsUnheard (run us p)
  unfolding run
  run-IsUnheard [] p w = record { no_callback = refl; still = w }
  run-IsUnheard (u ∷ us) p w =
      let x = step-IsUnheard u p w in
      let y = run-IsUnheard us (step u p).0 x.still in
      record {
        no_callback =
            ap (λ (l : List (F × V)). l ++ (run us (step u p).0).1) x.no_callback ∙ y.no_callback;
        still = y.still;
      }

  -- With a promise that `Promise.new` made no callback is ever called, whatever is done with it: its
  -- own fields `next` and `catch`, which are tables, hide the methods that would set one.
  pub run-new_unheard : (us : List (Use F V)) → (run us new).1 ≡ []
  unfolding new
  run-new_unheard us =
      (run-IsUnheard us new (record {
        next_hidden = refl;
        catch_hidden = refl;
        no_next = refl;
        no_catch = refl;
      })).no_callback
