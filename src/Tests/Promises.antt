-- ===== src/Tests/Promises.antt =====
-- Promises that are settled twice, as a failed query does.
use gluamysql.Base.{ℕ, ◌≡◌, refl, true, false, none, some, List, [], ◌∷◌}
use gluamysql.Promises.{Slot, PromiseObject, Use, settle, use_next, use_catch, new, run}
use gluamysql.Promises.Calls.{AtMostOne, run-AtMostOne}
use gluamysql.Promises.Unheard.{run-new_unheard}

-- A rejection, and then a resolution; the callbacks are set before and between.
abbrev uses : List (Use ℕ ℕ)
uses = use_next 1 ∷ settle false 10 ∷ use_catch 2 ∷ settle true 11 ∷ []

-- An object of which no field hides a method.
abbrev open_object : PromiseObject ℕ ℕ
open_object = record {
  next_field = Slot.absent;
  catch_field = Slot.absent;
  next_callback = none;
  catch_callback = none;
  finished = false;
  result = none;
}

run-AtMostOne_example : AtMostOne (some (false, 10)) (run uses open_object)
run-AtMostOne_example = run-AtMostOne uses open_object refl

run-new_unheard_example : (run uses new).1 ≡ []
run-new_unheard_example = run-new_unheard uses
