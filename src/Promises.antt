-- ===== src/Promises.antt =====
-- lua/promise.lua: the promises that Lua code gets, `F` being its functions and `V` what `pack` makes
-- of the values of a settlement. What a callback does is not followed: the calls are listed. `wait` is
-- left out, and what is looked up by its name alone.
pub mod Calls
pub mod Unheard
use gluamysql.Base.{Bool, true, false, Option, none, some, List, [], ◌∷◌, ◌++◌, if◌then◌else◌}

-- A field that the object itself may have, before a method of the same name in its metatable.
pub data Slot : Type 0 where
  absent empty_table : Slot

-- The fields `next`, `catch`, `_next`, `_catch`, `_finished` and `result` of the object.
pub record PromiseObject (F V : Type 0) : Type 0 where
  pub next_field : Slot
  pub catch_field : Slot
  pub next_callback : Option F
  pub catch_callback : Option F
  pub finished : Bool
  pub result : Option (Bool × V)

-- What Lua code and the module do with a promise.
pub data Use (F V : Type 0) : Type 0 where
  settle : Bool → V → Use F V
  use_next use_catch use_then use_capital_catch : F → Use F V

-- The object, and the callbacks that were called with their values.
abbrev pub Called : Type 0 → Type 0 → Type 0
Called F V = PromiseObject F V × List (F × V)

module _ {F V : Type 0} where
  -- The object that `Promise.new` makes.
  unfoldable pub new : PromiseObject F V
  new = record {
    next_field = Slot.empty_table;
    catch_field = Slot.empty_table;
    next_callback = none;
    catch_callback = none;
    finished = false;
    result = none;
  }

  unfoldable pub call_back : Option F → V → PromiseObject F V → Called F V
  call_back none v p = (p, [])
  call_back (some f) v p = (record p { finished = true }, (f, v) ∷ [])

  unfoldable pub try_result : Option (Bool × V) → PromiseObject F V → Called F V
  unfolding call_back
  try_result none p = (p, [])
  try_result (some (true, v)) p = call_back p.next_callback v p
  try_result (some (false, v)) p = call_back p.catch_callback v p

  -- `_try`
  unfoldable pub try : PromiseObject F V → Called F V
  unfolding try_result
  try p = if p.finished then (p, []) else try_result p.result p

  unfoldable pub finish_as : Option (Bool × V) → Bool → V → PromiseObject F V → Called F V
  unfolding try
  finish_as (some r) success v p = (p, [])
  finish_as none success v p = try (record p { result = some (success, v) })

  -- `_finish`
  unfoldable pub promise_finish : Bool → V → PromiseObject F V → Called F V
  unfolding finish_as
  promise_finish success v p = finish_as p.result success v p

  -- `promise:next(fn)`: the object's own field is found before the method, and to call a table is an
  -- error, which leaves the object as it was.
  unfoldable pub next_at : Slot → F → PromiseObject F V → Called F V
  unfolding try
  next_at Slot.empty_table f p = (p, [])
  next_at Slot.absent f p = try (record p { next_callback = some f })

  unfoldable pub next : F → PromiseObject F V → Called F V
  unfolding next_at
  next f p = next_at p.next_field f p

  unfoldable pub catch_at : Slot → F → PromiseObject F V → Called F V
  unfolding try
  catch_at Slot.empty_table f p = (p, [])
  catch_at Slot.absent f p = try (record p { catch_callback = some f })

  unfoldable pub catch : F → PromiseObject F V → Called F V
  unfolding catch_at
  catch f p = catch_at p.catch_field f p

  -- `Then` and `Catch` call the other two.
  unfoldable pub step : Use F V → PromiseObject F V → Called F V
  unfolding promise_finish next catch
  step (settle success v) p = promise_finish success v p
  step (use_next f) p = next f p
  step (use_catch f) p = catch f p
  step (use_then f) p = next f p
  step (use_capital_catch f) p = catch f p

  unfoldable pub run : List (Use F V) → PromiseObject F V → Called F V
  unfolding step
  run [] p = (p, [])
  run (u ∷ us) p = let (q, called) = step u p in let (r, more) = run us q in (r, called ++ more)
