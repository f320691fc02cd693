-- ===== src/Promises/Calls.antt =====
-- Which callbacks a promise calls.
use gluamysql.Base.{
  ◌≡◌, refl, ap, sym, subst, ◌∙◌, Bool, true, false, Option, none, some, List, [], ◌∷◌, ◌++◌,
  if_elim,
}
use gluamysql.Promises.{
  Slot, PromiseObject, Use, settle, use_next, use_catch, use_then, use_capital_catch, Called,
  call_back, try_result, try, finish_as, promise_finish, next_at, next, catch_at, catch, step, run,
}

module _ {F V : Type 0} where
  abbrev settled : Use F V → Option (Bool × V) → Option (Bool × V)
  settled (settle success v) none = some (success, v)
  settled (settle success v) (some r) = some r
  settled (use_next f) r = r
  settled (use_catch f) r = r
  settled (use_then f) r = r
  settled (use_capital_catch f) r = r

  -- The first settlement, or the result that there was.
  abbrev pub first_settled : List (Use F V) → Option (Bool × V) → Option (Bool × V)
  first_settled [] r = r
  first_settled (u ∷ us) r = first_settled us (settled u r)

  -- No callback was called and none had been, or one was, and the promise knows it.
  pub data AtMostOne (r : Option (Bool × V)) : Called F V → Type 0 where
    no_call : (p : PromiseObject F V) → p.result ≡ r → p.finished ≡ false → AtMostOne r (p, [])
    one_call :
        (p : PromiseObject F V) (f : F) (success : Bool) (v : V)
        → p.result ≡ r
        → r ≡ some (success, v)
        → p.finished ≡ true
        → AtMostOne r (p, (f, v) ∷ [])

  call_back-AtMostOne :
      (o : Option F) (success : Bool) (v : V) (p : PromiseObject F V)
      → p.result ≡ some (success, v)
      → p.finished ≡ false
      → AtMostOne (some (success, v)) (call_back o v p)
  unfolding call_back
  call_back-AtMostOne none success v p e f = no_call p e f
  call_back-AtMostOne (some g) success v p e f =
      one_call (record p { finished = true }) g success v e refl refl

  try_result-AtMostOne :
      (r : Option (Bool × V)) (p : PromiseObject F V)
      → p.result ≡ r
      → p.finished ≡ false
      → AtMostOne r (try_result r p)
  unfolding try_result
  try_result-AtMostOne none p e f = no_call p e f
  try_result-AtMostOne (some (true, v)) p e f = call_back-AtMostOne p.next_callback true v p e f
  try_result-AtMostOne (some (false, v)) p e f = call_back-AtMostOne p.catch_callback false v p e f

  try-AtMostOne : (p : PromiseObject F V) → p.finished ≡ false → AtMostOne p.result (try p)
  unfolding try
  try-AtMostOne p f =
      if_elim (AtMostOne p.result) p.finished (λ t. absurd cc (t, f))
        (λ _. try_result-AtMostOne p.result p refl f)

  finish_as-AtMostOne :
      (r : Option (Bool × V)) (success : Bool) (v : V) (p : PromiseObject F V)
      → p.result ≡ r
      → p.finished ≡ false
      → AtMostOne (settled (settle success v) r) (finish_as r success v p)
  unfolding finish_as
  finish_as-AtMostOne (some r) success v p e f = no_call p e f
  finish_as-AtMostOne none success v p e f =
      try-AtMostOne (record p { result = some (success, v) }) f

  next_at-AtMostOne :
      (s : Slot) (f : F) (p : PromiseObject F V)
      → p.finished ≡ false
      → AtMostOne p.result (next_at s f p)
  unfolding next_at
  next_at-AtMostOne Slot.empty_table f p e = no_call p refl e
  next_at-AtMostOne Slot.absent f p e = try-AtMostOne (record p { next_callback = some f }) e

  catch_at-AtMostOne :
      (s : Slot) (f : F) (p : PromiseObject F V)
      → p.finished ≡ false
      → AtMostOne p.result (catch_at s f p)
  unfolding catch_at
  catch_at-AtMostOne Slot.empty_table f p e = no_call p refl e
  catch_at-AtMostOne Slot.absent f p e = try-AtMostOne (record p { catch_callback = some f }) e

  step-AtMostOne :
      (u : Use F V) (p : PromiseObject F V)
      → p.finished ≡ false
      → AtMostOne (settled u p.result) (step u p)
  unfolding step promise_finish next catch
  step-AtMostOne (settle success v) p e = finish_as-AtMostOne p.result success v p refl e
  step-AtMostOne (use_next f) p e = next_at-AtMostOne p.next_field f p e
  step-AtMostOne (use_catch f) p e = catch_at-AtMostOne p.catch_field f p e
  step-AtMostOne (use_then f) p e = next_at-AtMostOne p.next_field f p e
  step-AtMostOne (use_capital_catch f) p e = catch_at-AtMostOne p.catch_field f p e

  -- A promise that has called a callback keeps its result and calls no other.
  record IsSilent (r : Option (Bool × V)) (x : Called F V) : Type 0 where
    pub no_more : x.1 ≡ []
    pub same : x.0.result ≡ r
    pub finished : x.0.finished ≡ true

  try-IsSilent : (p : PromiseObject F V) → p.finished ≡ true → IsSilent p.result (try p)
  unfolding try
  try-IsSilent p e =
      if_elim (IsSilent p.result) p.finished
        (λ _. record { no_more = refl; same = refl; finished = e }) (λ t. absurd cc (t, e))

  next_at-IsSilent :
      (s : Slot) (f : F) (p : PromiseObject F V)
      → p.finished ≡ true
      → IsSilent p.result (next_at s f p)
  unfolding next_at
  next_at-IsSilent Slot.empty_table f p e = record { no_more = refl; same = refl; finished = e }
  next_at-IsSilent Slot.absent f p e = try-IsSilent (record p { next_callback = some f }) e

  catch_at-IsSilent :
      (s : Slot) (f : F) (p : PromiseObject F V)
      → p.finished ≡ true
      → IsSilent p.result (catch_at s f p)
  unfolding catch_at
  catch_at-IsSilent Slot.empty_table f p e = record { no_more = refl; same = refl; finished = e }
  catch_at-IsSilent Slot.absent f p e = try-IsSilent (record p { catch_callback = some f }) e

  finish_as-IsSilent :
      (r : Bool × V) (success : Bool) (v : V) (p : PromiseObject F V)
      → p.result ≡ some r
      → p.finished ≡ true
      → IsSilent (some r) (finish_as (some r) success v p)
  unfolding finish_as
  finish_as-IsSilent r success v p e f = record { no_more = refl; same = e; finished = f }

  step-IsSilent :
      (u : Use F V) (p : PromiseObject F V) (r : Bool × V)
      → p.result ≡ some r
      → p.finished ≡ true
      → IsSilent (some r) (step u p)
  unfolding step promise_finish next catch
  step-IsSilent (settle success v) p r e f =
      subst (λ o. IsSilent (some r) (finish_as o success v p)) (sym e)
        (finish_as-IsSilent r success v p e f)
  step-IsSilent (use_next g) p r e f =
      subst (λ o. IsSilent o (next_at p.next_field g p)) e (next_at-IsSilent p.next_field g p f)
  step-IsSilent (use_catch g) p r e f =
      subst (λ o. IsSilent o (catch_at p.catch_field g p)) e (catch_at-IsSilent p.catch_field g p f)
  step-IsSilent (use_then g) p r e f =
      subst (λ o. IsSilent o (next_at p.next_field g p)) e (next_at-IsSilent p.next_field g p f)
  step-IsSilent (use_capital_catch g) p r e f =
      subst (λ o. IsSilent o (catch_at p.catch_field g p)) e (catch_at-IsSilent p.catch_field g p f)

  settled-some : (u : Use F V) (r : Bool × V) → settled u (some r) ≡ some r
  settled-some (settle success v) r = refl
  settled-some (use_next f) r = refl
  settled-some (use_catch f) r = refl
  settled-some (use_then f) r = refl
  settled-some (use_capital_catch f) r = refl

  first_settled-some : (us : List (Use F V)) (r : Bool × V) → first_settled us (some r) ≡ some r
  first_settled-some [] r = refl
  first_settled-some (u ∷ us) r = ap (first_settled us) (settled-some u r) ∙ first_settled-some us r

  run-IsSilent :
      (us : List (Use F V)) (p : PromiseObject F V) (r : Bool × V)
      → p.result ≡ some r
      → p.finished ≡ true
      → IsSilent (some r) (run us p)
  unfolding run
  run-IsSilent [] p r e f = record { no_more = refl; same = e; finished = f }
  run-IsSilent (u ∷ us) p r e f =
      let x = step-IsSilent u p r e f in
      let y = run-IsSilent us (step u p).0 r x.same x.finished in
      record {
        no_more = ap (λ (l : List (F × V)). l ++ (run us (step u p).0).1) x.no_more ∙ y.no_more;
        same = y.same;
        finished = y.finished;
      }

  go_on :
      (us : List (Use F V)) (r : Option (Bool × V)) (x : Called F V)
      → ((q : PromiseObject F V)
          → q.finished ≡ false
          → AtMostOne (first_settled us q.result) (run us q))
      → AtMostOne r x
      → AtMostOne (first_settled us r) ((run us x.0).0, x.1 ++ (run us x.0).1)
  go_on us r _ more (no_call q e f) =
      subst (λ o. AtMostOne (first_settled us o) (run us q)) e (more q f)
  go_on us r _ more (one_call q g success v e k f) =
      let x = run-IsSilent us q (success, v) (e ∙ k) f in
      let first : first_settled us r ≡ some (success, v) =
        ap (first_settled us) k ∙ first_settled-some us (success, v) in
      subst (λ (l : List (F × V)). AtMostOne (first_settled us r) ((run us q).0, (g, v) ∷ l))
        (sym x.no_more) (one_call (run us q).0 g success v (x.same ∙ sym first) first x.finished)

  -- Whatever is done with a promise that has called no callback, in any order and however often it is
  -- settled: at most one callback is called in all, with the values of the first settlement, which
  -- the promise keeps.
  pub run-AtMostOne :
      (us : List (Use F V)) (p : PromiseObject F V)
      → p.finished ≡ false
      → AtMostOne (first_settled us p.result) (run us p)
  unfolding run
  run-AtMostOne [] p e = no_call p refl e
  run-AtMostOne (u ∷ us) p e =
      go_on us (settled u p.result) (step u p) (run-AtMostOne us) (step-AtMostOne u p e)
