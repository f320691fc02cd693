-- ===== src/Tick/Drain.antt =====
-- A queue of plain actions is worked off, if the client answers every call after some ticks.
use gluamysql.Base.{
  ℕ, zero, suc, ◌+◌, ◌≡◌, refl, ap, subst, sym, ◌∙◌, Bool, true, false, not, none, some, List, [],
  ◌∷◌, map, arith, if_elim,
}
use gluamysql.Lua.{Held, Event, resolver, rejecter, promise_object, rawgeti, unref}
use gluamysql.Host.{Host}
use gluamysql.Action.{Action, Promise, Async, free_promise}
use gluamysql.Database.{Channel, check_status}
use gluamysql.Machine.{State, Outcome, done, M, ◌>>◌, pure}
use gluamysql.Machine.Quiet.{bind_done, bind_same, Quiet}
use gluamysql.Async.{query_async, start_job, continue_job, store_reply}
use gluamysql.Tick.{run_tick, unpin, next_action}
use gluamysql.Tick.Once.{unpin-done, unpin-log, unpin-current_action, unpin-queue}
use gluamysql.Tick.Serving.{
  is_plain, action_of, queued, busy, on_channel, served, verdict, unpin-queued, next_action-busy,
  next_action-queued, run_tick-more, run_tick-last,
}

-- An action that was asked for: the number of its promise, the references, and its call.
pub record Asked : Type 0 where
  pub number : ℕ
  pub refs : Promise
  pub call : Async

abbrev pub action : Asked → Action
action a = action_of a.refs a.call

-- The registry without the references of a promise.
abbrev pub without_refs : {N : Type 0} → Promise → List (ℕ × Held N) → List (ℕ × Held N)
without_refs p r = unref p.resolve (unref p.reject (unref p.promise r))

pub record IsKept {N : Type 0} (r : List (ℕ × Held N)) (a : Asked) : Type 0 where
  pub resolves : rawgeti a.refs.resolve r ≡ some (resolver a.number)
  pub rejects : rawgeti a.refs.reject r ≡ some (rejecter a.number)
  pub is_promise : rawgeti a.refs.promise r ≡ some (promise_object a.number)

-- The references of the first action lead to its promise, and those of the others do when its own have
-- been given back.
abbrev pub AllKept : {N : Type 0} → List (ℕ × Held N) → List Asked → Type 0
AllKept r [] = Unit {0}
AllKept r (a ∷ rest) = IsKept r a × AllKept (without_refs a.refs r) rest

abbrev pub AllPlain : List Asked → Type 0
AllPlain [] = Unit {0}
AllPlain (a ∷ rest) = (is_plain a.call.job ≡ true) × AllPlain rest

-- One more tick than `n`, and then `m`.
abbrev pub more : ℕ → ℕ → ℕ
more zero m = suc m
more (suc n) m = suc (more n m)

pub more_lem : (n m : ℕ) → more n m ≡ n + m + 1
more_lem zero m = omega arith
more_lem (suc n) m = omega (arith, more_lem n m)

module _ {C N : Type 0} (h : Host C N) where
  -- That many ticks of one database.
  abbrev pub ticks : ℕ → M C N (Unit {0})
  ticks zero = pure tt
  ticks (suc n) = do run_tick h; ticks n

  -- The client wants to be asked again in `n` ticks, and is done in the next: the action is then as
  -- the second, and the connection as the second.
  pub data Answers : Async → Channel C → ℕ → Async → Channel C → Type 0 where
    now : (x y : Async) (c d : Channel C) → query_async h x c ≡ (true, y, d) → Answers x c zero y d
    later :
        (x : Async) {y z : Async} (c : Channel C) {d last : Channel C} {n : ℕ}
        → query_async h x c ≡ (false, y, d)
        → Answers y d n z last
        → Answers x c (suc n) z last

  -- So it does with the calls of several actions, one after the other, in so many ticks altogether;
  -- the list has what each call wrote and the handle at that time.
  pub data AllAnswered : List Asked → Channel C → ℕ → List (ℕ × C) → Channel C → Type 0 where
    no_more : (c : Channel C) → AllAnswered [] c zero [] c
    then_next :
        (a : Asked) {rest : List Asked} (c : Channel C) (n : ℕ) {m : ℕ} (y : Async) (d : Channel C)
        {e : Channel C} {outs : List (ℕ × C)}
        → Answers a.call c n y d
        → AllAnswered rest d m outs e
        → AllAnswered (a ∷ rest) c (more n m) ((y.out, d.instance) ∷ outs) e

  pub query_async-job : (x : Async) (c : Channel C) → (query_async h x c).1.job ≡ x.job
  unfolding query_async start_job continue_job store_reply
  query_async-job x c =
      if_elim (λ (r : Bool × Async × Channel C). r.1.job ≡ x.job) (not x.started) (λ _. refl)
        (λ _.
          if_elim (λ (r : Bool × Async × Channel C). r.1.job ≡ x.job) (check_status h c).0
            (λ _. refl) (λ _. refl))

  -- The calls do not change what the action is for.
  Answers-job : {x y : Async} {c d : Channel C} {n : ℕ} → Answers x c n y d → y.job ≡ x.job
  Answers-job (now x y c d e) = sym (ap (λ r. r.1.job) e) ∙ query_async-job x c
  Answers-job (later x c e t) = Answers-job t ∙ sym (ap (λ r. r.1.job) e) ∙ query_async-job x c

module _ {C N : Type 0} (h : Host C N) (quiet : Quiet h) where
  served_after :
      (p : Promise) (k m : ℕ) (rest : List Action) (s u : State C N) {x y : Async} {n : ℕ}
      {c d : Channel C}
      → Answers h x c n y d
      → is_plain y.job ≡ true
      → rawgeti p.resolve u.lua.registry ≡ some (resolver k)
      → rawgeti p.reject u.lua.registry ≡ some (rejecter k)
      → next_action h s ≡ (done (some (action_of p x)), busy (action_of p x) rest (on_channel c u))
      → ticks h (more n m) s ≡ (do unpin h; ticks h m) (queued rest (served h quiet p k y d u))
  served_after p k m rest s u (now x y c d e) j r q f =
      bind_same (run_tick h) (unpin h) (λ _. ticks h m) s (queued rest (served h quiet p k y d u))
        (run_tick-last h quiet p k x y rest s (on_channel c u) d j r q f e)
  served_after p k m rest s u (later x {y} {z} c {d} {last} {n} e t) j r q f =
      bind_done (run_tick h) (λ _. ticks h (more n m)) s _ tt
        (run_tick-more h p x y rest s (on_channel c u) d f e)
      ∙ served_after p k m rest (busy (action_of p y) rest (on_channel d u)) u t j r q
          (next_action-busy h (action_of p y) rest (on_channel d u))

  -- The calls into Lua code, in their order.
  abbrev pub verdicts : List Asked → List (ℕ × C) → List (Event N)
  verdicts (a ∷ rest) ((out, c) ∷ outs) = verdict h quiet a.number out c ∷ verdicts rest outs
  verdicts _ _ = []

  -- The log after these calls; it has the latest first.
  abbrev pub log_after : List (Event N) → List (Event N) → List (Event N)
  log_after [] log = log
  log_after (e ∷ es) log = log_after es (e ∷ log)

  pub record WorkedOff (items : List Asked) (outs : List (ℕ × C)) (log : List (Event N))
      (x : Outcome (Unit {0}) × State C N) : Type 0 where
    pub returns : x.0 ≡ done tt
    pub settled : x.1.lua.log ≡ log_after (verdicts items outs) log
    pub none_at_work : x.1.db.current_action ≡ none
    pub none_waits : x.1.db.queue ≡ []

  unpinned :
      (items : List Asked) (outs : List (ℕ × C)) (log : List (Event N)) (s : State C N)
      → s.lua.log ≡ log_after (verdicts items outs) log
      → s.db.current_action ≡ none
      → s.db.queue ≡ []
      → WorkedOff items outs log ((do unpin h; pure tt) s)
  unpinned items outs log s e f g =
      let t : State C N = (unpin h s).1 in
      let left = bind_done (unpin h) (λ _. pure tt) s t tt (λ i. (unpin-done h s i, t)) in
      subst (λ x. WorkedOff items outs log x) (sym left)
        (record {
          returns = refl;
          settled = unpin-log h s ∙ e;
          none_at_work = unpin-current_action h s ∙ f;
          none_waits = unpin-queue h s ∙ g;
        })

  -- If the client answers the plain calls of some actions after so many ticks, and the registry holds
  -- their promises, then after that many ticks of a database with these actions in its queue each
  -- promise has been settled once, by what its call wrote, in the order of the queue, and nothing is
  -- queued or at work. Lua code is quiet meanwhile.
  pub ticks-WorkedOff :
      (items : List Asked) (s : State C N) {c d : Channel C} {n : ℕ} {outs : List (ℕ × C)}
      → AllAnswered h items c n outs d
      → AllPlain items
      → AllKept s.lua.registry items
      → WorkedOff items outs s.lua.log (ticks h n (queued (map action items) (on_channel c s)))
  unfolding free_promise
  ticks-WorkedOff [] s (no_more c) p k = record {
    returns = refl;
    settled = refl;
    none_at_work = refl;
    none_waits = refl;
  }
  ticks-WorkedOff (a ∷ []) s (then_next _ c n y d t (no_more _)) (p, _) (k, _) =
      let e =
        served_after a.refs a.number zero [] (queued (action a ∷ []) (on_channel c s)) s t
          (rw (Answers-job h t) p) k.resolves k.rejects
          (next_action-queued h (action a) [] (on_channel c s)) in
      subst (λ x. WorkedOff (a ∷ []) ((y.out, d.instance) ∷ []) s.lua.log x) (sym e)
        (unpinned (a ∷ []) ((y.out, d.instance) ∷ []) s.lua.log _ refl refl refl)
  ticks-WorkedOff (a ∷ b ∷ rest) s (then_next _ c n {m} y d {outs} t more_answered) (p, ps)
        (k, ks) =
      let u : State C N = served h quiet a.refs a.number y d s in
      let waiting : List Action = map action (b ∷ rest) in
      let e =
        served_after a.refs a.number m waiting (queued (action a ∷ waiting) (on_channel c s)) s t
          (rw (Answers-job h t) p) k.resolves k.rejects
          (next_action-queued h (action a) waiting (on_channel c s))
        ∙ bind_done (unpin h) (λ _. ticks h m) (queued waiting u) (queued waiting u) tt
            (unpin-queued h (action b) (map action rest) u) in
      let x = ticks-WorkedOff (b ∷ rest) u more_answered ps ks in
      subst (λ z. WorkedOff (a ∷ b ∷ rest) ((y.out, d.instance) ∷ outs) s.lua.log z) (sym e)
        (record {
          returns = x.returns;
          settled = x.settled;
          none_at_work = x.none_at_work;
          none_waits = x.none_waits;
        })
