-- ===== src/Tick/Once.antt =====
-- A tick in which the action at work comes to its end.
use gluamysql.Base.{◌≡◌, refl, ap, ◌∙◌, true, false, ◌&&◌, Option, none, some, if_elim}
use gluamysql.Host.{Host}
use gluamysql.Action.{Action}
use gluamysql.Machine.{State, Outcome, done, raised, undefined, ◌>>=◌, pure}
use gluamysql.Machine.Quiet.{bind_done, bind_raised, bind_undefined}
use gluamysql.Tick.{next_action, work, test_current, round, go_on, run_loop, unpin, run_tick}

module _ {C N : Type 0} (h : Host C N) where
  test_current-none :
      (s : State C N) → s.db.current_action ≡ none → test_current h true s ≡ (done false, s)
  unfolding test_current
  test_current-none s e =
      ap (λ (o : Option Action). (done (true && elim o [ none ↦ false | some _ ↦ true ]), s)) e

  -- If the action that is taken up ends and is freed, the tick does no more than let go of the
  -- userdata.
  pub run_tick-unpin :
      (a : Option Action) (s u t : State C N)
      → next_action h s ≡ (done a, u)
      → work h a u ≡ (done true, t)
      → t.db.current_action ≡ none
      → run_tick h s ≡ unpin h t
  unfolding run_tick run_loop round go_on
  run_tick-unpin a s u t e f g =
      let once : round h s ≡ (done false, t) =
        bind_done (next_action h) (λ o. do more ← work h o; test_current h more) s u a e
        ∙ bind_done (work h a) (test_current h) u t true f
        ∙ test_current-none t g in
      let looped : run_loop h 1 s ≡ (done tt, t) =
        bind_done (round h) (go_on h (pure tt)) s t false once in
      bind_done (run_loop h 1) (λ _. unpin h) s t tt looped

  -- If it is to be asked again, the tick leaves it at work.
  pub run_tick-goes_on :
      (a : Option Action) (s u t : State C N)
      → next_action h s ≡ (done a, u)
      → work h a u ≡ (done false, t)
      → run_tick h s ≡ unpin h t
  unfolding run_tick run_loop round go_on test_current
  run_tick-goes_on a s u t e f =
      let once : round h s ≡ (done false, t) =
        bind_done (next_action h) (λ o. do more ← work h o; test_current h more) s u a e
        ∙ bind_done (work h a) (test_current h) u t false f in
      let looped : run_loop h 1 s ≡ (done tt, t) =
        bind_done (round h) (go_on h (pure tt)) s t false once in
      bind_done (run_loop h 1) (λ _. unpin h) s t tt looped

  -- A Lua error while the action is at work leaves the tick, and so does undefined behaviour.
  pub run_tick-raised :
      (a : Option Action) (s u t : State C N)
      → next_action h s ≡ (done a, u)
      → work h a u ≡ (raised, t)
      → run_tick h s ≡ (raised, t)
  unfolding run_tick run_loop round go_on
  run_tick-raised a s u t e f =
      let once : round h s ≡ (raised, t) =
        bind_done (next_action h) (λ o. do more ← work h o; test_current h more) s u a e
        ∙ bind_raised (work h a) (test_current h) u t f in
      let looped : run_loop h 1 s ≡ (raised, t) =
        bind_raised (round h) (go_on h (pure tt)) s t once in
      bind_raised (run_loop h 1) (λ _. unpin h) s t looped

  pub run_tick-undefined :
      (a : Option Action) (s u t : State C N)
      → next_action h s ≡ (done a, u)
      → work h a u ≡ (undefined, t)
      → run_tick h s ≡ (undefined, t)
  unfolding run_tick run_loop round go_on
  run_tick-undefined a s u t e f =
      let once : round h s ≡ (undefined, t) =
        bind_done (next_action h) (λ o. do more ← work h o; test_current h more) s u a e
        ∙ bind_undefined (work h a) (test_current h) u t f in
      let looped : run_loop h 1 s ≡ (undefined, t) =
        bind_undefined (round h) (go_on h (pure tt)) s t once in
      bind_undefined (run_loop h 1) (λ _. unpin h) s t looped

  pub unpin-done : (s : State C N) → (unpin h s).0 ≡ done tt
  unfolding unpin
  unpin-done s =
      if_elim (λ (x : Outcome (Unit {0}) × State C N). x.0 ≡ done tt) _ (λ _. refl) (λ _. refl)

  pub unpin-log : (s : State C N) → (unpin h s).1.lua.log ≡ s.lua.log
  unfolding unpin
  unpin-log s =
      if_elim (λ (x : Outcome (Unit {0}) × State C N). x.1.lua.log ≡ s.lua.log) _ (λ _. refl)
        (λ _. refl)

  pub unpin-current_action : (s : State C N) → (unpin h s).1.db.current_action ≡ s.db.current_action
  unfolding unpin
  unpin-current_action s =
      if_elim (λ (x : Outcome (Unit {0}) × State C N). x.1.db.current_action ≡ s.db.current_action)
        _ (λ _. refl) (λ _. refl)

  pub unpin-queue : (s : State C N) → (unpin h s).1.db.queue ≡ s.db.queue
  unfolding unpin
  unpin-queue s =
      if_elim (λ (x : Outcome (Unit {0}) × State C N). x.1.db.queue ≡ s.db.queue) _ (λ _. refl)
        (λ _. refl)

  pub unpin-channel : (s : State C N) → (unpin h s).1.db.channel ≡ s.db.channel
  unfolding unpin
  unpin-channel s =
      if_elim (λ (x : Outcome (Unit {0}) × State C N). x.1.db.channel ≡ s.db.channel) _ (λ _. refl)
        (λ _. refl)
