-- ===== src/Hooks/Alone.antt =====
-- A tick while Lua code is quiet leaves the other databases alone, and a tick with nothing to do calls
-- no Lua code.
use gluamysql.Base.{◌≡◌, refl, ap, ◌∙◌, Bool, false, true, Option, none, some, List, [], ◌∷◌, arith}
use gluamysql.Lua.{Lua, Held, Args, resolver, rejecter, rawgeti}
use gluamysql.Host.{Host}
use gluamysql.Action.{Action}
use gluamysql.Machine.{State, done, call_held, lua_call, enter, run_commands}
use gluamysql.Machine.Quiet.{Quiet}
use gluamysql.Tick.{next_of, next_action, work, unpin, run_tick}
use gluamysql.Tick.Once.{run_tick-goes_on, unpin-log, unpin-current_action, unpin-queue}
use gluamysql.Tick.Rule.{IsRule, run_tick_rule}
use gluamysql.Hooks.{has_work}

-- The same databases, and the one at work is the same and as much collected as it was.
pub record Alone {C N : Type 0} (s t : State C N) : Type 0 where
  pub same_before : t.before ≡ s.before
  pub same_after : t.after ≡ s.after
  pub same_cleaned : t.cleaned ≡ s.cleaned
  pub same_gced : t.db.gced ≡ s.db.gced
  pub same_address : t.db.address ≡ s.db.address

module _ {C N : Type 0} where
  pub Alone-refl : (s : State C N) → Alone s s
  Alone-refl s = record {
    same_before = refl;
    same_after = refl;
    same_cleaned = refl;
    same_gced = refl;
    same_address = refl;
  }

  Alone-lua : (s : State C N) (l : Lua N) → Alone s (record s { lua = l })
  Alone-lua s l = record {
    same_before = refl;
    same_after = refl;
    same_cleaned = refl;
    same_gced = refl;
    same_address = refl;
  }

  pub Alone-trans : (s t u : State C N) → Alone s t → Alone t u → Alone s u
  Alone-trans s t u p q = record {
    same_before = q.same_before ∙ p.same_before;
    same_after = q.same_after ∙ p.same_after;
    same_cleaned = q.same_cleaned ∙ p.same_cleaned;
    same_gced = q.same_gced ∙ p.same_gced;
    same_address = q.same_address ∙ p.same_address;
  }

module _ {C N : Type 0} (h : Host C N) (quiet : Quiet h) where
  call_held-Alone :
      (o : Option (Held N)) (args : Args N) (s : State C N) → Alone s (call_held h o args s).1
  unfolding call_held enter run_commands
  call_held-Alone (some (resolver n)) args s =
      rw (quiet (record { promise = n; success = true; args = args } ∷ s.lua.log)) (Alone-lua s _)
  call_held-Alone (some (rejecter n)) args s =
      rw (quiet (record { promise = n; success = false; args = args } ∷ s.lua.log)) (Alone-lua s _)
  call_held-Alone _ args s = Alone-refl s

  unpin-Alone : (s : State C N) → Alone s (unpin h s).1
  unfolding unpin
  unpin-Alone s = record {
    same_before = ground arith;
    same_after = ground arith;
    same_cleaned = ground arith;
    same_gced = ground arith;
    same_address = ground arith;
  }

  Alone-IsRule : IsRule h Alone
  unfolding lua_call
  Alone-IsRule = record {
    here = Alone-refl;
    also = Alone-trans;
    of_local = λ s t l _. record {
      same_before = l.same_before;
      same_after = l.same_after;
      same_cleaned = l.same_cleaned;
      same_gced = l.same_gced;
      same_address = l.same_address;
    };
    of_call = λ f args s. call_held-Alone (rawgeti f s.lua.registry) args s;
    of_mark = λ a s e. record {
      same_before = refl;
      same_after = refl;
      same_cleaned = refl;
      same_gced = refl;
      same_address = refl;
    };
    of_free = λ a s e. record {
      same_before = refl;
      same_after = refl;
      same_cleaned = refl;
      same_gced = refl;
      same_address = refl;
    };
    of_unpin = unpin-Alone;
  }

  next_of-Alone :
      (o : Option Action) (q : List Action) (s : State C N) → Alone s (next_of h o q s).1
  unfolding next_of
  next_of-Alone (some a) q s = Alone-refl s
  next_of-Alone none [] s = Alone-refl s
  next_of-Alone none (a ∷ rest) s = record {
    same_before = refl;
    same_after = refl;
    same_cleaned = refl;
    same_gced = refl;
    same_address = refl;
  }

  pub run_tick-Alone : (s : State C N) → Alone s (run_tick h s).1
  unfolding next_action
  run_tick-Alone s =
      Alone-trans s (next_action h s).1 (run_tick h s).1
        (next_of-Alone s.db.current_action s.db.queue s) (run_tick_rule h Alone Alone-IsRule s)

abbrev pub busy_by : Option Action → List Action → Bool
busy_by o q = elim o [ some _ ↦ true | none ↦ elim q [ [] ↦ false | _ ∷ _ ↦ true ] ]

module _ {C N : Type 0} (h : Host C N) where
  next_of-idle :
      (o : Option Action) (q : List Action) (s : State C N)
      → has_work (record s.db { current_action = o; queue = q }) ≡ false
      → next_of h o q s ≡ (done none, s)
  unfolding next_of has_work
  next_of-idle (some a) q s e = cc
  next_of-idle none (a ∷ q) s e = cc
  next_of-idle none [] s e = refl

  -- With nothing to do a tick only unpins.
  pub run_tick-idle : (s : State C N) → has_work s.db ≡ false → run_tick h s ≡ unpin h s
  unfolding next_action work
  run_tick-idle s e =
      run_tick-goes_on h none s s s (next_of-idle s.db.current_action s.db.queue s e) refl

  has_work-same :
      (s t : State C N)
      → t.db.current_action ≡ s.db.current_action
      → t.db.queue ≡ s.db.queue
      → has_work t.db ≡ has_work s.db
  unfolding has_work
  has_work-same s t e f = ap (λ o. busy_by o t.db.queue) e ∙ ap (busy_by s.db.current_action) f

  pub record StaysIdle (s t : State C N) : Type 0 where
    pub same_log : t.lua.log ≡ s.lua.log
    pub idle : has_work t.db ≡ false

  pub run_tick-StaysIdle : (s : State C N) → has_work s.db ≡ false → StaysIdle s (run_tick h s).1
  run_tick-StaysIdle s e =
      let f = ap (λ x. x.1) (run_tick-idle s e) in
      record {
        same_log = ap (λ (t : State C N). t.lua.log) f ∙ unpin-log h s;
        idle =
            has_work-same (unpin h s).1 (run_tick h s).1
              (ap (λ (t : State C N). t.db.current_action) f) (ap (λ (t : State C N). t.db.queue) f)
            ∙ has_work-same s (unpin h s).1 (unpin-current_action h s) (unpin-queue h s)
            ∙ e;
      }
