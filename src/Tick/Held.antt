-- ===== src/Tick/Held.antt =====
-- A tick leaves every database held that still has work to do.
use gluamysql.Base.{◌≡◌, refl, true, Option, none, some, List, [], ◌∷◌, arith, subst, sym, ap}
use gluamysql.Host.{Host}
use gluamysql.Action.{Action}
use gluamysql.Machine.{State}
use gluamysql.Machine.Pinned.{AllPinned, StatePinned, is_idle, lua_call-StatePinned}
use gluamysql.Tick.{next_of, next_action, unpin, run_tick}
use gluamysql.Tick.Steps.{refs_of, Local}
use gluamysql.Tick.Rule.{IsRule, at_current, run_tick_rule}

is_idle-refs_of :
    (o p : Option Action) (q r : List Action)
    → refs_of o ≡ refs_of p
    → q ≡ r
    → is_idle o q ≡ is_idle p r
is_idle-refs_of none none q r e f = ap (is_idle none) f
is_idle-refs_of none (some a) q r e f = cc
is_idle-refs_of (some a) none q r e f = cc
is_idle-refs_of (some a) (some b) q r e f = refl

module _ {C N : Type 0} (h : Host C N) where
  Local-StatePinned : {s t : State C N} → Local s t → StatePinned s → StatePinned t
  Local-StatePinned {s} {t} l p = record {
    at_work = ground (
      arith,
      p.at_work,
      l.same_gced,
      l.same_pin,
      is_idle-refs_of t.db.current_action s.db.current_action t.db.queue s.db.queue l.same_refs
          l.same_queue,
    );
    behind = subst AllPinned (sym l.same_before) p.behind;
    ahead = subst AllPinned (sym l.same_after) p.ahead;
  }

  mark-StatePinned :
      (a : Action) (s : State C N)
      → s.db.current_action ≡ some a
      → StatePinned s
      → StatePinned (at_current (some (record a { has_finished = true })) s)
  mark-StatePinned a s e = Local-StatePinned (ground arith)

  unpin-StatePinned : (s : State C N) → StatePinned s → StatePinned (unpin h s).1
  unfolding unpin
  unpin-StatePinned s p = record {
    at_work = ground (arith, p.at_work);
    behind = ground (arith, p.behind);
    ahead = ground (arith, p.ahead);
  }

  StatePinned-IsRule : IsRule h (λ s t. StatePinned s → StatePinned t)
  StatePinned-IsRule = record {
    here = λ s p. p;
    also = λ s t u f g p. g (f p);
    of_local = λ s t l _. Local-StatePinned l;
    of_call = λ f args s. lua_call-StatePinned h f args s;
    of_mark = mark-StatePinned;
    of_free = λ a s e p. record {
      at_work = ground (arith, p.at_work);
      behind = p.behind;
      ahead = p.ahead;
    };
    of_unpin = unpin-StatePinned;
  }

  next_of-StatePinned :
      (o : Option Action) (q : List Action) (s : State C N)
      → s.db.current_action ≡ o
      → s.db.queue ≡ q
      → StatePinned s
      → StatePinned (next_of h o q s).1
  unfolding next_of
  next_of-StatePinned (some a) q s e f p = p
  next_of-StatePinned none [] s e f p = p
  next_of-StatePinned none (a ∷ rest) s e f p = record {
    at_work = ground (arith, p.at_work);
    behind = p.behind;
    ahead = p.ahead;
  }

  -- If every open database with work to do is held by the registry or was collected before, then so
  -- it is after a tick of one of them, however the tick ends, whatever Lua code did meanwhile to
  -- this database or another, and with the databases that were opened.
  pub run_tick-StatePinned : (s : State C N) → StatePinned s → StatePinned (run_tick h s).1
  unfolding next_action
  run_tick-StatePinned s p =
      run_tick_rule h (λ t u. StatePinned t → StatePinned u) StatePinned-IsRule s
        (next_of-StatePinned s.db.current_action s.db.queue s refl refl p)
