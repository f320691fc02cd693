-- ===== src/Tick/Order.antt =====
-- The order in which a database works off its queue.
use gluamysql.Base.{
  ◌≡◌, refl, sym, ap, ◌∙◌, Option, none, some, List, [], ◌∷◌, ◌++◌, map, append-nil, append_assoc,
  subst, map-append,
}
use gluamysql.Host.{Host}
use gluamysql.Action.{Action, Promise}
use gluamysql.Machine.{State, lua_call}
use gluamysql.Machine.Growth.{Grows, lua_call-Grows}
use gluamysql.Tick.{next_of, next_action, run_tick}
use gluamysql.Tick.Steps.{refs_of}
use gluamysql.Tick.Once.{unpin-current_action, unpin-queue}
use gluamysql.Tick.Rule.{IsRule, run_tick_rule}

-- Nothing but new actions at its end has come to the queue.
pub record Appended (q r : List Action) : Type 0 where
  pub added : List Action
  pub extends : r ≡ q ++ added

same : {q r : List Action} → r ≡ q → Appended q r
same {q} e = record { added = []; extends = e ∙ sym (append-nil q) }

joined : {q r t : List Action} → Appended q r → Appended r t → Appended q t
joined {q} x y = record {
  added = x.added ++ y.added;
  extends = y.extends ∙ ap (λ r. r ++ y.added) x.extends ∙ append_assoc q x.added y.added;
}

-- What waits once the action at work has been taken from the queue, where none was at work.
abbrev pub waiting : Option Action → List Action → List Action
waiting (some a) q = q
waiting none [] = []
waiting none (a ∷ rest) = rest

-- What a step may do to the actions of a database: nothing but add to the queue, or free the action at
-- work besides.
data Moves {C N : Type 0} (s t : State C N) : Type 0 where
  keeps :
      refs_of t.db.current_action ≡ refs_of s.db.current_action
      → Appended s.db.queue t.db.queue
      → Moves s t
  frees :
      (p : Promise)
      → refs_of s.db.current_action ≡ some p
      → refs_of t.db.current_action ≡ none
      → Appended s.db.queue t.db.queue
      → Moves s t

module _ {C N : Type 0} where
  Moves-trans : (s t u : State C N) → Moves s t → Moves t u → Moves s u
  Moves-trans s t u (keeps e p) (keeps f q) = keeps (f ∙ e) (joined p q)
  Moves-trans s t u (keeps e p) (frees r f g q) = frees r (sym e ∙ f) g (joined p q)
  Moves-trans s t u (frees r e f p) (keeps g q) = frees r e (g ∙ f) (joined p q)
  Moves-trans s t u (frees r e f p) (frees r' g k q) = cc

  Moves-Appended : {s t : State C N} → Moves s t → Appended s.db.queue t.db.queue
  Moves-Appended (keeps e p) = p
  Moves-Appended (frees r e f p) = p

-- The promises of the actions that were asked for and not freed, in their order.
abbrev pub pending : Option Action → List Action → List Promise
pending none q = map (λ (a : Action). a.refs) q
pending (some a) q = a.refs ∷ map (λ (b : Action). b.refs) q

-- A first-in-first-out queue, as a database promises to be one: in a step it serves the first of those
-- that wait or none, and others come to its end.
pub data FifoStep : List Promise → List Promise → Type 0 where
  waits : (q added : List Promise) → FifoStep q (q ++ added)
  serves : (p : Promise) (q added : List Promise) → FifoStep (p ∷ q) (q ++ added)

pending-append :
    (o p : Option Action) (q r : List Action) (added : List Action)
    → refs_of p ≡ refs_of o
    → r ≡ q ++ added
    → pending p r ≡ pending o q ++ map (λ (a : Action). a.refs) added
pending-append none none q r added e f =
    ap (map (λ (a : Action). a.refs)) f ∙ map-append (λ (a : Action). a.refs) q added
pending-append (some a) (some b) q r added e f =
    cc (e, ap (map (λ (a : Action). a.refs)) f ∙ map-append (λ (a : Action). a.refs) q added)
pending-append none (some b) q r added e f = cc
pending-append (some a) none q r added e f = cc

Moves-FifoStep :
    {C N : Type 0} (s t : State C N)
    → Moves s t
    → FifoStep (pending s.db.current_action s.db.queue) (pending t.db.current_action t.db.queue)
Moves-FifoStep s t (keeps e p) =
    subst (λ r. FifoStep (pending s.db.current_action s.db.queue) r)
      (sym (
        pending-append s.db.current_action t.db.current_action s.db.queue t.db.queue p.added e
          p.extends))
      (waits _ _)
Moves-FifoStep s t (frees r e f p) = freed s.db.current_action t.db.current_action e f
  where
    freed :
        (o o' : Option Action)
        → refs_of o ≡ some r
        → refs_of o' ≡ none
        → FifoStep (pending o s.db.queue) (pending o' t.db.queue)
    freed none o' e' f' = absurd cc
    freed (some a) (some b) e' f' = absurd cc
    freed (some a) none e' f' =
        subst (λ q. FifoStep (pending (some a) s.db.queue) q)
          (sym (pending-append none none s.db.queue t.db.queue p.added refl p.extends))
          (serves a.refs _ _)

module _ {C N : Type 0} (h : Host C N) where
  Moves-IsRule : IsRule h Moves
  Moves-IsRule = record {
    here = λ s. keeps refl (same refl);
    also = Moves-trans;
    of_local = λ s t l _. keeps l.same_refs (same l.same_queue);
    of_call = λ f args s.
        let g : Grows s.db (lua_call h f args s).1.db = lua_call-Grows h f args s in
        keeps (ap refs_of g.current) (record { added = g.added; extends = g.queued });
    of_mark = λ a s e. keeps (sym (ap refs_of e)) (same refl);
    of_free = λ a s e. frees a.refs (ap refs_of e) refl (same refl);
    of_unpin = λ s. keeps (ap refs_of (unpin-current_action h s)) (same (unpin-queue h s));
  }

  next_of-queue :
      (o : Option Action) (q : List Action) (s : State C N)
      → s.db.queue ≡ q
      → (next_of h o q s).1.db.queue ≡ waiting o q
  unfolding next_of
  next_of-queue (some a) q s e = e
  next_of-queue none [] s e = e
  next_of-queue none (a ∷ rest) s e = refl

  next_of-pending :
      (o : Option Action) (q : List Action) (s : State C N)
      → s.db.current_action ≡ o
      → s.db.queue ≡ q
      → pending (next_of h o q s).1.db.current_action (next_of h o q s).1.db.queue ≡ pending o q
  unfolding next_of
  next_of-pending (some a) q s e f = cc (e, f)
  next_of-pending none [] s e f = cc (e, f)
  next_of-pending none (a ∷ rest) s e f = refl

  -- In one tick a database takes at most one action from its queue, the first, and that only if none
  -- is at work; what Lua code adds meanwhile comes to the end. This holds however the tick ends: by a
  -- return, a Lua error or undefined behaviour.
  pub run_tick-queue :
      (s : State C N) → Appended (waiting s.db.current_action s.db.queue) (run_tick h s).1.db.queue
  unfolding next_action
  run_tick-queue s =
      joined (same (next_of-queue s.db.current_action s.db.queue s refl))
        (Moves-Appended (run_tick_rule h Moves Moves-IsRule s))

  -- A tick is a step of a first-in-first-out queue: of the promises whose actions were asked for, in
  -- their order, the first is served or none is, and those of new actions come to the end. This
  -- holds however the tick ends.
  pub run_tick-FifoStep :
      (s : State C N)
      → FifoStep
          (pending s.db.current_action s.db.queue)
          (pending (run_tick h s).1.db.current_action (run_tick h s).1.db.queue)
  unfolding next_action
  run_tick-FifoStep s =
      let t : State C N = (run_tick h s).1 in
      subst (λ q. FifoStep q (pending t.db.current_action t.db.queue))
        (next_of-pending s.db.current_action s.db.queue s refl refl)
        (Moves-FifoStep (next_action h s).1 t (run_tick_rule h Moves Moves-IsRule s))
