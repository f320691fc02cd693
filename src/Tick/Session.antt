-- ===== src/Tick/Session.antt =====
-- From asking to settling: what Lua code asks of an open database by plain calls is worked off.
use gluamysql.Base.{
  ℕ, ◌≡◌, refl, ap, sym, subst, ◌∙◌, true, none, some, List, [], ◌∷◌, ◌++◌, map, append_assoc,
  append-nil,
}
use gluamysql.Lua.{weak_database, rawgeti, Lua}
use gluamysql.Host.{Host, FreshKeys}
use gluamysql.Action.{Action, Job}
use gluamysql.Database.{Channel, Db}
use gluamysql.Library.{submit_job}
use gluamysql.Machine.{State}
use gluamysql.Machine.Quiet.{Quiet}
use gluamysql.Tick.Serving.{is_plain, queued, on_channel}
use gluamysql.Tick.Drain.{Asked, action, AllPlain, AllAnswered, ticks, WorkedOff, ticks-WorkedOff}
use gluamysql.Tick.Accept.{Holds, SameBase, asked_by, submit_job-Accepted}

module _ {C N : Type 0} (h : Host C N) (fresh : FreshKeys h) where
  -- What a call leaves; the result of the call is dropped.
  abbrev pub made : Job → Db C × Lua N → Db C × Lua N
  made j x = let (_, d, l) = submit_job h j x in (d, l)

  -- These calls, one after the other; and the actions that come of them.
  abbrev pub submit_all : List Job → Db C × Lua N → Db C × Lua N
  submit_all [] x = x
  submit_all (j ∷ js) x = submit_all js (made j x)

  abbrev pub asked_all : List Job → Db C × Lua N → List Asked
  asked_all [] x = []
  asked_all (j ∷ js) x = asked_by h fresh j x.1 ∷ asked_all js (made j x)

  submit_all-Holds :
      (js : List Job) (items : List Asked) (x : Db C × Lua N)
      → Holds items x
      → Holds (items ++ asked_all js x) (submit_all js x) × SameBase x (submit_all js x)
  submit_all-Holds [] items x w = (
    subst (λ i. Holds i x) (sym (append-nil items)) w,
    record { channel = refl; current = refl; log = refl },
  )
  submit_all-Holds (j ∷ js) items x w =
      let y : Db C × Lua N = made j x in
      let a = submit_job-Accepted h fresh j items x.0 x.1 w in
      let (more, base) = submit_all-Holds js (items ++ asked_by h fresh j x.1 ∷ []) y a.holds in
      (
        subst (λ i. Holds i (submit_all js y))
            (append_assoc items (asked_by h fresh j x.1 ∷ []) (asked_all js y)) more,
        record {
          channel = base.channel ∙ a.same_base.channel;
          current = base.current ∙ a.same_base.current;
          log = base.log ∙ a.same_base.log;
        },
      )

  -- The state after these calls.
  abbrev pub asked : List Job → State C N → State C N
  asked js s = let (d, l) = submit_all js (s.db, s.lua) in record s { db = d; lua = l }

abbrev pub AreAllPlain : List Job → Type 0
AreAllPlain [] = Unit {0}
AreAllPlain (j ∷ js) = (is_plain j ≡ true) × AreAllPlain js

module _ {C N : Type 0} (h : Host C N) (quiet : Quiet h) (fresh : FreshKeys h) where
  asked_all-AllPlain :
      (js : List Job) (x : Db C × Lua N) → AreAllPlain js → AllPlain (asked_all h fresh js x)
  asked_all-AllPlain [] x w = tt
  asked_all-AllPlain (j ∷ js) x (e, w) = (e, asked_all-AllPlain js (made h fresh j x) w)

  idle_queued :
      (t : State C N) (q : List Action)
      → t.db.current_action ≡ none
      → t.db.queue ≡ q
      → queued q (on_channel t.db.channel t) ≡ t
  idle_queued t q e f = sym (
      ap (λ o. record t { db = record t.db { current_action = o } }) e
      ∙ ap (λ (r : List Action). record t { db = record t.db { current_action = none; queue = r } })
          f)

  -- On an open database with nothing queued or at work, plain calls are made one after the other. If
  -- the client answers them after so many ticks, then after that many ticks the promise of each call
  -- has been settled once, by what the call wrote, in the order of the calls, and nothing is queued or
  -- at work. Lua code is quiet meanwhile, and `luaL_ref` picks keys that are not in use.
  pub asked-WorkedOff :
      (js : List Job) (s : State C N) (a : ℕ) {d : Channel C} {n : ℕ} {outs : List (ℕ × C)}
      → s.db.current_action ≡ none
      → s.db.queue ≡ []
      → rawgeti s.db.reference s.lua.registry ≡ some (weak_database a)
      → AreAllPlain js
      → AllAnswered h (asked_all h fresh js (s.db, s.lua)) s.db.channel n outs d
      → WorkedOff h quiet
          (asked_all h fresh js (s.db, s.lua))
          outs
          s.lua.log
          (ticks h n (asked h fresh js s))
  asked-WorkedOff js s a {d} {n} {outs} e f o p t =
      let x : Db C × Lua N = (s.db, s.lua) in
      let items : List Asked = asked_all h fresh js x in
      let (held, base) =
        submit_all-Holds h fresh js [] x
          (record { queue = f; kept = tt; open_at = a; is_open = o }) in
      let u : State C N = asked h fresh js s in
      let w =
        ticks-WorkedOff h quiet items u
          (subst (λ c. AllAnswered h items c n outs d) (sym base.channel) t)
          (asked_all-AllPlain js x p) held.kept in
      subst (λ g. WorkedOff h quiet items outs g (ticks h n u)) base.log
        (subst (λ z. WorkedOff h quiet items outs u.lua.log (ticks h n z))
          (idle_queued u (map action items) (base.current ∙ e) held.queue) w)
