-- ===== src/Hooks/Worked.antt =====
-- The plain calls that wait in any state that the module can get into are worked off, if the client
-- answers them.
use gluamysql.Base.{ℕ, ◌≡◌, refl, ap, sym, subst, ◌∙◌, List, [], ◌∷◌, ◌++◌, map, arith}
use gluamysql.Lua.{Held, Event}
use gluamysql.Host.{Host, FreshKeys, Reaction}
use gluamysql.Action.{Promise, Async}
use gluamysql.Database.{Channel}
use gluamysql.Machine.{State}
use gluamysql.Machine.Quiet.{Quiet}
use gluamysql.Claims.{
  Claim, promise_of, Owned, claims_queue, claims_ref, weakly, strongly, claims_dbs,
}
use gluamysql.Claims.Laws.{weigh-append, Owned-part, Owned-drop}
use gluamysql.Claims.Objects.{weigh-db, entry-unref_unused}
use gluamysql.Hooks.Reach.{Reachable, with_react}
use gluamysql.Claims.Met.{is_promise-Numbered}
use gluamysql.Hooks.Served.{open_databases, Reachable-AllOwned}
use gluamysql.Tick.Serving.{is_plain, queued, on_channel}
use gluamysql.Tick.Drain.{
  Asked, action, without_refs, AllKept, AllPlain, AllAnswered, Answers, no_more, then_next,
  WorkedOff, ticks, ticks-WorkedOff,
}

module _ {N : Type 0} where
  without_refs-Owned :
      (p : Promise) (r : List (ℕ × Held N)) (cs : List Claim)
      → Owned r (promise_of p ∷ cs)
      → Owned (without_refs p r) cs
  without_refs-Owned p r cs o = Owned-drop (without_refs p r) (promise_of p ∷ []) cs o (λ k e.
      entry-unref_unused p.resolve k _ (omega (arith, e))
      ∙ entry-unref_unused p.reject k _ (omega (arith, e))
      ∙ entry-unref_unused p.promise k r (omega (arith, e)))

  -- The same actions, with the numbers that the registry has for them.
  pub record Renumbered (items : List Asked) (r : List (ℕ × Held N)) : Type 0 where
    pub numbered : List Asked
    pub same_actions : map action numbered ≡ map action items
    pub same_calls : map (λ (a : Asked). a.call) numbered ≡ map (λ (a : Asked). a.call) items
    pub kept : AllKept r numbered

  Owned-Renumbered :
      (items : List Asked) (r : List (ℕ × Held N))
      → Owned r (claims_queue (map action items))
      → Renumbered items r
  Owned-Renumbered [] r o = record {
    numbered = [];
    same_actions = refl;
    same_calls = refl;
    kept = tt;
  }
  Owned-Renumbered (a ∷ items) r o =
      let x = is_promise-Numbered _ _ _ (ground (arith, o.met)) in
      let rest =
        Owned-Renumbered items (without_refs a.refs r)
          (without_refs-Owned a.refs r (claims_queue (map action items)) o) in
      record {
        numbered = record a { number = x.number } ∷ rest.numbered;
        same_actions = ap (λ l. action a ∷ l) rest.same_actions;
        same_calls = ap (λ l. a.call ∷ l) rest.same_calls;
        kept = (
          record { resolves = x.resolves; rejects = x.rejects; is_promise = x.is_object },
          rest.kept,
        );
      }

same_tail :
    {A : Type 0} {x y : A} {xs ys : List A}
    → ◌≡◌ {A = List A} (x ∷ xs) (y ∷ ys)
    → (x ≡ y) × (xs ≡ ys)
same_tail {A} {x} {xs} e = (
  ap (λ l. elim l as (λ _. A) [ [] ↦ x | z ∷ _ ↦ z ]) e,
  ap (λ l. elim l as (λ _. List A) [ [] ↦ xs | _ ∷ zs ↦ zs ]) e,
)

renumbered-AllPlain :
    (items others : List Asked)
    → map (λ (a : Asked). a.call) others ≡ map (λ (a : Asked). a.call) items
    → AllPlain items
    → AllPlain others
renumbered-AllPlain [] [] e p = tt
renumbered-AllPlain [] (b ∷ others) e p = cc
renumbered-AllPlain (a ∷ items) [] e p = cc
renumbered-AllPlain (a ∷ items) (b ∷ others) e (p, ps) =
    let (x, y) = same_tail e in
    (ap (λ (c : Async). is_plain c.job) x ∙ p, renumbered-AllPlain items others y ps)

module _ {C N : Type 0} (h : Host C N) (fresh : FreshKeys h) (quiet : Quiet h) where
  renumbered-AllAnswered :
      (items others : List Asked) {c d : Channel C} {n : ℕ} {outs : List (ℕ × C)}
      → map (λ (a : Asked). a.call) others ≡ map (λ (a : Asked). a.call) items
      → AllAnswered h items c n outs d
      → AllAnswered h others c n outs d
  renumbered-AllAnswered [] [] e (no_more c) = no_more c
  renumbered-AllAnswered [] (b ∷ others) e w = cc
  renumbered-AllAnswered (a ∷ items) [] e w = cc
  renumbered-AllAnswered (a ∷ items) (b ∷ others) e (then_next _ c n {m} y d t ts) =
      let (x, z) = same_tail e in
      then_next b c n y d (subst (λ q. Answers h q c n y d) (sym x) t)
        (renumbered-AllAnswered items others z ts)

  queued-Owned :
      (past : List (Event N) → Reaction) (items : List Asked) (s : State C N)
      → Reachable (with_react h past) (open_databases (queued (map action items) s)) s.lua
      → Owned s.lua.registry (claims_queue (map action items))
  queued-Owned past items s r =
      let others = claims_dbs s.before ++ claims_dbs s.after in
      let own =
        claims_ref weakly s.db.reference s.db.address
        ++ claims_ref strongly s.db.queue_reference s.db.address in
      Owned-part (claims_queue (map action items)) (own ++ others)
        (Reachable-AllOwned (with_react h past) fresh (queued (map action items) s) r)
        (λ w. omega (
          arith,
          weigh-db w (queued (map action items) s).db others,
          weigh-append w own others,
          weigh-append w (claims_ref weakly s.db.reference s.db.address)
              (claims_ref strongly s.db.queue_reference s.db.address),
        ))

  -- In any state that the module can get into, whatever Lua code did before, with plain calls queued and
  -- nothing at work: if the client answers them after so many ticks, and from then on Lua code asks
  -- nothing of the module and raises no error, then after that many ticks the promise that the registry
  -- has for each call has been settled once, by what the call wrote, in the order of the queue, and
  -- nothing is queued or at work. `luaL_ref` picks keys that are not in use.
  pub Reachable-WorkedOff :
      (past : List (Event N) → Reaction) (items : List Asked) (s : State C N) {c d : Channel C}
      {n : ℕ} {outs : List (ℕ × C)}
      → Reachable
          (with_react h past)
          (open_databases (queued (map action items) (on_channel c s)))
          s.lua
      → AllAnswered h items c n outs d
      → AllPlain items
      → (x : Renumbered items s.lua.registry) × WorkedOff h quiet x.numbered outs s.lua.log
          (ticks h n (queued (map action items) (on_channel c s)))
  Reachable-WorkedOff past items s {c} {d} {n} {outs} r t p =
      let x = Owned-Renumbered items s.lua.registry (queued-Owned past items (on_channel c s) r) in
      (
        x,
        subst
            (λ q.
              WorkedOff h quiet x.numbered outs s.lua.log (ticks h n (queued q (on_channel c s))))
            x.same_actions
            (ticks-WorkedOff h quiet x.numbered s
              (renumbered-AllAnswered items x.numbered x.same_calls t)
              (renumbered-AllPlain items x.numbered x.same_calls p) x.kept),
      )
