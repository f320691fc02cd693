-- ===== src/Claims/Commands.antt =====
-- What Lua code does to the databases keeps their claims.
use gluamysql.Base.{
  ℕ, ◌+◌, ◌≡◌, sym, ◌∙◌, Bool, true, false, Option, some, List, [], ◌∷◌, ◌++◌, ◌==◌, arith, if_elim,
}
use gluamysql.Lua.{Ref, Lua, Held, Args, resolver, rejecter, rawgeti}
use gluamysql.Host.{Host, FreshKeys, Command, submit, connect, collect}
use gluamysql.Database.{Db}
use gluamysql.Library.{mysql_connect}
use gluamysql.Machine.{
  State, collected, at_address, on_address, method_at, run_command, run_commands, call_held,
  lua_call,
}
use gluamysql.Claims.{Claim, weigh, Owned, claims_db, claims_dbs}
use gluamysql.Claims.Laws.{weigh-append, weigh-nested, weigh-moved, weigh-turned, Owned-same}
use gluamysql.Claims.Requests.{KeepsOwned, method_at-Owned, collected-Owned, mysql_connect-Owned}

pub weigh-dbs :
    {C : Type 0} (w : Claim → ℕ) (ds es : List (Db C))
    → weigh w (claims_dbs (ds ++ es)) ≡ weigh w (claims_dbs ds) + weigh w (claims_dbs es)
weigh-dbs w [] es = omega arith
weigh-dbs w (d ∷ ds) es = omega (
  arith,
  weigh-dbs w ds es,
  weigh-append w (claims_db d) (claims_dbs ds),
  weigh-append w (claims_db d) (claims_dbs (ds ++ es)),
)

-- The claims of all open databases, that at work first.
abbrev pub claims_state : {C N : Type 0} → State C N → List Claim
claims_state s = claims_db s.db ++ (claims_dbs s.before ++ claims_dbs s.after)

-- The registry meets the claims of all open databases, and none of its keys is claimed twice.
abbrev pub AllOwned : {C N : Type 0} → State C N → Type 0
AllOwned s = Owned s.lua.registry (claims_state s)

module _ {C N : Type 0} (h : Host C N) (fresh : FreshKeys h) where
  pub at_address-Owned :
      (a : ℕ) (f : Db C × Lua N → Db C × Lua N) (ds : List (Db C)) (l : Lua N) (cs : List Claim)
      → KeepsOwned h fresh f
      → Owned l.registry (claims_dbs ds ++ cs)
      → Owned (at_address h a f ds l).1.registry (claims_dbs (at_address h a f ds l).0 ++ cs)
  unfolding at_address
  at_address-Owned a f [] l cs k o = o
  at_address-Owned a f (d ∷ ds) l cs k o =
      let x = f (d, l) in
      let y = at_address h a f ds l in
      let hit =
        Owned-same ((claims_db x.0 ++ claims_dbs ds) ++ cs)
          (k d l (claims_dbs ds ++ cs) (
            Owned-same (claims_db d ++ (claims_dbs ds ++ cs)) o
              (λ w. weigh-nested w (claims_db d) (claims_dbs ds) cs)))
          (λ w. sym (weigh-nested w (claims_db x.0) (claims_dbs ds) cs)) in
      let missed =
        Owned-same ((claims_db d ++ claims_dbs y.0) ++ cs)
          (at_address-Owned a f ds l (claims_db d ++ cs) k (
            Owned-same (claims_dbs ds ++ (claims_db d ++ cs)) o (λ w.
              weigh-nested w (claims_db d) (claims_dbs ds) cs
              ∙ weigh-moved w (claims_db d) (claims_dbs ds) cs)))
          (λ w.
            weigh-moved w (claims_dbs y.0) (claims_db d) cs
            ∙ sym (weigh-nested w (claims_db d) (claims_dbs y.0) cs)) in
      by_test (x.0 ∷ ds, x.1) (d ∷ y.0, y.1) (d.address == a) hit missed
    where
      by_test :
          (x y : List (Db C) × Lua N) (b : Bool)
          → Owned x.1.registry (claims_dbs x.0 ++ cs)
          → Owned y.1.registry (claims_dbs y.0 ++ cs)
          → let z = elim b as (λ _. List (Db C) × Lua N) [ true ↦ x | false ↦ y ] in
            Owned z.1.registry (claims_dbs z.0 ++ cs)
      by_test x y true p q = p
      by_test x y false p q = q

  on_address-Owned :
      (a : ℕ) (f : Db C × Lua N → Db C × Lua N) (s : State C N)
      → KeepsOwned h fresh f
      → AllOwned s
      → AllOwned (on_address h a f s)
  unfolding on_address
  on_address-Owned a f s k o =
      if_elim (λ (t : State C N). AllOwned t) (s.db.address == a) (λ _. k s.db s.lua _ o)
        (λ _.
          let x = at_address h a f s.before s.lua in
          let y = at_address h a f s.after x.1 in
          let behind =
            at_address-Owned a f s.before s.lua (claims_db s.db ++ claims_dbs s.after) k (
              Owned-same (claims_dbs s.before ++ (claims_db s.db ++ claims_dbs s.after)) o
                (λ w. weigh-moved w (claims_db s.db) (claims_dbs s.before) (claims_dbs s.after))) in
          let ahead = at_address-Owned a f s.after x.1 (claims_db s.db ++ claims_dbs x.0) k (
            Owned-same (claims_dbs s.after ++ (claims_db s.db ++ claims_dbs x.0)) behind (λ w.
              weigh-moved w (claims_dbs x.0) (claims_db s.db) (claims_dbs s.after)
              ∙ weigh-turned w (claims_db s.db) (claims_dbs x.0) (claims_dbs s.after))) in
          Owned-same (claims_db s.db ++ (claims_dbs x.0 ++ claims_dbs y.0)) ahead
            (λ w. sym (weigh-turned w (claims_db s.db) (claims_dbs x.0) (claims_dbs y.0))))

  run_command-Owned : (c : Command) (s : State C N) → AllOwned s → AllOwned (run_command h c s)
  unfolding run_command
  run_command-Owned (submit a r) s o =
      on_address-Owned a (method_at h s.cleaned r) s (method_at-Owned h fresh s.cleaned r) o
  run_command-Owned (collect a) s o =
      on_address-Owned a (collected h s.cleaned) s (collected-Owned h fresh s.cleaned) o
  run_command-Owned (connect host user passwd dbname port) s o =
      let x = mysql_connect h host user passwd dbname port _ s.lua in
      let d = x.1 in
      Owned-same (claims_db s.db ++ (claims_dbs s.before ++ claims_dbs (s.after ++ d ∷ [])))
        (mysql_connect-Owned h fresh host user passwd dbname port _ s.lua (claims_state s) o)
        (λ w. omega (
          arith,
          weigh-append w (claims_db d) (claims_state s),
          weigh-append w (claims_db s.db) (claims_dbs s.before ++ claims_dbs s.after),
          weigh-append w (claims_dbs s.before) (claims_dbs s.after),
          weigh-append w (claims_db s.db) (claims_dbs s.before ++ claims_dbs (s.after ++ d ∷ [])),
          weigh-append w (claims_dbs s.before) (claims_dbs (s.after ++ d ∷ [])),
          weigh-dbs w s.after (d ∷ []),
          weigh-append w (claims_db d) [],
        ))

  run_commands-Owned :
      (cs : List Command) (s : State C N) → AllOwned s → AllOwned (run_commands h cs s)
  unfolding run_commands
  run_commands-Owned [] s o = o
  run_commands-Owned (c ∷ cs) s o =
      run_commands-Owned cs (run_command h c s) (run_command-Owned c s o)

  call_held-Owned :
      (x : Option (Held N)) (args : Args N) (s : State C N)
      → AllOwned s
      → AllOwned (call_held h x args s).1
  unfolding call_held
  call_held-Owned (some (resolver n)) args s o = run_commands-Owned _ _ o
  call_held-Owned (some (rejecter n)) args s o = run_commands-Owned _ _ o
  call_held-Owned _ args s o = o

  pub lua_call-Owned :
      (f : Ref) (args : Args N) (s : State C N) → AllOwned s → AllOwned (lua_call h f args s).1
  unfolding lua_call
  lua_call-Owned f args s o = call_held-Owned (rawgeti f s.lua.registry) args s o
