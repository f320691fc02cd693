-- ===== src/Claims.antt =====
-- Which entries of the registry the objects of src/luapromise.h, src/luadatabase.h, src/actions/query.h
-- and src/actions/executestatement.h hold by their references. A list of claims is taken as what can be
-- counted in it, in any order.
pub mod Laws
pub mod Objects
pub mod Requests
pub mod Commands
pub mod Ticks
pub mod Met
pub mod Calm
use gluamysql.Base.{
  ℕ, ◌+◌, ◌≤◌, ◌≡◌, Bool, true, false, ◌&&◌, Option, none, some, List, [], ◌∷◌, ◌++◌, ◌==◌,
  if◌then◌else◌,
}
use gluamysql.Lua.{
  Ref, refnil, noref, key, Held, resolver, rejecter, promise_object, table, database, weak_database,
  rawgeti,
}
use gluamysql.Action.{Promise, Kind, async, querying, executing, Action}
use gluamysql.Database.{Db}

-- A promise with its three references; the table of an action's rows; the weak table and the userdata
-- of the database at an address.
pub data Claim : Type 0 where
  promise_of : Promise → Claim
  rows_at : Ref → Claim
  weakly strongly : Ref → ℕ → Claim

abbrev pub at_ref : ℕ → Ref → ℕ
at_ref k refnil = 0
at_ref k noref = 0
at_ref k (key j) = if j == k then 1 else 0

-- How many references of a claim are that key.
abbrev pub uses : ℕ → Claim → ℕ
uses k (promise_of p) = at_ref k p.resolve + (at_ref k p.reject + at_ref k p.promise)
uses k (rows_at f) = at_ref k f
uses k (weakly f a) = at_ref k f
uses k (strongly f a) = at_ref k f

module _ {N : Type 0} where
  -- The two functions and the object of one promise.
  abbrev pub is_promise : Option (Held N) → Option (Held N) → Option (Held N) → Bool
  is_promise (some (resolver a)) (some (rejecter b)) (some (promise_object c)) = a == b && a == c
  is_promise _ _ _ = false

  abbrev pub is_table : Option (Held N) → Bool
  is_table (some (table t)) = true
  is_table _ = false

  abbrev pub is_weak : ℕ → Option (Held N) → Bool
  is_weak a (some (weak_database b)) = b == a
  is_weak a _ = false

  abbrev pub is_strong : ℕ → Option (Held N) → Bool
  is_strong a (some (database b)) = b == a
  is_strong a _ = false

  abbrev pub is_met : List (ℕ × Held N) → Claim → Bool
  is_met r (promise_of p) =
      is_promise (rawgeti p.resolve r) (rawgeti p.reject r) (rawgeti p.promise r)
  is_met r (rows_at f) = is_table (rawgeti f r)
  is_met r (weakly f a) = is_weak a (rawgeti f r)
  is_met r (strongly f a) = is_strong a (rawgeti f r)

  abbrev pub unmet : List (ℕ × Held N) → Claim → ℕ
  unmet r c = if is_met r c then 0 else 1

abbrev pub weigh : (Claim → ℕ) → List Claim → ℕ
weigh w [] = 0
weigh w (c ∷ cs) = w c + weigh w cs

-- The registry meets every claim, and no key is claimed twice.
pub record Owned {N : Type 0} (r : List (ℕ × Held N)) (cs : List Claim) : Type 0 where
  pub met : weigh (unmet r) cs ≡ 0
  pub apart : (k : ℕ) → weigh (uses k) cs ≤ 1

abbrev pub claims_kind : Kind → List Claim
claims_kind (async x) = []
claims_kind (querying q) = rows_at q.data_reference ∷ []
claims_kind (executing x) = rows_at x.reference ∷ []

abbrev pub claims_action : Action → List Claim
claims_action a = promise_of a.refs ∷ claims_kind a.kind

abbrev pub claims_current : Option Action → List Claim
claims_current none = []
claims_current (some a) = claims_action a

abbrev pub claims_queue : List Action → List Claim
claims_queue [] = []
claims_queue (a ∷ queue) = claims_action a ++ claims_queue queue

abbrev pub claims_ref : (Ref → ℕ → Claim) → Ref → ℕ → List Claim
claims_ref c refnil a = []
claims_ref c noref a = []
claims_ref c (key k) a = c (key k) a ∷ []

-- What a database holds by its own references and by those of its actions.
abbrev pub claims_db : {C : Type 0} → Db C → List Claim
claims_db d =
    claims_ref weakly d.reference d.address
    ++ (claims_ref strongly d.queue_reference d.address
        ++ (claims_current d.current_action ++ claims_queue d.queue))

abbrev pub claims_dbs : {C : Type 0} → List (Db C) → List Claim
claims_dbs [] = []
claims_dbs (d ∷ ds) = claims_db d ++ claims_dbs ds
