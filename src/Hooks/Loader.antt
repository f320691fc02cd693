-- ===== src/Hooks/Loader.antt =====
-- src/main.cpp: SHUTDOWN_LOADER, the piece of Lua code that puts the shutdown hook behind whatever
-- the gamemode does when it shuts down.
use gluamysql.Base.{
  ◌≡◌, refl, ap, ◌∙◌, if_elim, arith, Bool, true, false, Option, none, some, List, [], ◌∷◌, ◌++◌,
  if◌then◌else◌,
}

-- Of the game: whether `gmod.GetGamemode` gives a gamemode, the functions that its `ShutDown` calls,
-- in their order, and the one added to the hook `Initialize` under the loader's name.
pub record Game (F : Type 0) : Type 0 where
  pub has_gamemode : Bool
  pub shut_down : List F
  pub on_initialize : Option F

module _ {F : Type 0} where
  -- The local function `f`: the old function, if there is one, and then the override.
  unfoldable pub override_shut_down : F → Game F → Game F
  override_shut_down override g = record g { shut_down = g.shut_down ++ override ∷ [] }

  -- The function that the loader returns.
  unfoldable pub shutdown_loader : F → Game F → Game F
  unfolding override_shut_down
  shutdown_loader override g =
      if g.has_gamemode
      then override_shut_down override g
      else record g { on_initialize = some override }

  abbrev added : Option F → Game F → Game F
  added none g = g
  added (some f) g = override_shut_down f g

  -- The hook `Initialize` is run: there is a gamemode, and what was added is called.
  unfoldable pub initialize : Game F → Game F
  unfolding override_shut_down
  initialize g = added g.on_initialize (record g { has_gamemode = true })

  -- A call of `gm.ShutDown`: the functions that are called. The first that raises an error is the last.
  unfoldable pub called : (F → Bool) → List F → List F
  called raises [] = []
  called raises (f ∷ fs) = let rest = called raises fs in if raises f then f ∷ [] else f ∷ rest

  abbrev pub any_raises : (F → Bool) → List F → Bool
  any_raises raises [] = false
  any_raises raises (f ∷ fs) = if raises f then true else any_raises raises fs

  called-snoc :
      (raises : F → Bool) (fs : List F) (f : F)
      → called raises (fs ++ f ∷ [])
        ≡ called raises fs ++ (if any_raises raises fs then [] else f ∷ [])
  unfolding called
  called-snoc raises [] f = if_elim (λ x. x ≡ f ∷ []) (raises f) (λ _. refl) (λ _. refl)
  called-snoc raises (g ∷ fs) f = ground (arith, called-snoc raises fs f)

  loaded :
      (f : F) (g : Game F)
      → g.on_initialize ≡ none
      → (initialize (shutdown_loader f g)).shut_down ≡ g.shut_down ++ f ∷ []
  unfolding initialize shutdown_loader override_shut_down
  loaded f g e = by_gamemode g.has_gamemode g.on_initialize e
    where
      shut_down_after : Game F → List F
      shut_down_after g' = (initialize (shutdown_loader f g')).shut_down

      by_gamemode :
          (b : Bool) (o : Option F)
          → o ≡ none
          → shut_down_after (record g { has_gamemode = b; on_initialize = o })
            ≡ g.shut_down ++ f ∷ []
      by_gamemode true o p = rw p refl
      by_gamemode false o p = refl

  -- If no shutdown hook was added before, then after `Initialize` has run the hook stands once and last
  -- in what the gamemode's `ShutDown` calls, whether it was loaded before there was a gamemode or
  -- after. A call of `ShutDown` calls what was called before, and then the hook, unless one of the
  -- others raises an error: then the hook is not called.
  pub initialize-shutdown_loader :
      (f : F) (g : Game F) (raises : F → Bool)
      → g.on_initialize ≡ none
      → let fs = (initialize (shutdown_loader f g)).shut_down in
        (fs ≡ g.shut_down ++ f ∷ [])
        × (called raises fs
            ≡ called raises g.shut_down ++ (if any_raises raises g.shut_down then [] else f ∷ []))
  initialize-shutdown_loader f g raises e =
      (loaded f g e, ap (called raises) (loaded f g e) ∙ called-snoc raises g.shut_down f)
