-- ===== src/Prompts/Lookup.antt =====
-- A selected version is one of the prompt's.
use llmgov.Base.{
  ◌≡◌, refl, ◌⊎◌, inl, inr, true, Option, none, some, List, [], ◌∷◌, Text, text_eq, text_eq_iff,
  text_eq_refl, Bool-cases, Option-cases, arith,
}
use llmgov.Prompts.{
  PromptVersion, PromptRegistry, Configured, Found, found, key_error, value_error, unreadable,
  ensure_loaded, look_for, first_version, choose, select_from, select_version, get_from,
  get_version, then_find, is_found,
}

module _ {W : Type 0} where
  abbrev pub IsAmong : PromptVersion W → List (PromptVersion W) → Type 0
  IsAmong v [] = ⊥
  IsAmong v (x ∷ rest) = (v ≡ x) ⊎ IsAmong v rest

  -- What `random.choices` documents: the choice is one of the population.
  abbrev pub Chooses : (List (PromptVersion W) → Option (PromptVersion W)) → Type 0
  Chooses choices =
      (vs : List (PromptVersion W)) (v : PromptVersion W) → choices vs ≡ some v → IsAmong v vs

  first_version-IsAmong :
      (v : PromptVersion W) (vs : List (PromptVersion W))
      → IsAmong v vs
      → (w : PromptVersion W) × (first_version v.version vs ≡ some w) × (w.version ≡ v.version)
  unfolding first_version
  first_version-IsAmong v [] h = absurd h
  first_version-IsAmong v (x ∷ rest) h = elim (Bool-cases (text_eq x.version v.version)) [
    | inl same ↦ (x, rw same refl, (text_eq_iff x.version v.version).0 same)
    | inr differ ↦ elim h [
      | inl e ↦ absurd (ground (arith, differ, e, text_eq_refl v.version))
      | inr later ↦
          let (w, is, version_is) = first_version-IsAmong v rest later in
          (w, rw (differ, is) refl, version_is)
    ]
  ]

  module _ (choices : List (PromptVersion W) → Option (PromptVersion W))
      (law : Chooses choices) where
    choose-IsAmong :
        (vs : List (PromptVersion W)) (v : PromptVersion W)
        → choose choices vs ≡ found v
        → IsAmong v vs
    unfolding choose
    choose-IsAmong [] v h = cc
    choose-IsAmong (x ∷ rest) v h = law (x ∷ rest) v (ground arith)

    selected :
        (prompt_id : Text) (v : PromptVersion W) (r : PromptRegistry W)
        → select_from choices prompt_id r ≡ found v
        → (w : PromptVersion W) × (get_from prompt_id v.version r ≡ found w)
          × (w.version ≡ v.version)
    unfolding select_from get_from
    selected prompt_id v r h = elim (Option-cases (look_for prompt_id r.prompts)) [
      | inl e ↦ absurd (ground (arith, e, h))
      | inr (entry, e) ↦
          let among = choose-IsAmong entry.versions v (rw (e, select_from) at h) in
          let (w, is, version_is) = first_version-IsAmong v entry.versions among in
          (w, rw (e, get_from) (rw is refl), version_is)
    ]

    ensured :
        (one : W) (file : Option (Option (List (Found (Configured W))))) (r : PromptRegistry W)
        → is_found (ensure_loaded one file r).0 ≡ true
        → (ensure_loaded one file r).1.loaded ≡ true
    unfolding ensure_loaded
    ensured one none r h = ground arith
    ensured one (some none) r h = ground arith
    ensured one (some (some entries)) r h = ground arith

    loaded_same :
        (one : W) (file : Option (Option (List (Found (Configured W))))) (r : PromptRegistry W)
        → r.loaded ≡ true
        → ensure_loaded one file r ≡ (found tt, r)
    unfolding ensure_loaded
    loaded_same one file r h = rw h refl

    then_find-found :
        (ready : Found Unit) (result : Found (PromptVersion W)) (v : PromptVersion W)
        → then_find ready result ≡ found v
        → (is_found ready ≡ true) × (result ≡ found v)
    then_find-found (found u) result v h = (refl, h)
    then_find-found key_error result v h = cc
    then_find-found value_error result v h = cc
    then_find-found unreadable result v h = cc

    -- A version that is selected for a prompt, of a registry that is loaded or loads its file now,
    -- can be had by its name afterwards, whatever the file holds by then: `get_version` finds a
    -- version of that name for that prompt. `random.choices` is taken to choose among the versions.
    pub select_version-get_version :
        (one : W) (file later : Option (Option (List (Found (Configured W))))) (prompt_id : Text)
        (v : PromptVersion W) (r : PromptRegistry W)
        → (select_version one file choices prompt_id r).0 ≡ found v
        → (w : PromptVersion W) × ((get_version one later prompt_id v.version
              (select_version one file choices prompt_id r).1).0
            ≡ found w)
          × (w.version ≡ v.version)
    unfolding select_version get_version
    select_version-get_version one file later prompt_id v r h =
        let r' = (ensure_loaded one file r).1 in
        let (ready, chosen) =
          then_find-found (ensure_loaded one file r).0 (select_from choices prompt_id r') v h in
        let (w, is, version_is) = selected prompt_id v r' chosen in
        (w, rw (loaded_same one later r' (ensured one file r ready), is) refl, version_is)
