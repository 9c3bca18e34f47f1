-- ===== src/Prompts.antt =====
-- app/core/prompt_registry.py: `PromptRegistry`. The YAML file is read by a parameter; a weight is a
-- value of the type `W`, and `random.choices` a parameter.
pub mod Lookup
pub mod Render
use llmgov.Base.{
  Bool, true, false, ◌||◌, Option, none, some, List, [], ◌∷◌, ◌++◌, map, Text, codes, text_eq,
  if◌then◌else◌,
}

pub record PromptVersion (W : Type 0) : Type 0 where
  pub prompt_id : Text
  pub version : Text
  pub template_text : Text
  pub weight : W

pub record PromptEntry (W : Type 0) : Type 0 where
  pub prompt_id : Text
  pub versions : List (PromptVersion W)

-- `_prompts`, a dict in the order of its keys' first assignments, and `_loaded`.
pub record PromptRegistry (W : Type 0) : Type 0 where
  pub prompts : List (PromptEntry W)
  pub loaded : Bool

-- An entry of the file: its id, and the versions with their weights where they have one.
pub record Configured (W : Type 0) : Type 0 where
  pub prompt_id : Text
  pub versions : List ((Text × Text) × Option W)

-- How a call ends: with a value, `KeyError`, `ValueError`, or any other exception of a file that
-- cannot be read or is no configuration.
pub data Found (A : Type 0) : Type 0 where
  found : A → Found A
  key_error value_error unreadable : Found A

abbrev pub is_found : Found Unit → Bool
is_found (found u) = true
is_found _ = false

abbrev pub then_find : {A : Type 0} → Found Unit → Found A → Found A
then_find (found u) result = result
then_find key_error result = key_error
then_find value_error result = value_error
then_find unreadable result = unreadable

module _ {W : Type 0} where
  abbrev pub weight_or : W → Option W → W
  weight_or default none = default
  weight_or default (some w) = w

  -- The entry that `load` makes of a configured one; a weight defaults to 1.0.
  unfoldable pub to_entry : W → Configured W → PromptEntry W
  to_entry one c = record {
    prompt_id = c.prompt_id;
    versions =
        map
          (λ v. record {
            prompt_id = c.prompt_id;
            version = v.0.0;
            template_text = v.0.1;
            weight = weight_or one v.1;
          })
          c.versions;
  }

  -- `self._prompts[prompt_id] = prompt_entry`: a key that is there keeps its place.
  unfoldable pub assign : PromptEntry W → List (PromptEntry W) → List (PromptEntry W)
  assign entry [] = entry ∷ []
  assign entry (e ∷ rest) =
      let rest' = assign entry rest in
      if text_eq e.prompt_id entry.prompt_id then entry ∷ rest else e ∷ rest'

  -- The loop over the entries of the file, each one as it is or as what reading it raises: the
  -- entries in front of such a one stay assigned.
  unfoldable pub assign_all :
      W → List (Found (Configured W)) → List (PromptEntry W) → Found Unit × List (PromptEntry W)
  unfolding assign to_entry
  assign_all one [] prompts = (found tt, prompts)
  assign_all one (found c ∷ rest) prompts = assign_all one rest (assign (to_entry one c) prompts)
  assign_all one (key_error ∷ rest) prompts = (key_error, prompts)
  assign_all one (value_error ∷ rest) prompts = (value_error, prompts)
  assign_all one (unreadable ∷ rest) prompts = (unreadable, prompts)

  -- `load`, of a missing file, of one that cannot be read, and of the entries of one.
  unfoldable pub load :
      W
      → Option (Option (List (Found (Configured W))))
      → PromptRegistry W
      → Found Unit × PromptRegistry W
  unfolding assign_all
  load one none r = (found tt, record r { loaded = true })
  load one (some none) r = (unreadable, r)
  load one (some (some entries)) r =
      let (ended, prompts) = assign_all one entries r.prompts in
      (ended, record { prompts = prompts; loaded = is_found ended || r.loaded })

  -- `if not self._loaded: self.load()`
  unfoldable pub ensure_loaded :
      W
      → Option (Option (List (Found (Configured W))))
      → PromptRegistry W
      → Found Unit × PromptRegistry W
  unfolding load
  ensure_loaded one file r = if r.loaded then (found tt, r) else load one file r

  unfoldable pub look_for : Text → List (PromptEntry W) → Option (PromptEntry W)
  look_for prompt_id [] = none
  look_for prompt_id (e ∷ rest) =
      let later = look_for prompt_id rest in if text_eq e.prompt_id prompt_id then some e else later

  unfoldable pub first_version : Text → List (PromptVersion W) → Option (PromptVersion W)
  first_version version [] = none
  first_version version (v ∷ rest) =
      let later = first_version version rest in if text_eq v.version version then some v else later

  -- `random.choices(versions, weights=weights, k=1)[0]` is `none` where it raises `ValueError`.
  unfoldable pub choose :
      (List (PromptVersion W) → Option (PromptVersion W))
      → List (PromptVersion W)
      → Found (PromptVersion W)
  choose choices [] = value_error
  choose choices (v ∷ rest) = elim (choices (v ∷ rest)) [
    | none ↦ value_error
    | some chosen ↦ found chosen
  ]

  unfoldable pub select_from :
      (List (PromptVersion W) → Option (PromptVersion W))
      → Text
      → PromptRegistry W
      → Found (PromptVersion W)
  unfolding choose look_for
  select_from choices prompt_id r = elim (look_for prompt_id r.prompts) [
    | none ↦ key_error
    | some entry ↦ choose choices entry.versions
  ]

  -- `select_version`
  unfoldable pub select_version :
      W
      → Option (Option (List (Found (Configured W))))
      → (List (PromptVersion W) → Option (PromptVersion W))
      → Text
      → PromptRegistry W
      → Found (PromptVersion W) × PromptRegistry W
  unfolding ensure_loaded select_from
  select_version one file choices prompt_id r =
      let (ready, r') = ensure_loaded one file r in
      (then_find ready (select_from choices prompt_id r'), r')

  unfoldable pub get_from : Text → Text → PromptRegistry W → Found (PromptVersion W)
  unfolding first_version look_for
  get_from prompt_id version r = elim (look_for prompt_id r.prompts) [
    | none ↦ key_error
    | some entry ↦ elim (first_version version entry.versions) [
      | none ↦ key_error
      | some v ↦ found v
    ]
  ]

  -- `get_version`
  unfoldable pub get_version :
      W
      → Option (Option (List (Found (Configured W))))
      → Text
      → Text
      → PromptRegistry W
      → Found (PromptVersion W) × PromptRegistry W
  unfolding ensure_loaded get_from
  get_version one file prompt_id version r =
      let (ready, r') = ensure_loaded one file r in
      (then_find ready (get_from prompt_id version r'), r')

  -- `list_prompts`
  unfoldable pub list_prompts :
      W
      → Option (Option (List (Found (Configured W))))
      → PromptRegistry W
      → Found (List (Text × List Text)) × PromptRegistry W
  unfolding ensure_loaded
  list_prompts one file r =
      let (ready, r') = ensure_loaded one file r in
      (
        then_find ready (
            found (
              map
                (λ (e : PromptEntry W).
                  (e.prompt_id, map (λ (v : PromptVersion W). v.version) e.versions))
                r'.prompts)),
        r',
      )
