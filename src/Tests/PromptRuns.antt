-- ===== src/Tests/PromptRuns.antt =====
-- A configuration of one prompt with two versions, and a choice of the first.
use llmgov.Base.{
  ℕ, ◌≡◌, refl, inl, false, Option, none, some, List, [], ◌∷◌, codes, text_eq, Text, Lacks, Bool,
  true, not, ◌&&◌, ◌==◌, arith,
}
use llmgov.Prompts.{
  PromptVersion, PromptRegistry, Configured, Found, found, select_version, get_version,
}
use llmgov.Prompts.Render.{render}
use llmgov.Prompts.Render.Filled.{Piece, IsKey, literal, hole, print, fill, render-fill}
use llmgov.Prompts.Lookup.{Chooses, select_version-get_version}

abbrev configured : Option (Option (List (Found (Configured ℕ))))
configured = some (
    some (
      found (record {
        prompt_id = codes "default";
        versions = ((codes "v1", codes "t"), some 8) ∷ ((codes "v2", codes "u"), none) ∷ [];
      })
      ∷ []))

abbrev first_choice : List (PromptVersion ℕ) → Option (PromptVersion ℕ)
first_choice [] = none
first_choice (v ∷ rest) = some v

first_Chooses : Chooses first_choice
first_Chooses [] v h = cc
first_Chooses (x ∷ rest) v h = inl (cc h)

abbrev fresh : PromptRegistry ℕ
fresh = record { prompts = []; loaded = false }

abbrev v1 : PromptVersion ℕ
v1 = record {
  prompt_id = codes "default";
  version = codes "v1";
  template_text = codes "t";
  weight = 8;
}

v1_selected : (select_version 1 configured first_choice (codes "default") fresh).0 ≡ found v1
unfolding select_version text_eq
v1_selected = refl

select_version-get_version_example :
    (w : PromptVersion ℕ) × ((get_version 1 none
        (codes "default")
        (codes "v1")
        (select_version 1 configured first_choice (codes "default") fresh).1).0
      ≡ found w)
    × (w.version ≡ codes "v1")
select_version-get_version_example =
    select_version-get_version first_choice first_Chooses 1 configured none (codes "default") v1
      fresh v1_selected

abbrev greeting : PromptVersion ℕ
greeting = record v1 { template_text = codes "Hi {{who}}, {{what}}" }

abbrev pieces : List Piece
pieces =
    literal (codes "Hi ") ∷ hole (codes "who") ∷ literal (codes ", ") ∷ hole (codes "what") ∷ []

abbrev kwargs : List (Text × Text)
kwargs = (codes "who", codes "Bo") ∷ []

greeting_printed : greeting.template_text ≡ print pieces
unfolding print
greeting_printed = refl

abbrev lacks : ℕ → Text → Bool
lacks c [] = true
lacks c (d ∷ t) = not (d == c) && lacks c t

lacks-Lacks : (c : ℕ) (t : Text) → lacks c t ≡ true → Lacks c t
lacks-Lacks c [] h = tt
lacks-Lacks c (d ∷ t) h = (ground (arith, h), lacks-Lacks c t (ground (arith, h)))

who-IsKey : IsKey (codes "who")
who-IsKey = (lacks-Lacks b'{' (codes "who") refl, lacks-Lacks b'}' (codes "who") refl)

what-IsKey : IsKey (codes "what")
what-IsKey = (lacks-Lacks b'{' (codes "what") refl, lacks-Lacks b'}' (codes "what") refl)

render-fill_example : render kwargs greeting ≡ fill kwargs pieces
render-fill_example =
    render-fill kwargs greeting pieces greeting_printed
      (
        lacks-Lacks b'{' (codes "Hi ") refl,
        (who-IsKey, (lacks-Lacks b'{' (codes ", ") refl, (what-IsKey, tt))),
      )
      ((who-IsKey, lacks-Lacks b'{' (codes "Bo") refl), tt)

greeting_rendered : render kwargs greeting ≡ codes "Hi Bo, {{what}}"
unfolding render
greeting_rendered = refl

-- A value that holds another key is filled in its turn.
value_expanded :
    render ((codes "who", codes "{{what}}") ∷ (codes "what", codes "secret") ∷ []) greeting
    ≡ codes "Hi secret, secret"
unfolding render
value_expanded = refl
