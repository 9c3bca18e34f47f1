-- ===== src/Jailbreak/Loaded.antt =====
-- The reference vectors are loaded whole or not at all.
use llmgov.Base.{◌≡◌, inl, inr, true, List, Bool-cases, Option-cases, Option, some, Text, is_empty}
use llmgov.Floats.{Floats}
use llmgov.Jailbreak.{
  References, jailbreak_prompts, embed_all, initialize_reference_vectors, detect_jailbreak,
}

module _ (f : Floats) (embed : Text → Option (List f.F)) where
  -- Loaded references are the embeddings of all the prompts.
  pub record IsLoaded (r : References f) : Type 0 where
    pub loaded :
        r.vectors_initialized ≡ true
        → embed_all f embed jailbreak_prompts ≡ some r.reference_vectors

  initialize-IsLoaded :
      (r : References f) → IsLoaded r → IsLoaded (initialize_reference_vectors f embed r).1
  unfolding initialize_reference_vectors
  initialize-IsLoaded r l = elim (Bool-cases r.vectors_initialized) [
    | inl ready ↦ rw ready (record { loaded = λ h. l.loaded ready })
    | inr fresh ↦ elim (Option-cases (embed_all f embed jailbreak_prompts)) [
      | inl e ↦ rw (fresh, e) l
      | inr (vectors, e) ↦ rw (fresh, e) (record { loaded = λ h. e })
    ]
  ]

  -- Every call keeps the references whole: where they count as loaded they are the embeddings of
  -- all the prompts, in order, also after calls in which an embedding failed.
  pub detect_jailbreak-IsLoaded :
      (text : Text) (prompt_embedding : Option (List f.F)) (threshold : f.F) (r : References f)
      → IsLoaded r
      → IsLoaded (detect_jailbreak f embed text prompt_embedding threshold r).1
  unfolding detect_jailbreak
  detect_jailbreak-IsLoaded text prompt_embedding threshold r l =
      elim (Bool-cases (is_empty text)) [
        | inl e ↦ rw e l
        | inr full ↦ elim (Bool-cases (initialize_reference_vectors f embed r).0) [
          | inl ready ↦ rw (full, ready) (initialize-IsLoaded r l)
          | inr not_ready ↦ rw (full, not_ready) (initialize-IsLoaded r l)
        ]
      ]
