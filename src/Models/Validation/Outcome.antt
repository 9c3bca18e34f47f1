-- ===== src/Models/Validation/Outcome.antt =====
-- What holds of the outcome of a check, and of checks put together.
use llmgov.Base.{◌≢◌, refl, List, [], ◌∷◌, ◌++◌, All, All-append}
use llmgov.Models.Validation.{Field, Checked, valid, violated, both, checked_map}

-- An outcome of which the value or every field is as it is said to be.
abbrev pub Holds : {A : Type 0} → (A → Type 0) → (Field → Type 0) → Checked A → Type 0
Holds P W (valid a) = P a
Holds P W (violated fields) = (fields ≢ []) × All W fields

append_not_empty : {A : Type 0} (xs ys : List A) → xs ≢ [] → xs ++ ys ≢ []
append_not_empty [] ys h e = h refl
append_not_empty (x ∷ xs) ys h e = cc

pub Holds-imp :
    {A : Type 0} (P Q : A → Type 0) (W : Field → Type 0) (a : Checked A)
    → ((x : A) → P x → Q x)
    → Holds P W a
    → Holds Q W a
Holds-imp P Q W (valid a) keeps h = keeps a h
Holds-imp P Q W (violated fields) keeps h = h

module _ {A B : Type 0} (P : A → Type 0) (Q : B → Type 0) (W : Field → Type 0) where
  pub both-Holds :
      (a : Checked A) (b : Checked B)
      → Holds P W a
      → Holds Q W b
      → Holds (λ (ab : A × B). P ab.0 × Q ab.1) W (both a b)
  both-Holds (valid a) (valid b) p q = (p, q)
  both-Holds (valid a) (violated fs) p q = q
  both-Holds (violated fs) (valid b) p q = p
  both-Holds (violated fs) (violated fs') p q =
      (append_not_empty fs fs' p.0, All-append W fs fs' p.1 q.1)

  pub checked_map-Holds :
      (f : A → B) (a : Checked A)
      → ((x : A) → P x → Q (f x))
      → Holds P W a
      → Holds Q W (checked_map f a)
  checked_map-Holds f (valid a) keeps p = keeps a p
  checked_map-Holds f (violated fs) keeps p = p

pub one_field :
    (W : Field → Type 0) (field : Field) → W field → (field ∷ [] ≢ []) × All W (field ∷ [])
one_field W field w = ((λ e. cc), (w, tt))
