-- ===== src/Completions/Keeps.antt =====
-- Properties of the state that a step keeps, whether it goes on or ends the request.
use llmgov.Base.{◌≡◌, refl, ◌⊎◌, inl, inr}
use llmgov.Externals.{Externals}
use llmgov.Completions.{M, Step, next, stop, End, Gateway, continue, ◌>>=◌, pass}

pub record Keeps {e : Externals} {A : Type 0} (P : Gateway e → Type 0) (m : M e A) : Type 0 where
  pub at : (g : Gateway e) → P g → P (m g).1

module _ {e : Externals} {P : Gateway e → Type 0} {A : Type 0} where
  pub Keeps-pass : (a : A) → Keeps {e = e} P (pass a)
  Keeps-pass a = record { at = λ g h. h }

  -- A step that only reads.
  pub Keeps-read : (f : Gateway e → Step A) → Keeps {e = e} P (λ g. (f g, g))
  Keeps-read f = record { at = λ g h. h }

module _ {e : Externals} {P : Gateway e → Type 0} {A B : Type 0} where
  pub continue-Keeps :
      (s : Step A) (f : A → M e B)
      → ((a : A) → s ≡ next a → Keeps P (f a))
      → (g : Gateway e) → P g
      → P (continue s f g).1
  continue-Keeps (next a) f kf g h = (kf a refl).at g h
  continue-Keeps (stop end) f kf g h = h

  pub Keeps-bind :
      (m : M e A) (f : A → M e B) → Keeps P m → ((a : A) → Keeps P (f a)) → Keeps P (m >>= f)
  Keeps-bind m f km kf = record {
    at = λ g h. let (s, g') = m g in continue-Keeps s f (λ a _. kf a) g' (km.at g h);
  }

module _ {A : Type 0} where
  -- To split on how a step ends and keep the equation.
  pub Step-cases : (s : Step A) → ((a : A) × (s ≡ next a)) ⊎ ((end : End) × (s ≡ stop end))
  Step-cases (next a) = inl (a, refl)
  Step-cases (stop end) = inr (end, refl)
