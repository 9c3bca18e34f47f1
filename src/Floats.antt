-- ===== src/Floats.antt =====
-- Floats and what the guardrails do with them, as a parameter, and the running maximum that
-- app/core/jailbreak.py and app/core/toxicity.py keep.
use llmgov.Base.{ℕ, ◌≡◌, ◌↔◌, inl, inr, Bool, true, false, Bool-cases, if◌then◌else◌}

pub record Floats : Type 1 where
  pub F : Type 0
  -- the literals with two decimals, in hundredths
  pub hundredths : ℕ → F
  pub add : F → F → F
  pub mul : F → F → F
  pub div : F → F → F
  pub sqrt : F → F
  pub less : F → F → Bool
  pub is_zero : F → Bool
  -- `round(x, digits)`
  pub round : ℕ → F → F

-- What the comparison of floats that are numbers is relied on for.
pub record IsOrder (f : Floats) : Type 0 where
  pub transitive : (a b c : f.F) → f.less a b ≡ true → f.less b c ≡ true → f.less a c ≡ true
  pub below : (a b c : f.F) → f.less a b ≡ false → f.less a c ≡ true → f.less b c ≡ true

-- `if score > best: best = score`
abbrev pub larger : (f : Floats) → f.F → f.F → f.F
larger f best score = if f.less best score then score else best

pub larger_iff :
    {f : Floats} (order : IsOrder f) (best score threshold : f.F)
    → (f.less (larger f best score) threshold ≡ true)
      ↔ ((f.less best threshold ≡ true) × (f.less score threshold ≡ true))
larger_iff {f = f} order best score threshold = elim (Bool-cases (f.less best score)) [
  | inl more ↦ rw more (λ h. (order.transitive best score threshold more h, h), λ h. h.1)
  | inr no_more ↦ rw no_more (λ h. (h, order.below best score threshold no_more h), λ h. h.0)
]
