-- ===== src/Audit/Lock.antt =====
-- The loop of the optimistic lock in `record_audit_log` of app/core/telemetry.py.
use llmgov.Base.{◌≡◌, refl, ◌⊎◌, inl, inr, ℕ, zero, suc, ◌+◌, none, some, Text}
use llmgov.Audit.{
  compute_row_hash, prev_of, Round, commits, contended, broken, reply_lost, Ledger, lock_loop,
}

-- Some round commits, after contended ones only.
abbrev pub Commits : {F : Type 0} → ℕ → (ℕ → Round F) → ℕ → Type 0
Commits zero rounds i = ⊥
Commits (suc n) rounds i = elim (rounds i) [
  | commits ↦ Unit
  | contended others ↦ Commits n rounds (i + 1)
  | broken ↦ ⊥
  | reply_lost ↦ ⊥
]

module _ {F : Type 0} (sha256 : Text → Text) (serialized : Text) (rounds : ℕ → Round F) where
  Round-cases :
      (r : Round F)
      → ((r ≡ commits) ⊎ ((others : Ledger F → Ledger F) × (r ≡ contended others)))
        ⊎ ((r ≡ broken) ⊎ (r ≡ reply_lost))
  Round-cases commits = inl (inl refl)
  Round-cases (contended others) = inl (inr (others, refl))
  Round-cases broken = inr (inl refl)
  Round-cases reply_lost = inr (inr refl)

  abbrev pub own : Ledger F → Text
  own ledger = compute_row_hash sha256 (prev_of ledger.latest) serialized

  -- Whatever other calls between the rounds keep holds where a round commits.
  pub lock_loop-Commits :
      (P : Ledger F → Type 0)
      → ((i : ℕ) (others : Ledger F → Ledger F)
          → rounds i ≡ contended others
          → (ledger : Ledger F) → P ledger
          → P (others ledger))
      → (n i : ℕ) (ledger : Ledger F) → Commits n rounds i
      → P ledger
      → (seen : Ledger F) × P seen
        × (lock_loop sha256 serialized n rounds i ledger
            ≡ (some (prev_of seen.latest, own seen), record seen { latest = some (own seen) }))
  unfolding lock_loop
  lock_loop-Commits P keeps zero i ledger c p = absurd c
  lock_loop-Commits P keeps (suc n) i ledger c p = elim (Round-cases (rounds i)) [
    | inl (inl r) ↦ (ledger, p, rw (r, lock_loop) refl)
    | inl (inr (others, r)) ↦
        let (seen, q, is) =
          lock_loop-Commits P keeps n (i + 1) (others ledger) (rw (r, Commits) at c)
            (keeps i others r ledger p) in
        (seen, q, rw (r, lock_loop) is)
    | inr (inl r) ↦ absurd (rw (r, Commits) at c)
    | inr (inr r) ↦ absurd (rw (r, Commits) at c)
  ]

  pub lock_loop-first :
      (n : ℕ) (ledger : Ledger F)
      → rounds 0 ≡ commits
      → lock_loop sha256 serialized (suc n) rounds 0 ledger
        ≡ (some (prev_of ledger.latest, own ledger), record ledger { latest = some (own ledger) })
  unfolding lock_loop
  lock_loop-first n ledger r = rw (r, lock_loop) refl

  pub lock_loop_gives_up :
      (n i : ℕ) (ledger : Ledger F)
      → ¬ Commits n rounds i
      → (lock_loop sha256 serialized n rounds i ledger).0 ≡ none
  unfolding lock_loop
  lock_loop_gives_up zero i ledger c = refl
  lock_loop_gives_up (suc n) i ledger c = elim (Round-cases (rounds i)) [
    | inl (inl r) ↦ absurd (c (rw (r, Commits) tt))
    | inl (inr (others, r)) ↦
        rw (r, lock_loop)
          (lock_loop_gives_up n (i + 1) (others ledger) (λ d. c (rw (r, Commits) d)))
    | inr (inl r) ↦ rw (r, lock_loop)
    | inr (inr r) ↦ rw (r, lock_loop)
  ]
