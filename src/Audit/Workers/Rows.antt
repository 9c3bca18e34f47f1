-- ===== src/Audit/Workers/Rows.antt =====
-- The rows that calls make: each is in the table, waits for its insert, or is lost.
use llmgov.Base.{ℕ, ◌+◌, ◌≡◌, refl, ap, List, [], ◌∷◌, ◌++◌, arith}
use llmgov.Audit.{Entry, AuditRow, Tools}
use llmgov.Audit.Workers.{
  Pc, ready, watched, fetched, inserting, finished, Memory, IsTrying, Move, watch, get, commit,
  conflict, give_up, lose_reply, insert, drop, Worker,
}
use llmgov.Audit.Workers.Log.{IsSound}

-- The weights of some rows together.
unfoldable pub total {ℓ} : {A : Type ℓ} → (A → ℕ) → List A → ℕ
total weight [] = 0
total weight (x ∷ xs) = weight x + total weight xs

total-append {ℓ} :
    {A : Type ℓ} (weight : A → ℕ) (xs ys : List A)
    → total weight (xs ++ ys) ≡ total weight xs + total weight ys
unfolding total
total-append weight [] ys = omega arith
total-append weight (x ∷ xs) ys = omega (arith, total-append weight xs ys)

module _ {F : Type 0} (t : Tools F) where
  -- The row that a call is about to insert.
  abbrev carried : Pc F → List (AuditRow F)
  carried (inserting row) = row ∷ []
  carried _ = []

  unfoldable pub pending : List (Worker t) → List (AuditRow F)
  pending [] = []
  pending (w ∷ ws) = carried w.pc ++ pending ws

  pending-append :
      (weight : AuditRow F → ℕ) (ws vs : List (Worker t))
      → total weight (pending (ws ++ vs)) ≡ total weight (pending ws) + total weight (pending vs)
  unfolding pending total
  pending-append weight [] vs = omega arith
  pending-append weight (w ∷ ws) vs = omega (
    arith,
    pending-append weight ws vs,
    total-append weight (carried w.pc) (pending (ws ++ vs)),
    total-append weight (carried w.pc) (pending ws),
  )

  -- Every row that a call has made is in the table, about to be inserted or lost.
  abbrev IsBalanced : (AuditRow F → ℕ) → Memory F → List (AuditRow F) → Type 0
  IsBalanced weight m waiting =
      total weight m.rows + total weight waiting + total weight m.lost
      ≡ total weight m.committed + total weight m.strays

  carried-IsTrying : (pc : Pc F) → IsTrying pc → carried pc ≡ []
  carried-IsTrying (ready left) h = refl
  carried-IsTrying (watched left seen) h = refl
  carried-IsTrying (fetched left seen current) h = refl
  carried-IsTrying (inserting row) h = absurd h
  carried-IsTrying finished h = absurd h

  -- What a call carries and what waits with the others add up.
  pub Move-IsBalanced :
      IsSound t
      → (weight : AuditRow F → ℕ) {entry : Entry F} {m m' : Memory F} {pc pc' : Pc F} → (others : ℕ)
      → Move t entry m pc m' pc'
      → total weight m.rows + (total weight (carried pc) + others) + total weight m.lost
        ≡ total weight m.committed + total weight m.strays
      → total weight m'.rows + (total weight (carried pc') + others) + total weight m'.lost
        ≡ total weight m'.committed + total weight m'.strays
  unfolding total
  Move-IsBalanced sound weight others watch b = b
  Move-IsBalanced sound weight others get b = b
  Move-IsBalanced sound weight {m = m} others (commit {current = current} e) b =
      omega (arith, b, total-append weight m.committed)
  Move-IsBalanced sound weight others (conflict e) b = b
  Move-IsBalanced sound weight others (give_up {pc = pc} trying) b =
      omega (arith, b, ap (total weight) (carried-IsTrying pc trying))
  Move-IsBalanced sound weight {m = m} others (lose_reply e) b =
      omega (arith, b, total-append weight m.committed)
  Move-IsBalanced sound weight {m = m} others (insert e) b =
      omega (arith, b, total-append weight m.rows, ap weight (sound.stores _ _ e))
  Move-IsBalanced sound weight others (drop e) b = omega (arith, b)

  pub pending-middle :
      (weight : AuditRow F → ℕ) (before : List (Worker t)) (entry : Entry F) (pc : Pc F)
      (after : List (Worker t))
      → total weight (pending (before ++ record { entry = entry; pc = pc } ∷ after))
        ≡ total weight (carried pc) + (total weight (pending before) + total weight (pending after))
  unfolding pending
  pending-middle weight before entry pc after = omega (
    arith,
    pending-append weight before (record { entry = entry; pc = pc } ∷ after),
    total-append weight (carried pc) (pending after),
  )
