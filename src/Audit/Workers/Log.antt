-- ===== src/Audit/Workers/Log.antt =====
-- The key: what a call has seen of it, and the chain of the rows whose hashes it has had.
use llmgov.Base.{
  ◌≡◌, ◌≤◌, ◌<◌, ◌⊎◌, inl, inr, refl, sym, ◌∙◌, true, false, some, List, [], ◌∷◌, ◌++◌, All, Text,
  is_empty, arith,
}
use llmgov.Audit.{Entry, AuditRow, Tools, compute_row_hash, genesis_hash, prev_of}
use llmgov.Audit.Chain.{verify, last_hash, verify-snoc, last_hash-snoc, follows_own, prev_of_digest}
use llmgov.Audit.Workers.{
  Pc, ready, watched, fetched, inserting, finished, Memory, next_row, commit_row, Move, watch, get,
  commit, conflict, give_up, lose_reply, insert, drop, Worker,
}

module _ {F : Type 0} (t : Tools F) where
  -- A call that has seen the key at a version that it still has, has read what it still holds.
  abbrev Sees : Memory F → Pc F → Type 0
  Sees m (watched left seen) = seen ≤ m.set_count
  Sees m (fetched left seen current) =
      (seen ≤ m.set_count) × (m.set_count ≡ seen → current ≡ m.latest)
  Sees m _ = Unit

  -- The committed rows are one chain, of which the key holds the last hash.
  abbrev pub IsLog : Memory F → Type 0
  IsLog m =
      (verify t genesis_hash m.committed ≡ true)
      × (prev_of m.latest ≡ last_hash t genesis_hash m.committed)

  -- Digests are not empty, and a row is stored as it is given.
  pub record IsSound : Type 0 where
    pub digests : (s : Text) → is_empty (t.sha256 s) ≡ false
    pub stores : (row stored : AuditRow F) → t.insert row ≡ some stored → stored ≡ row

  commit-IsLog :
      IsSound
      → (entry : Entry F) (m : Memory F) → IsLog m
      → IsLog (commit_row t (next_row t m.latest entry) m)
  commit-IsLog sound entry m (verified, current) =
      let row = next_row t m.latest entry in
      (
        verify-snoc t genesis_hash m.committed row
            ∙ rw (verified, ← current) (follows_own t entry (prev_of m.latest)),
        unfold compute_row_hash in
            prev_of_digest t row.row_hash (sound.digests _)
            ∙ sym (last_hash-snoc t genesis_hash m.committed row),
      )

  pub Move-IsLog :
      IsSound
      → {entry : Entry F} {m m' : Memory F} {pc pc' : Pc F} → Move t entry m pc m' pc'
      → Sees m pc
      → IsLog m
      → IsLog m'
  Move-IsLog sound watch sees log = log
  Move-IsLog sound get sees log = log
  Move-IsLog sound {entry} {m} (commit e) sees log = rw (sees.1 e) (commit-IsLog sound entry m log)
  Move-IsLog sound (conflict e) sees log = log
  Move-IsLog sound (give_up trying) sees log = log
  Move-IsLog sound {entry} {m} (lose_reply e) sees log =
      rw (sees.1 e) (commit-IsLog sound entry m log)
  Move-IsLog sound (insert e) sees log = log
  Move-IsLog sound (drop e) sees log = log

  pub Move-Sees :
      {entry : Entry F} {m m' : Memory F} {pc pc' : Pc F}
      → Move t entry m pc m' pc'
      → Sees m pc
      → Sees m' pc'
  Move-Sees watch sees = omega arith
  Move-Sees get sees = (sees, λ e. refl)
  Move-Sees (commit e) sees = tt
  Move-Sees (conflict e) sees = tt
  Move-Sees (give_up trying) sees = tt
  Move-Sees (lose_reply e) sees = tt
  Move-Sees (insert e) sees = tt
  Move-Sees (drop e) sees = tt

  -- The key is as it was, or has been set once more.
  abbrev Since : Memory F → Memory F → Type 0
  Since m m' =
      ((m'.set_count ≡ m.set_count) × (m'.latest ≡ m.latest)) ⊎ (m.set_count < m'.set_count)

  pub Move-Since :
      {entry : Entry F} {m m' : Memory F} {pc pc' : Pc F} → Move t entry m pc m' pc' → Since m m'
  Move-Since watch = inl (refl, refl)
  Move-Since get = inl (refl, refl)
  Move-Since (commit e) = inr (omega arith)
  Move-Since (conflict e) = inl (refl, refl)
  Move-Since (give_up trying) = inl (refl, refl)
  Move-Since (lose_reply e) = inr (omega arith)
  Move-Since (insert e) = inl (refl, refl)
  Move-Since (drop e) = inl (refl, refl)

  Since-Sees : (m m' : Memory F) (pc : Pc F) → Since m m' → Sees m pc → Sees m' pc
  Since-Sees m m' (ready left) since sees = tt
  Since-Sees m m' (watched left seen) since sees = ground (arith, since)
  Since-Sees m m' (fetched left seen current) (inl (e, e')) sees =
      (omega (arith, sees.0, e), λ h. sees.1 (sym e ∙ h) ∙ sym e')
  Since-Sees m m' (fetched left seen current) (inr more) sees =
      (omega (arith, sees.0, more), λ h. absurd (omega (arith, sees.0, more, h)))
  Since-Sees m m' (inserting row) since sees = tt
  Since-Sees m m' finished since sees = tt

  abbrev pub WorkerSees : Memory F → Worker t → Type 0
  WorkerSees m w = Sees m w.pc

  pub All-WorkerSees :
      (m m' : Memory F) (ws : List (Worker t))
      → Since m m'
      → All (WorkerSees m) ws
      → All (WorkerSees m') ws
  All-WorkerSees m m' [] since h = tt
  All-WorkerSees m m' (w ∷ ws) since h =
      (Since-Sees m m' w.pc since h.0, All-WorkerSees m m' ws since h.1)

  pub All-middle :
      (m : Memory F) (before : List (Worker t)) (w : Worker t) (after : List (Worker t))
      → All (WorkerSees m) (before ++ w ∷ after)
      → All (WorkerSees m) before × WorkerSees m w × All (WorkerSees m) after
  All-middle m [] w after h = (tt, h.0, h.1)
  All-middle m (v ∷ before) w after h =
      let (hs, hw, ha) = All-middle m before w after h.1 in ((h.0, hs), hw, ha)
