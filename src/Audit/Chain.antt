-- ===== src/Audit/Chain.antt =====
-- When the table is one chain of hashes, and what breaks it.
use llmgov.Base.{
  ◌≡◌, refl, sym, ap, ◌∙◌, ℕ, Bool, true, false, ◌&&◌, some, List, [], ◌∷◌, ◌++◌, Text, text_eq,
  text_eq_refl, is_empty, arith,
}
use llmgov.Audit.{
  Entry, AuditRow, Tools, serialize_audit_row, compute_row_hash, genesis_hash, prev_of, Round,
  commits, contended, Ledger, hashes_or_genesis, lock_row, row_of, insert_row, record_audit_log,
}
use llmgov.Audit.Lock.{Commits, lock_loop-Commits, lock_loop-first}

module _ {F : Type 0} (t : Tools F) where
  -- The row names the hash `prev` and has the hash that follows from it.
  unfoldable pub follows : Text → AuditRow F → Bool
  follows prev row =
      text_eq row.prev_hash prev
      && text_eq row.row_hash (compute_row_hash t.sha256 prev (serialize_audit_row t row.entry))

  -- A verifier of the table: every row follows the one in front of it.
  unfoldable pub verify : Text → List (AuditRow F) → Bool
  verify prev [] = true
  verify prev (row ∷ rows) = follows prev row && verify row.row_hash rows

  unfoldable pub last_hash : Text → List (AuditRow F) → Text
  last_hash prev [] = prev
  last_hash prev (row ∷ rows) = last_hash row.row_hash rows

  pub verify-snoc :
      (prev : Text) (rows : List (AuditRow F)) (row : AuditRow F)
      → verify prev (rows ++ row ∷ []) ≡ (verify prev rows && follows (last_hash prev rows) row)
  unfolding verify last_hash
  verify-snoc prev [] row = ground arith
  verify-snoc prev (r ∷ rows) row = ground (arith, verify-snoc r.row_hash rows row)

  pub last_hash-snoc :
      (prev : Text) (rows : List (AuditRow F)) (row : AuditRow F)
      → last_hash prev (rows ++ row ∷ []) ≡ row.row_hash
  unfolding last_hash
  last_hash-snoc prev [] row = refl
  last_hash-snoc prev (r ∷ rows) row = last_hash-snoc r.row_hash rows row

  pub follows_own :
      (entry : Entry F) (prev : Text)
      → follows prev
          (row_of t entry (prev, compute_row_hash t.sha256 prev (serialize_audit_row t entry)))
        ≡ true
  unfolding follows
  follows_own entry prev = ground (
    arith,
    text_eq_refl prev,
    text_eq_refl (compute_row_hash t.sha256 prev (serialize_audit_row t entry)),
  )

  -- The table verifies from the first hash on, and the Redis key holds the hash of its last row.
  pub record IsChained (ledger : Ledger F) : Type 0 where
    pub verified : verify genesis_hash ledger.rows ≡ true
    pub current : prev_of ledger.latest ≡ last_hash genesis_hash ledger.rows

  -- Digests are not empty, and inserts go through.
  pub record IsHealthy : Type 0 where
    pub digests : (s : Text) → is_empty (t.sha256 s) ≡ false
    pub inserts : (row : AuditRow F) → t.insert row ≡ some row

-- A call of `record_audit_log`: its entry, and how the rounds of its lock end. No other call sets
-- the key or inserts a row between the end of its loop and its insert.
abbrev pub Recorded : Type 0 → Type 0
Recorded F = Entry F × (ℕ → Round F)

unfoldable pub record_all : {F : Type 0} → Tools F → List (Recorded F) → Ledger F → Ledger F
record_all t [] ledger = ledger
record_all t ((entry, rounds) ∷ rest) ledger =
    record_all t rest (record_audit_log t entry true rounds (λ found. found) ledger)

module _ {F : Type 0} (t : Tools F) where
  pub prev_of_digest : (s : Text) → is_empty s ≡ false → prev_of (some s) ≡ s
  unfolding prev_of
  prev_of_digest [] h = cc
  prev_of_digest (c ∷ s) h = refl

  -- What other calls do to the key and the table between the rounds leaves them one chain.
  abbrev pub KeepsChain : (ℕ → Round F) → Type 0
  KeepsChain rounds =
      (i : ℕ) (others : Ledger F → Ledger F)
      → rounds i ≡ contended others
      → (ledger : Ledger F) → IsChained t ledger
      → IsChained t (others ledger)

  abbrev pub AllCommit : List (Recorded F) → Type 0
  AllCommit [] = Unit
  AllCommit ((entry, rounds) ∷ rest) = Commits 5 rounds 0 × KeepsChain rounds × AllCommit rest

  pub inserted :
      (row : AuditRow F) (rows : List (AuditRow F))
      → t.insert row ≡ some row
      → insert_row t row rows ≡ rows ++ row ∷ []
  unfolding insert_row
  inserted row rows h = rw (h, insert_row)

  abbrev pub next_row : Entry F → Ledger F → AuditRow F
  next_row entry seen = row_of t entry (
    prev_of seen.latest,
    compute_row_hash t.sha256 (prev_of seen.latest) (serialize_audit_row t entry),
  )

  -- A call that commits and inserts adds the next row of what its last round has read.
  pub record-next_row :
      IsHealthy t
      → (P : Ledger F → Type 0) (entry : Entry F) (rounds : ℕ → Round F) (ledger : Ledger F)
      → ((i : ℕ) (others : Ledger F → Ledger F)
          → rounds i ≡ contended others
          → (ledger : Ledger F) → P ledger
          → P (others ledger))
      → Commits 5 rounds 0
      → P ledger
      → (seen : Ledger F) × P seen
        × (record_audit_log t entry true rounds (λ found. found) ledger ≡ record {
          latest = some (next_row entry seen).row_hash;
          rows = seen.rows ++ next_row entry seen ∷ [];
        })
  unfolding record_audit_log lock_row hashes_or_genesis
  record-next_row healthy P entry rounds ledger keeps c p =
      let (seen, q, is) =
        lock_loop-Commits t.sha256 (serialize_audit_row t entry) rounds P keeps 5 0 ledger c p in
      let row = next_row entry seen in
      (
        seen,
        q,
        rw is (
            ap (λ rows. record { latest = some row.row_hash; rows = rows })
              (inserted row seen.rows (healthy.inserts row))),
      )

  -- A call whose first round commits and in front of whose insert nothing is done.
  pub record-alone :
      IsHealthy t
      → (entry : Entry F) (rounds : ℕ → Round F) (others : Ledger F → Ledger F) (ledger : Ledger F)
      → rounds 0 ≡ commits
      → ((found : Ledger F) → others found ≡ found)
      → record_audit_log t entry true rounds others ledger ≡ record {
        latest = some (next_row entry ledger).row_hash;
        rows = ledger.rows ++ next_row entry ledger ∷ [];
      }
  unfolding record_audit_log lock_row hashes_or_genesis
  record-alone healthy entry rounds others ledger first nothing =
      let row = next_row entry ledger in
      let after : Ledger F = record ledger { latest = some row.row_hash } in
      rw
        (
          lock_loop-first t.sha256 (serialize_audit_row t entry) rounds 4 ledger first,
          nothing after,
        )
        (ap (λ rows. record { latest = some row.row_hash; rows = rows })
          (inserted row ledger.rows (healthy.inserts row)))

  pub next-IsChained :
      IsHealthy t
      → (entry : Entry F) (seen : Ledger F) → IsChained t seen
      → IsChained t (record {
        latest = some (next_row entry seen).row_hash;
        rows = seen.rows ++ next_row entry seen ∷ [];
      })
  next-IsChained healthy entry seen chained =
      let row = next_row entry seen in
      record {
        verified =
            verify-snoc t genesis_hash seen.rows row
            ∙ rw (chained.verified, ← chained.current) (follows_own t entry (prev_of seen.latest));
        current =
            unfold compute_row_hash in
            prev_of_digest row.row_hash (healthy.digests _)
            ∙ sym (last_hash-snoc t genesis_hash seen.rows row);
      }

  pub record-IsChained :
      IsHealthy t
      → (entry : Entry F) (rounds : ℕ → Round F) (ledger : Ledger F) → Commits 5 rounds 0
      → KeepsChain rounds
      → IsChained t ledger
      → IsChained t (record_audit_log t entry true rounds (λ found. found) ledger)
  record-IsChained healthy entry rounds ledger c keeps chained =
      let (seen, q, is) =
        record-next_row healthy (IsChained t) entry rounds ledger keeps c chained in
      rw is (next-IsChained healthy entry seen q)

-- Calls that each commit, after up to four rounds contended by other calls, which leave the table
-- and the key one chain, and that each insert their row before any other call commits or inserts,
-- keep the table one verifiable chain from the first hash, whose last hash the Redis key holds.
-- Digests are not empty, every insert goes through, and the table and the key are such a chain to
-- begin with.
pub record_all-IsChained :
    {F : Type 0} (t : Tools F) (calls : List (Recorded F)) (ledger : Ledger F)
    → IsHealthy t
    → AllCommit t calls
    → IsChained t ledger
    → IsChained t (record_all t calls ledger)
unfolding record_all
record_all-IsChained t [] ledger healthy c chained = chained
record_all-IsChained t ((entry, rounds) ∷ rest) ledger healthy c chained =
    record_all-IsChained t rest (record_audit_log t entry true rounds (λ found. found) ledger)
      healthy c.2 (record-IsChained t healthy entry rounds ledger c.0 c.1 chained)
