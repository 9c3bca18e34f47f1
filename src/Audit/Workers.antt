-- ===== src/Audit/Workers.antt =====
-- Calls of `record_audit_log` that run at the same time, in one process or in several: each is at
-- some place of its optimistic lock, and their accesses to Redis and ClickHouse interleave in any
-- order.
pub mod Log
pub mod Rows
pub mod Accounted
use llmgov.Base.{ℕ, suc, ◌+◌, ◌≡◌, ◌≢◌, Option, none, some, List, [], ◌∷◌, ◌++◌, Text}
use llmgov.Audit.{
  Entry, AuditRow, Tools, serialize_audit_row, compute_row_hash, genesis_hash, prev_of, row_of,
}

-- Where a call stands: in front of `watch`, with the rounds that it has left; behind it, having seen
-- the key at a version; behind `get`, with the key's value; in front of the insert, with its row.
pub data Pc (F : Type 0) : Type 0 where
  ready : (left : ℕ) → Pc F
  watched : (left seen : ℕ) → Pc F
  fetched : (left seen : ℕ) (current : Option Text) → Pc F
  inserting : AuditRow F → Pc F
  finished : Pc F

-- The key, how often it has been set, and the table. The last three are not kept anywhere: the rows
-- whose hashes the key has had, in order; the rows made without the key; and the rows that no call
-- inserts, since Redis's reply or the insert was lost.
pub record Memory (F : Type 0) : Type 0 where
  pub latest : Option Text
  pub set_count : ℕ
  pub rows : List (AuditRow F)
  pub committed : List (AuditRow F)
  pub strays : List (AuditRow F)
  pub lost : List (AuditRow F)

-- Inside of the loop, where any exception but `WatchError` ends it.
abbrev pub IsTrying : {F : Type 0} → Pc F → Type 0
IsTrying (ready left) = Unit
IsTrying (watched left seen) = Unit
IsTrying (fetched left seen current) = Unit
IsTrying _ = ⊥

module _ {F : Type 0} (t : Tools F) where
  abbrev pub hashed : Text → Entry F → AuditRow F
  hashed prev entry =
      row_of t entry (prev, compute_row_hash t.sha256 prev (serialize_audit_row t entry))

  -- The row as it is made in front of the loop.
  abbrev pub first_row : Entry F → AuditRow F
  first_row entry = hashed genesis_hash entry

  -- The row of a round that has read the key.
  abbrev pub next_row : Option Text → Entry F → AuditRow F
  next_row current entry = hashed (prev_of current) entry

  -- What a transaction that goes through leaves.
  abbrev pub commit_row : AuditRow F → Memory F → Memory F
  commit_row row m = record m {
    latest = some row.row_hash;
    set_count = m.set_count + 1;
    committed = m.committed ++ row ∷ [];
  }

  -- One access of one call. Redis runs the transaction where the key has not been set since `watch`,
  -- and answers with a `WatchError` where it has.
  pub data Move (entry : Entry F) (m : Memory F) : Pc F → Memory F → Pc F → Type 0 where
    watch : {n : ℕ} → Move entry m (ready (suc n)) m (watched n m.set_count)
    get : {n v : ℕ} → Move entry m (watched n v) m (fetched n v m.latest)
    commit :
        {n v : ℕ} {current : Option Text}
        → m.set_count ≡ v
        → Move entry m
            (fetched n v current)
            (commit_row (next_row current entry) m)
            (inserting (next_row current entry))
    conflict :
        {n v : ℕ} {current : Option Text}
        → m.set_count ≢ v
        → Move entry m (fetched n v current) m (ready n)
    -- the rounds are used up, or an exception ends the loop before the transaction
    give_up :
        {pc : Pc F}
        → IsTrying pc
        → Move entry m pc
            (record m { strays = first_row entry ∷ m.strays })
            (inserting (first_row entry))
    -- an exception ends the loop behind the transaction
    lose_reply :
        {n v : ℕ} {current : Option Text}
        → m.set_count ≡ v
        → Move entry m
            (fetched n v current)
            (record (commit_row (next_row current entry) m) {
              strays = first_row entry ∷ m.strays;
              lost = next_row current entry ∷ m.lost;
            })
            (inserting (first_row entry))
    insert :
        {row stored : AuditRow F}
        → t.insert row ≡ some stored
        → Move entry m (inserting row) (record m { rows = m.rows ++ stored ∷ [] }) finished
    drop :
        {row : AuditRow F}
        → t.insert row ≡ none
        → Move entry m (inserting row) (record m { lost = row ∷ m.lost }) finished

  pub record Worker : Type 0 where
    pub entry : Entry F
    pub pc : Pc F

  pub record System : Type 0 where
    pub memory : Memory F
    pub workers : List Worker

  -- A call begins, with the five rounds of its loop, or any call makes its next access.
  pub data Step (s u : System) : Type 0 where
    begins :
        (entry : Entry F)
        → u ≡ record s { workers = record { entry = entry; pc = ready 5 } ∷ s.workers }
        → Step s u
    moves :
        (before after : List Worker) (entry : Entry F) (pc pc' : Pc F) (m' : Memory F)
        → s.workers ≡ before ++ record { entry = entry; pc = pc } ∷ after
        → Move entry s.memory pc m' pc'
        → u ≡ record { memory = m'; workers = before ++ record { entry = entry; pc = pc' } ∷ after }
        → Step s u

  -- No row yet, and no call.
  abbrev pub unused : System
  unused = record {
    memory = record {
      latest = none;
      set_count = 0;
      rows = [];
      committed = [];
      strays = [];
      lost = [];
    };
    workers = [];
  }

  pub data Reach : System → Type 0 where
    start : Reach unused
    later : {s u : System} → Reach s → Step s u → Reach u
