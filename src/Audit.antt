-- ===== src/Audit.antt =====
-- app/core/telemetry.py: the audit log's hash chain, `serialize_audit_row`, `compute_row_hash` and
-- `record_audit_log`. `sha256` is the hexadecimal digest; `show` is how `json.dumps` writes a float;
-- timestamps are their `isoformat()` texts.
pub mod Client
pub mod Chain
pub mod Lock
pub mod Serial
pub mod Tamper
pub mod Workers
use llmgov.Base.{
  ℕ, zero, suc, ◌+◌, Bool, true, false, Option, none, some, List, [], ◌∷◌, ◌++◌, Text, codes,
  is_empty, if◌then◌else◌,
}
use llmgov.Json.{quote}

pub record Entry (F : Type 0) : Type 0 where
  pub trace_id : Text
  pub timestamp : Text
  pub sanitized_prompt : Text
  pub raw_response : Text
  pub has_pii_redacted : Bool
  pub toxicity_score : F
  pub jailbreak_score : F

pub record AuditRow (F : Type 0) : Type 0 where
  pub entry : Entry F
  pub prev_hash : Text
  pub row_hash : Text

-- What the module takes from elsewhere. `insert` is `none` where `uuid.UUID(trace_id)` or the
-- insert into ClickHouse raises.
pub record Tools (F : Type 0) : Type 0 where
  pub sha256 : Text → Text
  pub show : F → Text
  pub insert : AuditRow F → Option (AuditRow F)

-- `json.dumps(..., sort_keys=True, separators=(",", ":"))` of the seven fields.
unfoldable pub serialize_audit_row : {F : Type 0} → Tools F → Entry F → Text
serialize_audit_row t r =
    codes "{\"has_pii_redacted\":"
    ++ ((if r.has_pii_redacted then codes "1" else codes "0")
        ++ (codes ",\"jailbreak_score\":"
            ++ (t.show r.jailbreak_score
                ++ (codes ",\"raw_response\":"
                    ++ (quote r.raw_response
                        ++ (codes ",\"sanitized_prompt\":"
                            ++ (quote r.sanitized_prompt
                                ++ (codes ",\"timestamp\":"
                                    ++ (quote r.timestamp
                                        ++ (codes ",\"toxicity_score\":"
                                            ++ (t.show r.toxicity_score
                                                ++ (codes ",\"trace_id\":"
                                                    ++ (quote r.trace_id ++ codes "}")))))))))))))

unfoldable pub compute_row_hash : (Text → Text) → Text → Text → Text
compute_row_hash sha256 prev_hash serialized_row = sha256 (prev_hash ++ serialized_row)

unfoldable pub genesis_hash : Text
genesis_hash = codes "0000000000000000000000000000000000000000000000000000000000000000"

-- `if not current_prev`: a missing key and an empty value.
unfoldable pub prev_of : Option Text → Text
prev_of none = genesis_hash
prev_of (some []) = genesis_hash
prev_of (some (c ∷ t)) = c ∷ t

-- The Redis key and the table.
pub record Ledger (F : Type 0) : Type 0 where
  pub latest : Option Text
  pub rows : List (AuditRow F)

-- How one round of the optimistic lock ends. `commits` is a transaction that goes through, so that
-- `llmgov:audit:latest_hash` is still what was read under `WATCH`; `contended` is a `WatchError`,
-- with what other calls have done to the key and the table until the key is read again; `broken` is
-- any other exception before the key is set, `reply_lost` one after.
pub data Round (F : Type 0) : Type 0 where
  commits broken reply_lost : Round F
  contended : (Ledger F → Ledger F) → Round F

-- The hashes of the row (previous, own), if a round committed, and the key and the table afterwards.
unfoldable pub lock_loop :
    {F : Type 0}
    → (Text → Text)
    → Text
    → ℕ
    → (ℕ → Round F)
    → ℕ
    → Ledger F
    → Option (Text × Text) × Ledger F
lock_loop sha256 serialized zero rounds i ledger = (none, ledger)
lock_loop sha256 serialized (suc n) rounds i ledger =
    let prev = prev_of ledger.latest in
    let row_hash = compute_row_hash sha256 prev serialized in
    elim (rounds i) [
      | commits ↦ (some (prev, row_hash), record ledger { latest = some row_hash })
      | contended others ↦ lock_loop sha256 serialized n rounds (i + 1) (others ledger)
      | broken ↦ (none, ledger)
      | reply_lost ↦ (none, record ledger { latest = some row_hash })
    ]

-- The row's hashes stay those of a first row where no round has committed.
unfoldable pub hashes_or_genesis : (Text → Text) → Text → Option (Text × Text) → Text × Text
hashes_or_genesis sha256 serialized none =
    (genesis_hash, compute_row_hash sha256 genesis_hash serialized)
hashes_or_genesis sha256 serialized (some hashes) = hashes

module _ {F : Type 0} (t : Tools F) where
  abbrev pub row_of : Entry F → Text × Text → AuditRow F
  row_of entry (prev, own) = record { entry = entry; prev_hash = prev; row_hash = own }

  -- `_insert`: what raises in it is logged, and the row is lost.
  unfoldable pub insert_row : AuditRow F → List (AuditRow F) → List (AuditRow F)
  insert_row row rows = elim (t.insert row) [ none ↦ rows | some stored ↦ rows ++ stored ∷ [] ]

  -- The loop: `initialized` is whether `get_redis()` returns.
  unfoldable pub lock_row : Entry F → Bool → (ℕ → Round F) → Ledger F → AuditRow F × Ledger F
  unfolding hashes_or_genesis
  lock_row entry initialized rounds ledger =
      let serialized = serialize_audit_row t entry in
      let (hashes, ledger') =
        if initialized then lock_loop t.sha256 serialized 5 rounds 0 ledger else (none, ledger) in
      (row_of entry (hashes_or_genesis t.sha256 serialized hashes), ledger')

  -- `others` is what other calls do to the key and the table between the end of the loop and the
  -- insert, which runs in a thread of its own.
  unfoldable pub record_audit_log :
      Entry F → Bool → (ℕ → Round F) → (others : Ledger F → Ledger F) → Ledger F → Ledger F
  unfolding insert_row lock_row
  record_audit_log entry initialized rounds others ledger =
      let (row, ledger') = lock_row entry initialized rounds ledger in
      let found = others ledger' in record found { rows = insert_row row found.rows }
