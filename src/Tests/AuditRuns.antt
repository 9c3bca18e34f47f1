-- ===== src/Tests/AuditRuns.antt =====
-- A table of two rows, with a digest of 64 characters that reads the last ones of a text first.
use mathlib.Core.List.{reverse}
use llmgov.Base.{
  ◌+◌, inl, All, ℕ, zero, suc, ◌≡◌, ◌≢◌, refl, ap, ◌⊎◌, true, false, none, some, List, [], ◌∷◌,
  ◌++◌, Text, is_empty, codes, length, arith, head-eq,
}
use llmgov.Audit.{
  Entry, Tools, serialize_audit_row, compute_row_hash, genesis_hash, prev_of, lock_loop, Round,
  commits, contended, broken, reply_lost, Ledger, lock_row, record_audit_log,
}
use llmgov.Json.{quote}
use llmgov.Audit.Serial.{IsRepr, IsEncodable}
use llmgov.Audit.Lock.{Commits}
use llmgov.Audit.Chain.{
  verify, last_hash, IsChained, IsHealthy, Recorded, record_all, KeepsChain, record-IsChained,
  record_all-IsChained,
}
use llmgov.Audit.Tamper.{
  Collision, HasEncodable, entries_of, last_hash-determines_entries, unlocked_row, give_up-breaks,
}

abbrev pad : ℕ → Text → Text
pad zero t = []
pad (suc n) [] = b'0' ∷ pad n []
pad (suc n) (c ∷ t) = c ∷ pad n t

abbrev pub digest : Text → Text
digest t = pad 64 (reverse t)

length-pad : (n : ℕ) (t : Text) → length (pad n t) ≡ n
length-pad zero t = refl
length-pad (suc n) [] = ap suc (length-pad n [])
length-pad (suc n) (c ∷ t) = ap suc (length-pad n t)

digest_sized : (t : Text) → length (digest t) ≡ 64
digest_sized t = length-pad 64 (reverse t)

abbrev pub tools : Tools ℕ
tools = record { sha256 = digest; show = λ n. (n + 45) ∷ []; insert = λ row. some row }

pub pad_full : (t : Text) → is_empty (pad 64 t) ≡ false
pad_full [] = refl
pad_full (c ∷ t) = refl

pub tools-IsHealthy : IsHealthy tools
tools-IsHealthy = record { digests = λ s. pad_full (reverse s); inserts = λ row. refl }

abbrev pub entry : Entry ℕ
entry = record {
  trace_id = codes "t";
  timestamp = codes "now";
  sanitized_prompt = codes "q";
  raw_response = codes "a";
  has_pii_redacted = false;
  toxicity_score = 0;
  jailbreak_score = 0;
}

-- The first round commits.
abbrev pub first_commits : ℕ → Round ℕ
first_commits i = commits

-- What another call does.
abbrev another : Ledger ℕ → Ledger ℕ
another ledger = record_audit_log tools entry true first_commits (λ found. found) ledger

-- The second round commits, and another call does in the first.
abbrev second_commits : ℕ → Round ℕ
second_commits zero = contended another
second_commits (suc n) = commits

abbrev calls : List (Recorded ℕ)
calls = (entry, second_commits) ∷ (entry, first_commits) ∷ []

abbrev done_by : Round ℕ → Ledger ℕ → Ledger ℕ
done_by (contended others) ledger = others ledger
done_by commits ledger = ledger
done_by broken ledger = ledger
done_by reply_lost ledger = ledger

first_commits-KeepsChain : KeepsChain tools first_commits
first_commits-KeepsChain i others e ledger chained = absurd (cc e)

second_commits-KeepsChain : KeepsChain tools second_commits
second_commits-KeepsChain zero others e ledger chained =
    let same : another ledger ≡ others ledger = ap (λ r. done_by r ledger) e in
    rw (← same) (
      record-IsChained tools tools-IsHealthy entry first_commits ledger tt first_commits-KeepsChain
        chained)
second_commits-KeepsChain (suc n) others e ledger chained = absurd (cc e)

abbrev pub nothing : Ledger ℕ
nothing = record { latest = none; rows = [] }

pub nothing-IsChained : IsChained tools nothing
unfolding verify last_hash prev_of
nothing-IsChained = record { verified = refl; current = refl }

record_all-IsChained_example : IsChained tools (record_all tools calls nothing)
record_all-IsChained_example =
    record_all-IsChained tools calls nothing tools-IsHealthy
      (tt, second_commits-KeepsChain, (tt, first_commits-KeepsChain, tt)) nothing-IsChained

abbrev one_row : Ledger ℕ
one_row = record_all tools ((entry, first_commits) ∷ []) nothing

one_row_verified : verify tools genesis_hash one_row.rows ≡ true
one_row_verified =
    (record_all-IsChained tools ((entry, first_commits) ∷ []) nothing tools-IsHealthy
      (tt, first_commits-KeepsChain, tt) nothing-IsChained).verified

show-IsRepr : IsRepr tools.show
show-IsRepr = record {
  injective = λ x y e. (let h : x + 45 ≡ y + 45 = head-eq e in omega arith);
  plain = λ x. ((λ e. absurd (omega (arith, e))), tt);
}

entry-IsEncodable : IsEncodable entry
entry-IsEncodable = record {
  trace_id = (inl (omega arith), tt);
  timestamp = (inl (omega arith), (inl (omega arith), (inl (omega arith), tt)));
  sanitized_prompt = (inl (omega arith), tt);
  raw_response = (inl (omega arith), tt);
}

one_row_encodable : All HasEncodable one_row.rows
unfolding record_all record_audit_log lock_row lock_loop
one_row_encodable = (entry-IsEncodable, tt)

last_hash-determines_entries_example :
    (entries_of tools one_row.rows ≡ entries_of tools one_row.rows) ⊎ Collision digest
last_hash-determines_entries_example =
    last_hash-determines_entries tools one_row.rows one_row.rows show-IsRepr one_row_encodable
      one_row_encodable digest_sized refl one_row_verified one_row_verified refl

-- Every round is contended, by nothing that the table shows.
abbrev always_contended : ℕ → Round ℕ
always_contended i = contended (λ ledger. ledger)

never-Commits : ¬ Commits 5 always_contended 0
never-Commits c = c

last_differs : last_hash tools genesis_hash one_row.rows ≢ genesis_hash
unfolding last_hash genesis_hash record_all record_audit_log compute_row_hash serialize_audit_row
    prev_of lock_row lock_loop quote
last_differs e = let same : ◌≡◌ {A = ℕ} b'}' b'0' = head-eq e in absurd (omega arith)

last_kept :
    last_hash tools genesis_hash (lock_row tools entry true always_contended one_row).1.rows
    ≢ genesis_hash
unfolding lock_row lock_loop
last_kept = last_differs

give_up-breaks_example :
    let rows = (record_audit_log tools entry true always_contended (λ found. found) one_row).rows in
    (rows
      ≡ (lock_row tools entry true always_contended one_row).1.rows
        ++ unlocked_row tools entry ∷ [])
    × (verify tools genesis_hash rows ≡ false)
give_up-breaks_example =
    give_up-breaks tools entry always_contended (λ found. found) one_row tools-IsHealthy
      never-Commits last_kept
