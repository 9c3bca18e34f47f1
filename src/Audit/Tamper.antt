-- ===== src/Audit/Tamper.antt =====
-- What the audit chain shows of a changed table, and what a round that gives up does to it.
use llmgov.Base.{
  map, All, ◌≡◌, ◌≢◌, refl, ap, sym, ◌∙◌, ◌⊎◌, inl, inr, ℕ, true, false, List, [], ◌∷◌, ◌++◌, Text,
  text_eq, text_eq_iff, arith, length, Bool-cases, head-eq, tail-eq,
}
use llmgov.Audit.{
  Entry, AuditRow, Tools, serialize_audit_row, compute_row_hash, genesis_hash, Round, Ledger,
  hashes_or_genesis, lock_row, row_of, insert_row, record_audit_log,
}
use llmgov.Audit.Serial.{IsRepr, IsEncodable, serialize_audit_row_inj}
use llmgov.Audit.Lock.{Commits, lock_loop_gives_up}
use llmgov.Audit.Chain.{follows, verify, last_hash, verify-snoc, IsHealthy, inserted}

-- Two texts that are different and have one digest.
pub record Collision (sha256 : Text → Text) : Type 0 where
  pub one : Text
  pub other : Text
  pub differ : text_eq one other ≡ false
  pub same : sha256 one ≡ sha256 other

append_inj : (p q s s' : Text) → length p ≡ length q → p ++ s ≡ q ++ s' → (p ≡ q) × (s ≡ s')
append_inj [] [] s s' l e = (refl, e)
append_inj [] (c ∷ q) s s' l e = absurd (ground arith)
append_inj (c ∷ p) [] s s' l e = absurd (ground arith)
append_inj (c ∷ p) (d ∷ q) s s' l e =
    let (same, rest) = append_inj p q s s' (ground arith) (tail-eq e) in
    (rw (head-eq e, same), rest)

abbrev pub HasEncodable : {F : Type 0} → AuditRow F → Type 0
HasEncodable row = IsEncodable row.entry

list_head-eq : {A : Type 0} {x y : A} {xs ys : List A} → x ∷ xs ≡ y ∷ ys → x ≡ y
list_head-eq e = cc

list_tail-eq : {A : Type 0} {x y : A} {xs ys : List A} → x ∷ xs ≡ y ∷ ys → xs ≡ ys
list_tail-eq e = cc

genesis_length : length genesis_hash ≡ 64
unfolding genesis_hash
genesis_length = refl

module _ {F : Type 0} (t : Tools F) where
  -- What the hashes of a table are computed over.
  unfoldable pub contents : List (AuditRow F) → List Text
  contents [] = []
  contents (row ∷ rows) = serialize_audit_row t row.entry ∷ contents rows

  row_collides :
      (p q : Text) (row row' : AuditRow F)
      → length p ≡ length q
      → follows t p row ≡ true
      → follows t q row' ≡ true
      → row.row_hash ≡ row'.row_hash
      → ((p ≡ q) × (serialize_audit_row t row.entry ≡ serialize_audit_row t row'.entry))
        ⊎ Collision t.sha256
  unfolding follows compute_row_hash
  row_collides p q row row' l f f' h =
      let s = serialize_audit_row t row.entry in
      let s' = serialize_audit_row t row'.entry in
      let fits : t.sha256 (p ++ s) ≡ row.row_hash = sym ((text_eq_iff _ _).0 (ground (arith, f))) in
      let fits' : t.sha256 (q ++ s') ≡ row'.row_hash =
        sym ((text_eq_iff _ _).0 (ground (arith, f'))) in
      elim (Bool-cases (text_eq (p ++ s) (q ++ s'))) [
        | inl same ↦ inl (append_inj p q s s' l ((text_eq_iff _ _).0 same))
        | inr differ ↦ inr (record {
          one = p ++ s;
          other = q ++ s';
          differ = differ;
          same = fits ∙ (h ∙ sym fits');
        })
      ]

  follows-length :
      (p : Text) (row : AuditRow F) (n : ℕ)
      → ((s : Text) → length (t.sha256 s) ≡ n)
      → follows t p row ≡ true
      → length row.row_hash ≡ n
  unfolding follows compute_row_hash
  follows-length p row n sized f =
      ap length (
        (text_eq_iff row.row_hash (t.sha256 (p ++ serialize_audit_row t row.entry))).0
          (ground (arith, f)))
      ∙ sized _

  -- Two chains of as many rows and with the same last hash.
  chains_agree :
      (n : ℕ) (p q : Text) (rows rows' : List (AuditRow F))
      → ((s : Text) → length (t.sha256 s) ≡ n)
      → length p ≡ n
      → length q ≡ n
      → length rows ≡ length rows'
      → verify t p rows ≡ true
      → verify t q rows' ≡ true
      → last_hash t p rows ≡ last_hash t q rows'
      → ((p ≡ q) × (contents rows ≡ contents rows')) ⊎ Collision t.sha256
  unfolding contents verify last_hash
  chains_agree n p q [] [] sized lp lq l v v' h = inl (h, refl)
  chains_agree n p q [] (r ∷ rows') sized lp lq l v v' h = absurd (ground arith)
  chains_agree n p q (r ∷ rows) [] sized lp lq l v v' h = absurd (ground arith)
  chains_agree n p q (r ∷ rows) (r' ∷ rows') sized lp lq l v v' h =
      let f : follows t p r ≡ true = ground (arith, v) in
      let f' : follows t q r' ≡ true = ground (arith, v') in
      elim (chains_agree n r.row_hash r'.row_hash rows rows' sized (follows-length p r n sized f)
        (follows-length q r' n sized f') (ground (arith, l)) (ground (arith, v))
        (ground (arith, v')) h) [
          | inr collision ↦ inr collision
          | inl (heads, rest) ↦ elim (row_collides p q r r' (lp ∙ sym lq) f f' heads) [
            | inr collision ↦ inr collision
            | inl (same, first) ↦ inl (same, rw (first, rest))
          ]
        ]

  -- Two tables that verify from the first hash on, with as many rows and the same last hash, hash
  -- the same serialized rows in the same order, or show two different texts with one digest; the
  -- digests are taken to have 64 characters, as the first hash has.
  pub last_hash-determines :
      (rows rows' : List (AuditRow F))
      → ((s : Text) → length (t.sha256 s) ≡ 64)
      → length rows ≡ length rows'
      → verify t genesis_hash rows ≡ true
      → verify t genesis_hash rows' ≡ true
      → last_hash t genesis_hash rows ≡ last_hash t genesis_hash rows'
      → (contents rows ≡ contents rows') ⊎ Collision t.sha256
  last_hash-determines rows rows' sized l v v' h =
      elim (chains_agree 64 genesis_hash genesis_hash rows rows' sized genesis_length genesis_length
        l v v' h) [ inl (same, agree) ↦ inl agree | inr collision ↦ inr collision ]

  abbrev pub entries_of : List (AuditRow F) → List (Entry F)
  entries_of rows = map (λ (row : AuditRow F). row.entry) rows

  contents_inj :
      IsRepr t.show
      → (rows rows' : List (AuditRow F)) → All HasEncodable rows
      → All HasEncodable rows'
      → contents rows ≡ contents rows'
      → entries_of rows ≡ entries_of rows'
  unfolding contents
  contents_inj repr [] [] h h' e = refl
  contents_inj repr [] (r ∷ rows') h h' e = absurd (cc)
  contents_inj repr (r ∷ rows) [] h h' e = absurd (cc)
  contents_inj repr (r ∷ rows) (r' ∷ rows') h h' e =
      let first = serialize_audit_row_inj t repr r.entry r'.entry h.0 h'.0 (list_head-eq e) in
      cc (first, contents_inj repr rows rows' h.1 h'.1 (list_tail-eq e))

  -- Two tables that verify from the first hash on, with as many rows and the same last hash, have the
  -- same entries in the same order, or show two different texts with one digest. Digests have 64
  -- characters, as the first hash has, floats are written as `IsRepr` says, and the texts of the
  -- entries hold no halves of pairs.
  pub last_hash-determines_entries :
      (rows rows' : List (AuditRow F))
      → IsRepr t.show
      → All HasEncodable rows
      → All HasEncodable rows'
      → ((s : Text) → length (t.sha256 s) ≡ 64)
      → length rows ≡ length rows'
      → verify t genesis_hash rows ≡ true
      → verify t genesis_hash rows' ≡ true
      → last_hash t genesis_hash rows ≡ last_hash t genesis_hash rows'
      → (entries_of rows ≡ entries_of rows') ⊎ Collision t.sha256
  last_hash-determines_entries rows rows' repr h h' sized l v v' e =
      elim (last_hash-determines rows rows' sized l v v' e) [
        | inl agree ↦ inl (contents_inj repr rows rows' h h' agree)
        | inr collision ↦ inr collision
      ]

  not_follows : (prev : Text) (row : AuditRow F) → prev ≢ row.prev_hash → follows t prev row ≡ false
  unfolding follows
  not_follows prev row h = elim (Bool-cases (text_eq row.prev_hash prev)) [
    | inl same ↦ absurd (h (sym ((text_eq_iff row.prev_hash prev).0 same)))
    | inr differ ↦ rw (differ) refl
  ]

  -- The row as it is made without the key.
  abbrev pub unlocked_row : Entry F → AuditRow F
  unlocked_row entry =
      row_of t entry
        (genesis_hash, compute_row_hash t.sha256 genesis_hash (serialize_audit_row t entry))

  lock_row_gives_up :
      (entry : Entry F) (rounds : ℕ → Round F) (ledger : Ledger F)
      → ¬ Commits 5 rounds 0
      → (lock_row t entry true rounds ledger).0 ≡ unlocked_row entry
  unfolding lock_row hashes_or_genesis
  lock_row_gives_up entry rounds ledger c =
      rw (lock_loop_gives_up t.sha256 (serialize_audit_row t entry) rounds 5 0 ledger c) refl

  given_up :
      (entry : Entry F) (rounds : ℕ → Round F) (others : Ledger F → Ledger F) (ledger : Ledger F)
      → ¬ Commits 5 rounds 0
      → (record_audit_log t entry true rounds others ledger).rows
        ≡ insert_row t (unlocked_row entry) (others (lock_row t entry true rounds ledger).1).rows
  unfolding record_audit_log
  given_up entry rounds others ledger c = rw (lock_row_gives_up entry rounds ledger c) refl

  -- Where no round of the lock commits (five contended ones, or an error in one), inserts go
  -- through, and the rows that the insert finds have another last hash than the first hash, the row
  -- is inserted behind them all the same, as a first row: its previous hash is the first hash, and
  -- its own the one that follows from that. The table then does not verify.
  pub give_up-breaks :
      (entry : Entry F) (rounds : ℕ → Round F) (others : Ledger F → Ledger F) (ledger : Ledger F)
      → IsHealthy t
      → ¬ Commits 5 rounds 0
      → last_hash t genesis_hash (others (lock_row t entry true rounds ledger).1).rows
        ≢ genesis_hash
      → let rows = (record_audit_log t entry true rounds others ledger).rows in
        (rows ≡ (others (lock_row t entry true rounds ledger).1).rows ++ unlocked_row entry ∷ [])
        × (verify t genesis_hash rows ≡ false)
  give_up-breaks entry rounds others ledger healthy c other =
      let row = unlocked_row entry in
      let found = (others (lock_row t entry true rounds ledger).1).rows in
      let is = given_up entry rounds others ledger c ∙ inserted t row found (healthy.inserts row) in
      (
        is,
        ap (verify t genesis_hash) is
            ∙ (verify-snoc t genesis_hash found row
                ∙ ground (arith, not_follows (last_hash t genesis_hash found) row other)),
      )
