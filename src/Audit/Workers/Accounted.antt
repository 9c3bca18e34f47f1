-- ===== src/Audit/Workers/Accounted.antt =====
-- What holds of the key and the table in every reachable state.
use llmgov.Base.{ℕ, ◌+◌, ◌≡◌, refl, ap, true, List, ◌∷◌, ◌++◌, All, All-append}
use llmgov.Audit.{Entry, AuditRow, Tools, genesis_hash, prev_of}
use llmgov.Audit.Chain.{verify, last_hash}
use llmgov.Audit.Workers.{
  Pc, Memory, Move, watch, get, commit, conflict, give_up, lose_reply, insert, drop, Worker, System,
  Step, begins, moves, unused, Reach, start, later,
}
use llmgov.Audit.Workers.Log.{
  IsSound, WorkerSees, Move-IsLog, Move-Sees, Move-Since, All-WorkerSees, All-middle,
}
use llmgov.Audit.Workers.Rows.{total, pending, pending-middle, Move-IsBalanced}

module _ {F : Type 0} (t : Tools F) where
  -- A row that names the first hash.
  abbrev pub IsFirst : AuditRow F → Type 0
  IsFirst row = row.prev_hash ≡ genesis_hash

  Move-IsFirst :
      {entry : Entry F} {m m' : Memory F} {pc pc' : Pc F}
      → Move t entry m pc m' pc'
      → All IsFirst m.strays
      → All IsFirst m'.strays
  Move-IsFirst watch h = h
  Move-IsFirst get h = h
  Move-IsFirst (commit e) h = h
  Move-IsFirst (conflict e) h = h
  Move-IsFirst (give_up trying) h = (refl, h)
  Move-IsFirst (lose_reply e) h = (refl, h)
  Move-IsFirst (insert e) h = h
  Move-IsFirst (drop e) h = h

  -- The hashes that the key has had are those of one chain of rows, whose last it holds; what is in
  -- the table, waits for its insert or is lost is, row by row, what was committed to that chain and
  -- what was made without the key; and the latter names the first hash as its previous one.
  pub record IsAccounted (s : System t) : Type 0 where
    pub verified : verify t genesis_hash s.memory.committed ≡ true
    pub current : prev_of s.memory.latest ≡ last_hash t genesis_hash s.memory.committed
    pub balanced :
        (weight : AuditRow F → ℕ)
        → total weight s.memory.rows
            + total weight (pending t s.workers)
            + total weight s.memory.lost
          ≡ total weight s.memory.committed + total weight s.memory.strays
    pub first : All IsFirst s.memory.strays

  record IsKept (s : System t) : Type 0 where
    accounted : IsAccounted s
    seen : All (WorkerSees t s.memory) s.workers

  unused-IsKept : IsKept (unused t)
  unfolding verify last_hash total pending prev_of
  unused-IsKept = record {
    accounted = record { verified = refl; current = refl; balanced = λ weight. refl; first = tt };
    seen = tt;
  }

  moved-IsKept :
      IsSound t
      → (before after : List (Worker t)) (entry : Entry F) {pc pc' : Pc F} {m m' : Memory F}
      → Move t entry m pc m' pc'
      → IsKept
          (record { memory = m; workers = before ++ record { entry = entry; pc = pc } ∷ after })
      → IsKept
          (record { memory = m'; workers = before ++ record { entry = entry; pc = pc' } ∷ after })
  moved-IsKept sound before after entry {pc} {pc'} {m} {m'} move k =
      let (hs, hw, ha) = All-middle t m before (record { entry = entry; pc = pc }) after k.seen in
      let since = Move-Since t move in
      let log = Move-IsLog t sound move hw (k.accounted.verified, k.accounted.current) in
      record {
        accounted = record {
          verified = log.0;
          current = log.1;
          balanced = λ weight. rw (pending-middle t weight before entry pc' after) (
              Move-IsBalanced t sound weight
                (total weight (pending t before) + total weight (pending t after)) move
                (rw (pending-middle t weight before entry pc after) at
                  (k.accounted.balanced weight)));
          first = Move-IsFirst move k.accounted.first;
        };
        seen =
            All-append (WorkerSees t m') before (record { entry = entry; pc = pc' } ∷ after)
              (All-WorkerSees t m m' before since hs)
              (Move-Sees t move hw, All-WorkerSees t m m' after since ha);
      }

  step-IsKept : IsSound t → {s u : System t} → Step t s u → IsKept s → IsKept u
  unfolding pending
  step-IsKept sound {s} {u} (begins entry e) k = rw e (record {
    accounted = record {
      verified = k.accounted.verified;
      current = k.accounted.current;
      balanced = k.accounted.balanced;
      first = k.accounted.first;
    };
    seen = (tt, k.seen);
  })
  step-IsKept sound {s} {u} (moves before after entry pc pc' m' e move e') k = rw e' (
      moved-IsKept sound before after entry move (
        let same : s ≡ record {
          memory = s.memory;
          workers = before ++ record { entry = entry; pc = pc } ∷ after;
        } =
          ap (λ ws. record s { workers = ws }) e in
        rw same at k))

  reach-IsKept : IsSound t → {s : System t} → Reach t s → IsKept s
  reach-IsKept sound start = unused-IsKept
  reach-IsKept sound (later r step) = step-IsKept sound step (reach-IsKept sound r)

  -- Whatever calls of the audit log run together, in however many processes, however their accesses
  -- interleave and wherever they fail: the hashes that the Redis key has had are those of one chain
  -- of rows from the first hash on, and the key holds its last; the rows of the table, those waiting
  -- to be inserted and those lost are together the committed rows and the rows made without the key,
  -- each as often; and the latter name the first hash as their previous one. Digests are not empty,
  -- and the table stores a row as it is given.
  pub Reach-IsAccounted : IsSound t → {s : System t} → Reach t s → IsAccounted s
  Reach-IsAccounted sound r = (reach-IsKept sound r).accounted
