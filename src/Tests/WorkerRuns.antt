-- ===== src/Tests/WorkerRuns.antt =====
-- Two calls of the audit log: both read the key, the second commits and the first has to try again.
use mathlib.Core.List.{reverse}
use llmgov.Base.{ℕ, ◌≡◌, refl, List, [], ◌∷◌, arith}
use llmgov.Audit.Workers.{
  Pc, ready, Memory, Move, watch, get, commit, conflict, insert, Worker, System, begins, moves,
  unused, Reach, start, later,
}
use llmgov.Audit.Workers.Log.{IsSound}
use llmgov.Audit.Workers.Accounted.{IsAccounted, Reach-IsAccounted}
use llmgov.Tests.AuditRuns.{tools, entry, pad_full}

tools-IsSound : IsSound tools
tools-IsSound = record { digests = λ s. pad_full (reverse s); stores = λ row stored e. cc (e) }

abbrev at : Pc ℕ → Worker tools
at pc = record { entry = entry; pc = pc }

-- The first of the calls, or the second, makes an access.
first_moves :
    {m m' : Memory ℕ} {pc pc' : Pc ℕ} {ws : List (Worker tools)}
    → Reach tools (record { memory = m; workers = at pc ∷ ws })
    → Move tools entry m pc m' pc'
    → Reach tools (record { memory = m'; workers = at pc' ∷ ws })
first_moves {m' = m'} {pc} {pc'} {ws} r move = later r (moves [] ws entry pc pc' m' refl move refl)

second_moves :
    {m m' : Memory ℕ} {pc pc' : Pc ℕ} {w : Worker tools}
    → Reach tools (record { memory = m; workers = w ∷ at pc ∷ [] })
    → Move tools entry m pc m' pc'
    → Reach tools (record { memory = m'; workers = w ∷ at pc' ∷ [] })
second_moves {m' = m'} {pc} {pc'} {w} r move =
    later r (moves (w ∷ []) [] entry pc pc' m' refl move refl)

both_ready : Reach tools (record (unused tools) { workers = at (ready 5) ∷ at (ready 5) ∷ [] })
both_ready = later (later start (begins entry refl)) (begins entry refl)

-- The second call commits while the first has read the key.
abbrev raced : (s : System tools) × Reach tools s
raced = (
  _,
  first_moves
      (second_moves
        (second_moves
          (second_moves (second_moves (first_moves (first_moves both_ready watch) get) watch) get)
          (commit refl))
        (insert refl))
      (conflict (λ e. absurd (omega (arith, e)))),
)

abbrev tried_again : (s : System tools) × Reach tools s
tried_again = (
  _,
  first_moves (first_moves (first_moves (first_moves raced.1 watch) get) (commit refl))
      (insert refl),
)

both_rows : tried_again.0.memory.rows ≡ tried_again.0.memory.committed
both_rows = refl

Reach-IsAccounted_example : IsAccounted tools tried_again.0
Reach-IsAccounted_example = Reach-IsAccounted tools tools-IsSound tried_again.1
