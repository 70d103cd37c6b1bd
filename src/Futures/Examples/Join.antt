-- ===== src/Futures/Examples/Join.antt =====
-- The theorem about joined promises (bipolar/futures) at a concrete input.
use bipolar.Common.{ℕ, zero, suc, ◌+◌, ◌≡◌, if◌then◌else◌, List, [], ◌∷◌, Option, some}
use bipolar.Common.Outcome.{returns}
use bipolar.Core.Result.{Result, pending, ok, err}
use bipolar.Futures.Promise.Join.{JoinVector, join_run}
use bipolar.Futures.Promise.Join.Laws.{Paired, Kept, Polls, all_ready, steady, join_run_lem}

-- Waits as often as its state says, counts the calls in the context, then gives 7.
abbrev counting : ℕ → ℕ → Result ℕ ℕ × ℕ × ℕ
counting zero c = (ok 7, 0, c + 1)
counting (suc n) c = (pending, n, c + 1)

-- The first result is there already.
abbrev three : JoinVector ℕ ℕ ℕ
three = record {
  promises = some 1 ∷ some 0 ∷ some 2 ∷ [];
  results = err 5 ∷ pending ∷ pending ∷ [];
}

join_run_lem_example :
    (ps : List (Option ℕ)) × (rs : List (Result ℕ ℕ)) × (c' : ℕ) × Paired ps rs
    × Kept three.results rs
    × Polls counting three.promises three.results 0 ps rs c'
    × (join_run (steady counting) three 0 ≡ (
        if all_ready rs
        then returns (ok rs, record { promises = ps; results = [] }, c')
        else returns (pending, record { promises = ps; results = rs }, c')))
join_run_lem_example = join_run_lem counting three 0 tt
