-- ===== src/Core/Examples/Guards.antt =====
-- The theorems about the scope guards at concrete inputs.
use bipolar.Common.{ℕ, ◌+◌, ◌*◌, ◌≡◌, true, false, List, [], ◌∷◌}
use bipolar.Core.ScopeGuard.Exits.{
  Made, exit, on_success, on_failure, by_exception, leave, callbacks, run_all, leave-run_all,
}

-- Four guards, each of which writes a digit.
abbrev guards : List (Made × (ℕ → ℕ))
guards =
    (exit false, λ s. s * 10 + 1)
    ∷ (exit true, λ s. s * 10 + 2)
    ∷ (on_success, λ s. s * 10 + 3)
    ∷ (on_failure, λ s. s * 10 + 4)
    ∷ []

leave-run_all_example : leave 1 by_exception guards 0 ≡ run_all (callbacks by_exception guards) 0
leave-run_all_example = leave-run_all 1 by_exception guards 0

-- The digits are those of the last guard, then of the first.
guards_written : leave 1 by_exception guards 0 ≡ 41
guards_written = leave-run_all 1 by_exception guards 0
