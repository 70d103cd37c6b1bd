-- ===== src/Core/Examples/Functions.antt =====
-- The theorems about `Function` for a counter that adds.
use bipolar.Common.{ℕ, ◌+◌, ◌≡◌, ◌↔◌, true, false, not, none, some, [], refl}
use bipolar.Common.Outcome.{returns}
use bipolar.Core.Function.{
  Kind, Function, Lifetimes, empty, construct, swap, move, assign_nullptr, assign_callable, assign,
  destroy, call, to_bool, eq_nullptr, ne_nullptr, insitu,
}
use bipolar.Core.Function.View.{Views, view, Calls, is_some, operations_view}
use bipolar.Core.Function.Lifetime.{
  Balances, Accounts, is_forgotten, operations-Balances, construct-destroy_iff,
}

-- Returns its value plus the argument, and counts the calls.
abbrev counter : Kind ℕ ℕ ℕ
counter = record {
  lvalue = false;
  fits = true;
  nothrow_move = true;
  trivial_destructor = false;
  invoke = λ n a. (returns (n + a), n + 1);
}

abbrev counter_lvalue : Kind ℕ ℕ ℕ
counter_lvalue = record counter { lvalue = true }

abbrev unused : Lifetimes
unused = record { next = 0; made = []; destroyed = [] }

abbrev full : Function ℕ ℕ ℕ
full = (construct counter 5 unused).0

abbrev later : Lifetimes
later = (construct counter 5 unused).1

operations_view_example :
    Views none (empty {C = ℕ} {Args = ℕ} {R = ℕ})
    × Views (some (counter, 7)) (construct counter 7 later).0
    × (Views (view empty) (move (empty {C = ℕ} {Args = ℕ} {R = ℕ})).0
        × Views none (move (empty {C = ℕ} {Args = ℕ} {R = ℕ})).1)
    × (Views (view empty) (swap full empty).0 × Views (view full) (swap full empty).1)
    × Views none (assign_nullptr full later).0
    × Views (some (counter, 7)) (assign_callable counter 7 full later).0
    × (Views (view empty) (assign full empty later).0.0 × Views none (assign full empty later).0.1)
    × Calls full 3 (call full 3)
    × (to_bool full ≡ is_some (view full))
    × (eq_nullptr full ≡ not (is_some (view full)))
    × (ne_nullptr full ≡ is_some (view full))
unfolding construct insitu empty
operations_view_example = operations_view counter 7 full empty later 3 refl refl

operations-Balances_example : Accounts counter 7 full full later
unfolding construct insitu
operations-Balances_example = operations-Balances counter 7 full full later refl refl refl

construct-destroy_iff_example :
    Balances unused
      (destroy (construct counter_lvalue 5 unused).0 (construct counter_lvalue 5 unused).1)
      (λ _. 0)
      (λ _. 0)
    ↔ (is_forgotten counter_lvalue ≡ false)
construct-destroy_iff_example = construct-destroy_iff counter_lvalue 5 unused
