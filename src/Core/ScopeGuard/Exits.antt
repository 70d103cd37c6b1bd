-- ===== src/Core/ScopeGuard/Exits.antt =====
-- Which callbacks run when a scope is left, and in which order.
use bipolar.Common.{
  ℕ, ◌+◌, ◌≡◌, Bool, true, false, not, if◌then◌else◌, List, [], ◌∷◌, ◌++◌, arith, refl, ap, sym,
  ◌∙◌,
}
use bipolar.Core.ScopeGuard.{Guard, new_exit, new_success, new_failure, dismiss, destroy}

-- How a scope is left.
pub data Leaving : Type 0 where
  normally by_exception : Leaving

-- What the statements of a scope make. An exit guard is dismissed or not before the scope is left.
pub data Made : Type 0 where
  exit : (dismissed : Bool) → Made
  on_success on_failure : Made

abbrev uncaught : ℕ → Leaving → ℕ
uncaught n normally = n
uncaught n by_exception = n + 1

-- The reference: whether the way of leaving selects the callback.
abbrev selected : Leaving → Made → Bool
selected way (exit dismissed) = not dismissed
selected normally on_success = true
selected normally on_failure = false
selected by_exception on_success = false
selected by_exception on_failure = true

module _ {S : Type 0} where
  abbrev guard_of : ℕ → Made → (S → S) → Guard S
  guard_of n (exit true) f = dismiss (new_exit f)
  guard_of n (exit false) f = new_exit f
  guard_of n on_success f = new_success f n
  guard_of n on_failure f = new_failure f n

  -- A scope in which `n` exceptions are uncaught makes the guards, in the order of the list, and is
  -- left. Objects are destroyed in the reverse order.
  unfoldable pub leave : ℕ → Leaving → List (Made × (S → S)) → S → S
  leave n way [] s = s
  leave n way ((m, f) ∷ guards) s = destroy (uncaught n way) (guard_of n m f) (leave n way guards s)

  -- The selected callbacks, the last one first.
  abbrev pub callbacks : Leaving → List (Made × (S → S)) → List (S → S)
  callbacks way [] = []
  callbacks way ((m, f) ∷ guards) =
      let rest = callbacks way guards in if selected way m then rest ++ (f ∷ []) else rest

  abbrev pub run_all : List (S → S) → S → S
  run_all [] s = s
  run_all (f ∷ fs) s = run_all fs (f s)

  run_all-append :
      (fs : List (S → S)) (f : S → S) (s : S) → run_all (fs ++ (f ∷ [])) s ≡ f (run_all fs s)
  run_all-append [] f s = refl
  run_all-append (g ∷ fs) f s = run_all-append fs f (g s)

  destroy-guard_of :
      (n : ℕ) (way : Leaving) (m : Made) (f : S → S) (s : S)
      → destroy (uncaught n way) (guard_of n m f) s ≡ (if selected way m then f s else s)
  unfolding destroy dismiss
  destroy-guard_of n way (exit true) f s = refl
  destroy-guard_of n way (exit false) f s = refl
  destroy-guard_of n normally on_success f s = ground arith
  destroy-guard_of n normally on_failure f s = ground arith
  destroy-guard_of n by_exception on_success f s = ground arith
  destroy-guard_of n by_exception on_failure f s = ground arith

  run_selected :
      (b : Bool) (fs : List (S → S)) (f : S → S) (s s' : S)
      → s' ≡ run_all fs s
      → (if b then f s' else s') ≡ run_all (if b then fs ++ (f ∷ []) else fs) s
  run_selected true fs f s s' e = ap f e ∙ sym (run_all-append fs f s)
  run_selected false fs f s s' e = e

  -- A scope that is left runs, in the reverse order of the guards, the callbacks of the exit guards
  -- that were not dismissed, and those of the success guards if it is left normally, those of the
  -- failure guards if it is left by an exception, whatever exceptions were uncaught before.
  pub leave-run_all :
      (n : ℕ) (way : Leaving) (guards : List (Made × (S → S))) (s : S)
      → leave n way guards s ≡ run_all (callbacks way guards) s
  unfolding leave
  leave-run_all n way [] s = refl
  leave-run_all n way ((m, f) ∷ guards) s =
      destroy-guard_of n way m f (leave n way guards s)
      ∙ run_selected (selected way m) (callbacks way guards) f s _ (leave-run_all n way guards s)
