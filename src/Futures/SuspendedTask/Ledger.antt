-- ===== src/Futures/SuspendedTask/Ledger.antt =====
-- Who owns which reference to a ticket (bipolar/futures/suspended_task.hpp).
use bipolar.Common.{
  ℕ, ◌+◌, ◌≡◌, refl, Bool, true, false, not, ◌==◌, ◌&&◌, if◌then◌else◌, List, [], ◌∷◌, none, some,
  arith,
}
use bipolar.Futures.SuspendedTask.{
  Call, duplicate_ticket, resolve_ticket, SuspendedTask, resolve, resume_task, reset, has_resolver,
  move, move_assign, swap, copy, copy_assign,
}

-- The references that a handle owns to a ticket of a resolver.
abbrev pub owns : ℕ → ℕ → SuspendedTask → ℕ
owns r k h = elim h.resolver [ none ↦ 0 | some r' ↦ if r' == r && h.ticket == k then 1 else 0 ]

-- How often the calls give this ticket back.
abbrev pub given_back : ℕ → ℕ → List Call → ℕ
given_back r k [] = 0
given_back r k (duplicate_ticket r' k' ∷ cs) = given_back r k cs
given_back r k (resolve_ticket r' k' b ∷ cs) =
    (if r' == r && k' == k then 1 else 0) + given_back r k cs

-- How often they give it back with this flag, which asks to resume the task.
abbrev pub resolved_with : Bool → ℕ → ℕ → List Call → ℕ
resolved_with flag r k [] = 0
resolved_with flag r k (duplicate_ticket r' k' ∷ cs) = resolved_with flag r k cs
resolved_with flag r k (resolve_ticket r' k' b ∷ cs) =
    (if r' == r && k' == k && (if flag then b else not b) then 1 else 0) + resolved_with flag r k cs

-- How often they obtain it.
abbrev pub obtained : (ℕ → ℕ → ℕ) → ℕ → ℕ → List Call → ℕ
obtained duplicated r k [] = 0
obtained duplicated r k (duplicate_ticket r' k' ∷ cs) =
    (if r' == r && duplicated r' k' == k then 1 else 0) + obtained duplicated r k cs
obtained duplicated r k (resolve_ticket r' k' b ∷ cs) = obtained duplicated r k cs

module _ (duplicated : ℕ → ℕ → ℕ) (r k : ℕ) where
  -- The calls account for the change from some owned references to others.
  abbrev pub IsAccount : List Call → ℕ → ℕ → Type 0
  IsAccount cs before after = after + given_back r k cs ≡ before + obtained duplicated r k cs

  -- The calls give back just what the handle owned, all of it with this flag.
  abbrev pub Resolves : Bool → SuspendedTask → List Call × SuspendedTask → Type 0
  Resolves flag this (cs, this') =
      (owns r k this' ≡ 0)
      × (given_back r k cs ≡ owns r k this)
      × (resolved_with flag r k cs ≡ owns r k this)
      × (obtained duplicated r k cs ≡ 0)

  abbrev pub Accounts : SuspendedTask → SuspendedTask → Bool → Type 0
  Accounts this rhs b =
      (let own = owns r k in
        let assigned = copy_assign duplicated false this rhs in
        let moved = move_assign false this rhs in
        (Resolves b this (resolve b this)
          × Resolves true this (resume_task this)
          × Resolves false this (reset this)
          × ((resolve b (resolve b this).1).0 ≡ []))
        × (IsAccount (copy duplicated rhs).0 (own rhs) (own (copy duplicated rhs).1 + own rhs)
            × (given_back r k (copy duplicated rhs).0 ≡ 0)
            × (has_resolver (copy duplicated rhs).1 ≡ has_resolver rhs))
        × ((own (move rhs).0 ≡ own rhs) × (own (move rhs).1 ≡ 0))
        × (IsAccount assigned.0 (own this + own rhs) (own assigned.1 + own rhs)
            × (resolved_with false r k assigned.0 ≡ own this)
            × (own assigned.1 ≡ own (copy duplicated rhs).1))
        × (IsAccount moved.0 (own this + own rhs) (own moved.1 + own moved.2)
            × (resolved_with false r k moved.0 ≡ own this)
            × (own moved.1 ≡ own rhs)
            × (own moved.2 ≡ 0))
        × ((own (swap this rhs).0 ≡ own rhs) × (own (swap this rhs).1 ≡ own this)))
      × (copy_assign duplicated true this this ≡ ([], this))
      × (move_assign true this this ≡ ([], this, this))

  -- For every ticket of every resolver: the references that the handles own before and after each
  -- operation differ by just those that its calls obtain and give back. A handle that was resolved
  -- owns none: `resume_task` gives its reference back with the request to resume, `reset` without. A
  -- copy has a resolver if the source has, and owns what its calls obtain; the source keeps its own; a move hands the reference of the
  -- source on, which then owns none; a swap exchanges them. An assignment gives the old reference
  -- back without a request, and an assignment to itself calls nothing and changes nothing.
  pub operations-IsAccount : (this rhs : SuspendedTask) (b : Bool) → Accounts this rhs b
  unfolding resolve resume_task copy move copy_assign move_assign reset swap has_resolver
  operations-IsAccount this rhs b = (
    (
      (
        (ground arith, ground arith, ground arith, ground arith),
        (ground arith, ground arith, ground arith, ground arith),
        (ground arith, ground arith, ground arith, ground arith),
        ground arith,
      ),
      (ground arith, ground arith, ground arith),
      (refl, refl),
      (ground arith, ground arith, refl),
      (ground arith, ground arith, refl, refl),
      (refl, refl),
    ),
    refl,
    refl,
  )
