-- ===== src/Futures/SuspendedTask.antt =====
-- bipolar/futures/suspended_task.hpp: the handle of a suspended task. A resolver is its address; what an
-- operation calls on resolvers is listed, in order. The ticket that `duplicate_ticket` of a resolver
-- returns is a parameter.
pub mod Ledger
use bipolar.Common.{
  ℕ, ◌+◌, Bool, true, false, ◌==◌, ◌&&◌, if◌then◌else◌, List, [], ◌∷◌, ◌++◌, Option, none, some,
}

-- A call of `duplicate_ticket` or of `resolve_ticket`, with the resolver and the ticket.
pub data Call : Type 0 where
  duplicate_ticket : ℕ → ℕ → Call
  resolve_ticket : ℕ → ℕ → Bool → Call

pub record SuspendedTask : Type 0 where
  pub resolver : Option ℕ
  pub ticket : ℕ

unfoldable pub empty : SuspendedTask
empty = record { resolver = none; ticket = 0 }

unfoldable pub of_ticket : ℕ → ℕ → SuspendedTask
of_ticket resolver ticket = record { resolver = some resolver; ticket = ticket }

unfoldable pub resolve : Bool → SuspendedTask → List Call × SuspendedTask
resolve resume_task this = elim this.resolver [
  | none ↦ ([], this)
  | some r ↦ (resolve_ticket r this.ticket resume_task ∷ [], record this { resolver = none })
]

unfoldable pub resume_task : SuspendedTask → List Call × SuspendedTask
unfolding resolve
resume_task this = resolve true this

-- Also what the destructor does.
unfoldable pub reset : SuspendedTask → List Call × SuspendedTask
unfolding resolve
reset this = resolve false this

unfoldable pub has_resolver : SuspendedTask → Bool
has_resolver this = elim this.resolver [ none ↦ false | some r ↦ true ]

-- The new handle, and the source as the move leaves it.
unfoldable pub move : SuspendedTask → SuspendedTask × SuspendedTask
move rhs = (record { resolver = rhs.resolver; ticket = rhs.ticket }, record rhs { resolver = none })

-- `same` tells that both are one object.
unfoldable pub move_assign :
    Bool → SuspendedTask → SuspendedTask → List Call × SuspendedTask × SuspendedTask
unfolding reset move
move_assign same this rhs =
    if same then ([], this, rhs) else ((reset this).0, (move rhs).0, (move rhs).1)

unfoldable pub swap : SuspendedTask → SuspendedTask → SuspendedTask × SuspendedTask
swap this rhs = (
  record { resolver = rhs.resolver; ticket = rhs.ticket },
  record { resolver = this.resolver; ticket = this.ticket },
)

module _ (duplicated : ℕ → ℕ → ℕ) where
  unfoldable pub copy : SuspendedTask → List Call × SuspendedTask
  copy rhs = elim rhs.resolver [
    | none ↦ ([], record { resolver = none; ticket = 0 })
    | some r ↦ (
      duplicate_ticket r rhs.ticket ∷ [],
      record { resolver = some r; ticket = duplicated r rhs.ticket },
    )
  ]

  unfoldable pub copy_assign : Bool → SuspendedTask → SuspendedTask → List Call × SuspendedTask
  unfolding reset copy
  copy_assign same this rhs =
      if same then ([], this) else ((reset this).0 ++ (copy rhs).0, (copy rhs).1)
