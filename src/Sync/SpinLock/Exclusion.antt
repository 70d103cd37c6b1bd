-- ===== src/Sync/SpinLock/Exclusion.antt =====
-- Mutual exclusion of `SpinLock` (bipolar/sync/spinlock.hpp).
use bipolar.Common.{
  ℕ, ◌≡◌, ◌≢◌, ◌⊎◌, inl, inr, refl, true, false, ◌==◌, if◌then◌else◌, ==_iff, Bool-cases, if_cases,
  subst, ◌↔◌, arith,
}
use bipolar.Sync.SpinLock.{
  Phase, outside, trying, spinning, holding, SpinLock, set, new, try_lock, try_once, try_in_loop,
  look, unlock, Step, enter, attempt, exchange, load, release, Reachable, here, next,
}

-- The lock is free and no thread holds it, or it is taken and one thread holds it.
abbrev pub Inv : SpinLock → Type 0
Inv s =
    ((s.locked ≡ 0) × ((u : ℕ) → s.phase u ≢ holding))
    ⊎ ((s.locked ≡ 1) × (h : ℕ) × (s.phase h ≡ holding) × ((u : ℕ) → s.phase u ≡ holding → u ≡ h))

set_here : (f : ℕ → Phase) (t : ℕ) (p : Phase) → set f t p t ≡ p
set_here f t p = ground arith

set_cases :
    (f : ℕ → Phase) (t : ℕ) (p : Phase) (u : ℕ)
    → ((u ≡ t) × (set f t p u ≡ p)) ⊎ ((u ≢ t) × (set f t p u ≡ f u))
set_cases f t p u = ground arith

-- A thread that does not hold the lock moves to another place without it.
moves :
    (n : ℕ) (f : ℕ → Phase) (t : ℕ) (p : Phase)
    → f t ≢ holding
    → p ≢ holding
    → Inv (record { locked = n; phase = f })
    → Inv (record { locked = n; phase = set f t p })
moves n f t p a b (inl (e, none_holds)) =
    inl (e, λ u q. elim (set_cases f t p u) [ inl c ↦ b (cc) | inr c ↦ none_holds u (cc) ])
moves n f t p a b (inr (e, h, q, only)) = inr (
  e,
  h,
  elim (set_cases f t p h) [ inl c ↦ absurd (a (cc)) | inr c ↦ cc ],
  λ u r. elim (set_cases f t p u) [ inl c ↦ absurd (b (cc)) | inr c ↦ only u (cc) ],
)

acquires :
    (n : ℕ) (f : ℕ → Phase) (t : ℕ) (p : Phase)
    → f t ≢ holding
    → p ≢ holding
    → Inv (record { locked = n; phase = f })
    → Inv (record { locked = 1; phase = set f t (if n == 0 then holding else p) })
acquires n f t p a b (inl (e, none_holds)) =
    let free : (n == 0) ≡ true = (==_iff n 0).1 e in
    rw free (
      inr (
        refl,
        t,
        set_here f t holding,
        λ u r. elim (set_cases f t holding u) [ inl c ↦ c.0 | inr c ↦ absurd (none_holds u (cc)) ],
      ))
acquires n f t p a b (inr held) =
    let taken : (n == 0) ≡ false = ground arith in
    rw taken (
      subst (λ k. Inv (record { locked = k; phase = set f t p })) held.0
        (moves n f t p a b (inr held)))

releases :
    (n : ℕ) (f : ℕ → Phase) (t : ℕ)
    → f t ≡ holding
    → Inv (record { locked = n; phase = f })
    → Inv (record { locked = 0; phase = set f t outside })
releases n f t a (inl (e, none_holds)) = absurd (none_holds t a)
releases n f t a (inr (e, h, q, only)) = inl (
  refl,
  λ u r. elim (set_cases f t outside u) [
    | inl c ↦ cc
    | inr c ↦ c.0 (let p = only u (cc) in let p' = only t a in cc)
  ],
)

Step-Inv : {s s' : SpinLock} → Step s s' → Inv s → Inv s'
unfolding try_once try_in_loop try_lock look unlock
Step-Inv (enter {s} t p) i = moves s.locked s.phase t trying (λ q. cc) (λ q. cc) i
Step-Inv (attempt {s} t p) i = acquires s.locked s.phase t outside (λ q. cc) (λ q. cc) i
Step-Inv (exchange {s} t p) i = acquires s.locked s.phase t spinning (λ q. cc) (λ q. cc) i
Step-Inv (load {s} t p) i =
    moves s.locked s.phase t (if s.locked == 0 then trying else spinning) (λ q. cc)
      (if_cases (λ p. p ≢ holding) (s.locked == 0) (λ e q. cc) (λ e q. cc)) i
Step-Inv (release {s} t p) i = releases s.locked s.phase t p i

Reachable-Inv : {s : SpinLock} → Reachable s → Inv s
unfolding new
Reachable-Inv here = inl (refl, λ u q. cc)
Reachable-Inv (next r step) = Step-Inv step (Reachable-Inv r)

-- However the steps of the threads interleave, two threads that hold the lock are the same thread,
-- and `locked_` is then 1.
pub mutual_exclusion :
    (s : SpinLock) (t u : ℕ)
    → Reachable s
    → s.phase t ≡ holding
    → s.phase u ≡ holding
    → (t ≡ u) × (s.locked ≡ 1)
mutual_exclusion s t u r p q = elim (Reachable-Inv r) [
  | inl (e, none_holds) ↦ absurd (none_holds t p)
  | inr (e, h, o, only) ↦ (let a = only t p in let b = only u q in cc, e)
]

free_iff : (s : SpinLock) → Reachable s → (s.locked ≡ 0) ↔ ((t : ℕ) → s.phase t ≢ holding)
free_iff s r = elim (Reachable-Inv r) [
  | inl (e, none_holds) ↦ (λ z. none_holds, λ z. e)
  | inr (e, h, p, only) ↦ (λ z. absurd (omega arith), λ z. absurd (z h p))
]

winner :
    (n : ℕ) (f : ℕ → Phase) (t : ℕ)
    → (set f t (if n == 0 then holding else outside) t ≡ holding) ↔ (n ≡ 0)
winner n f t = elim (Bool-cases (n == 0)) [
  | inl e ↦ (λ h. (==_iff n 0).0 e, λ h. rw e (set_here f t holding))
  | inr e ↦ (λ h. absurd (lost e h), λ h. absurd (let e' = (==_iff n 0).1 h in cc))
]
  where
    lost : (n == 0) ≡ false → set f t (if n == 0 then holding else outside) t ≡ holding → ⊥
    lost e h = let q = set_here f t (if n == 0 then holding else outside) in ground arith

-- At any time, however the steps interleaved before, `try_lock` acquires the lock exactly if no
-- thread holds it.
pub try_once_iff :
    (s : SpinLock) (t : ℕ)
    → Reachable s
    → ((try_once t s).phase t ≡ holding) ↔ ((u : ℕ) → s.phase u ≢ holding)
unfolding try_once try_lock
try_once_iff s t r =
    let won = winner s.locked s.phase t in
    let free = free_iff s r in (λ h. free.0 (won.0 h), λ h. won.1 (free.1 h))
