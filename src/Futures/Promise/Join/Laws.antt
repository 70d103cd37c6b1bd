-- ===== src/Futures/Promise/Join/Laws.antt =====
-- One call of a joined vector of promises (bipolar/futures/internal/adaptor.hpp).
use bipolar.Common.{
  Bool, true, ◌&&◌, if◌then◌else◌, List, [], ◌∷◌, Option, none, some, ◌≡◌, ◌≢◌, refl, map,
}
use bipolar.Common.Outcome.{returns}
use bipolar.Core.Result.{Result, pending, ok, err, to_bool, is_pending}
use bipolar.Futures.Promise.{Continuation, call}
use bipolar.Futures.Promise.Join.{JoinVector, join_promise_vector, pass, join_run}

module _ {S T E : Type 0} where
  -- A promise whose result is pending is not empty, and there are as many promises as results.
  abbrev pub Paired : List (Option S) → List (Result T E) → Type 0
  Paired [] [] = Unit {0}
  Paired (some s ∷ ps) (r ∷ rs) = Paired ps rs
  Paired (none ∷ ps) (pending ∷ rs) = ⊥
  Paired (none ∷ ps) (ok x ∷ rs) = Paired ps rs
  Paired (none ∷ ps) (err e ∷ rs) = Paired ps rs
  Paired _ _ = ⊥

module _ {T E : Type 0} where
  -- A result that is not pending stays as it is, in its place, and there are as many results.
  abbrev pub Kept : List (Result T E) → List (Result T E) → Type 0
  Kept [] [] = Unit {0}
  Kept (pending ∷ rs) (r' ∷ rs') = Kept rs rs'
  Kept (ok x ∷ rs) (r' ∷ rs') = (r' ≡ ok x) × Kept rs rs'
  Kept (err e ∷ rs) (r' ∷ rs') = (r' ≡ err e) × Kept rs rs'
  Kept _ _ = ⊥

  abbrev pub all_ready : List (Result T E) → Bool
  all_ready [] = true
  all_ready (r ∷ rs) = let rest = all_ready rs in to_bool r && rest

module _ {C S T E : Type 0} (step : S → C → Result T E × S × C) where
  -- The continuation of promises that do not throw.
  abbrev pub steady : Continuation C S T E
  steady s c = returns (step s c)

  -- One pass over the promises and the results, from a context to another one: the promise of each
  -- pending result is called once, in their order, its result goes to the place, and the promise
  -- stays for the next pass if the result is pending; where there is a result, nothing is called.
  pub data Polls
      : List (Option S)
        → List (Result T E)
        → C
        → List (Option S)
        → List (Result T E)
        → C
        → Type 0 where
    over : {c : C} → Polls [] [] c [] [] c
    polled :
        {s : S} {ps ps' : List (Option S)} {rs rs' : List (Result T E)} {c c' : C}
        → Polls ps rs (step s c).2 ps' rs' c'
        → Polls
            (some s ∷ ps)
            (pending ∷ rs)
            c
            ((if is_pending (step s c).0 then some (step s c).1 else none) ∷ ps')
            ((step s c).0 ∷ rs')
            c'
    left :
        {p : Option S} {r : Result T E} {ps ps' : List (Option S)} {rs rs' : List (Result T E)}
        {c c' : C}
        → r ≢ pending
        → Polls ps rs c ps' rs' c'
        → Polls (p ∷ ps) (r ∷ rs) c (p ∷ ps') (r ∷ rs') c'

  Passed : List (Option S) → List (Result T E) → C → Type 0
  Passed ps rs c =
      (ps' : List (Option S)) × (rs' : List (Result T E)) × (c' : C) × (pass steady ps rs c
        ≡ returns (all_ready rs', ps', rs', c'))
      × Paired ps' rs'
      × Kept rs rs'
      × Polls ps rs c ps' rs' c'

  fresh_slot :
      (r : Result T E) (s : S) (ps : List (Option S)) (rs : List (Result T E))
      → Paired ps rs
      → Paired ((if is_pending r then some s else none) ∷ ps) (r ∷ rs)
  unfolding is_pending
  fresh_slot pending s ps rs h = h
  fresh_slot (ok x) s ps rs h = h
  fresh_slot (err e) s ps rs h = h

  pass-Paired :
      (ps : List (Option S)) (rs : List (Result T E)) (c : C) → Paired ps rs → Passed ps rs c
  unfolding Passed pass call to_bool
  pass-Paired [] [] c h = ([], [], c, refl, tt, tt, over)
  pass-Paired [] (r ∷ rs) c h = absurd h
  pass-Paired (none ∷ ps) [] c h = absurd h
  pass-Paired (some s ∷ ps) [] c h = absurd h
  pass-Paired (none ∷ ps) (pending ∷ rs) c h = absurd h
  pass-Paired (some s ∷ ps) (pending ∷ rs) c h =
      let (r, s', c1) = step s c in
      let (ps', rs', c', e, p, k, l) = pass-Paired ps rs c1 h in
      (_ ∷ ps', r ∷ rs', c', rw e, fresh_slot r s' ps' rs' p, k, polled l)
  pass-Paired (none ∷ ps) (ok x ∷ rs) c h =
      let (ps', rs', c', e, p, k, l) = pass-Paired ps rs c h in
      (none ∷ ps', ok x ∷ rs', c', rw e, p, (refl, k), left (λ x. absurd cc) l)
  pass-Paired (some s ∷ ps) (ok x ∷ rs) c h =
      let (ps', rs', c', e, p, k, l) = pass-Paired ps rs c h in
      (some s ∷ ps', ok x ∷ rs', c', rw e, p, (refl, k), left (λ x. absurd cc) l)
  pass-Paired (none ∷ ps) (err x ∷ rs) c h =
      let (ps', rs', c', e, p, k, l) = pass-Paired ps rs c h in
      (none ∷ ps', err x ∷ rs', c', rw e, p, (refl, k), left (λ x. absurd cc) l)
  pass-Paired (some s ∷ ps) (err x ∷ rs) c h =
      let (ps', rs', c', e, p, k, l) = pass-Paired ps rs c h in
      (some s ∷ ps', err x ∷ rs', c', rw e, p, (refl, k), left (λ x. absurd cc) l)

  -- If the promises do not throw and none with a pending result is empty, a call of the joined
  -- promise returns, after one pass: each promise whose result is pending is called once, in their
  -- order, and its result kept. Results that were ready keep their value and place. When then all are ready, it
  -- returns them; else it returns pending, and no promise with a pending result is empty.
  pub join_run_lem :
      (st : JoinVector S T E) (c : C)
      → Paired st.promises st.results
      → (ps : List (Option S)) × (rs : List (Result T E)) × (c' : C) × Paired ps rs
        × Kept st.results rs
        × Polls st.promises st.results c ps rs c'
        × (join_run steady st c ≡ (
            if all_ready rs
            then returns (ok rs, record { promises = ps; results = [] }, c')
            else returns (pending, record { promises = ps; results = rs }, c')))
  unfolding Passed join_run
  join_run_lem st c h =
      let (ps, rs, c', e, p, k, l) = pass-Paired st.promises st.results c h in
      (ps, rs, c', p, k, l, rw e)

-- A joined vector of promises that are not empty starts so.
pub join_promise_vector-Paired {ℓ} :
    {A : Type ℓ} {S : Type 0} (T E : Type 0) (f : A → S) (xs : List A)
    → (let st : JoinVector S T E = join_promise_vector (map (λ x. some (f x)) xs) in
        Paired st.promises st.results)
unfolding join_promise_vector
join_promise_vector-Paired T E f [] = tt
join_promise_vector-Paired T E f (x ∷ xs) = join_promise_vector-Paired T E f xs
