-- ===== src/Common/OrderedMap.antt =====
-- `std::map` with unsigned keys: the pairs in the order of the keys, as iteration visits them.
use bipolar.Common.Tests.{ltb, ◌==◌, if◌then◌else◌}
use bipolar.Common.Lists.{length, All}
use Prim.Native.Nat.{ℕ, suc, ◌+◌, ◌≤◌, ◌<◌}
use mathlib.Core.Path.{◌≡◌, refl, ◌∙◌}
use mathlib.Core.List.{List, [], ◌∷◌, ◌++◌}
use mathlib.Core.Option.{Option, none, some}
use native.Mathlib.Omega.{arith}

module _ {ℓ} {V : Type ℓ} where
  unfoldable pub find : ℕ → List (ℕ × V) → Option V
  find k [] = none
  find k ((j, v) ∷ m) = if j == k then some v else find k m

  -- A key that is present keeps its value.
  unfoldable pub emplace : ℕ → V → List (ℕ × V) → List (ℕ × V)
  emplace k v [] = (k, v) ∷ []
  emplace k v ((j, w) ∷ m) =
      if j == k then (j, w) ∷ m else if ltb j k then (j, w) ∷ emplace k v m else (k, v) ∷ (j, w) ∷ m

  -- A write through the iterator of a key.
  unfoldable pub update : ℕ → V → List (ℕ × V) → List (ℕ × V)
  update k v [] = []
  update k v ((j, w) ∷ m) = if j == k then (k, v) ∷ m else (j, w) ∷ update k v m

  unfoldable pub erase : ℕ → List (ℕ × V) → List (ℕ × V)
  erase k [] = []
  erase k ((j, w) ∷ m) = if j == k then m else (j, w) ∷ erase k m

  -- The keys rise strictly, from `lo` on, and stay below `hi`.
  abbrev pub Ordered : ℕ → ℕ → List (ℕ × V) → Type 0
  Ordered lo hi [] = lo ≤ hi
  Ordered lo hi ((k, v) ∷ m) = (lo ≤ k) × Ordered (suc k) hi m

  pub length-Ordered : (lo hi : ℕ) (m : List (ℕ × V)) → Ordered lo hi m → lo + length m ≤ hi
  length-Ordered lo hi [] h = omega arith
  length-Ordered lo hi ((k, v) ∷ m) h = omega (arith, length-Ordered (suc k) hi m h.1)

  Ordered-mono : (lo lo' hi : ℕ) (m : List (ℕ × V)) → lo' ≤ lo → Ordered lo hi m → Ordered lo' hi m
  Ordered-mono lo lo' hi [] le h = omega arith
  Ordered-mono lo lo' hi ((k, v) ∷ m) le h = (omega arith, h.1)

  pub find_below : (k lo hi : ℕ) (m : List (ℕ × V)) → k < lo → Ordered lo hi m → find k m ≡ none
  unfolding find
  find_below k lo hi [] lt h = refl
  find_below k lo hi ((j, v) ∷ m) lt h = ground (arith, find_below k (suc j) hi m)

  pub find_above : (k lo hi : ℕ) (m : List (ℕ × V)) → hi ≤ k → Ordered lo hi m → find k m ≡ none
  unfolding find
  find_above k lo hi [] le h = refl
  find_above k lo hi ((j, v) ∷ m) le h =
      ground (arith, find_above k (suc j) hi m, length-Ordered (suc j) hi m)

  -- A key that is above all others goes to the end.
  pub emplace_last :
      (v : V) (lo hi : ℕ) (m : List (ℕ × V)) → Ordered lo hi m → emplace hi v m ≡ m ++ (hi, v) ∷ []
  unfolding emplace
  emplace_last v lo hi [] h = refl
  emplace_last v lo hi ((j, w) ∷ m) h =
      ground (arith, emplace_last v (suc j) hi m, length-Ordered (suc j) hi m)

  pub snoc-Ordered :
      (v : V) (lo hi : ℕ) (m : List (ℕ × V))
      → Ordered lo hi m
      → Ordered lo (suc hi) (m ++ (hi, v) ∷ [])
  snoc-Ordered v lo hi [] h = (h, omega arith)
  snoc-Ordered v lo hi ((j, w) ∷ m) h = (h.0, snoc-Ordered v (suc j) hi m h.1)

  pub update-Ordered :
      (k : ℕ) (v : V) (lo hi : ℕ) (m : List (ℕ × V))
      → Ordered lo hi m
      → Ordered lo hi (update k v m)
  unfolding update
  update-Ordered k v lo hi [] h = h
  update-Ordered k v lo hi ((j, w) ∷ m) h = ground (arith, update-Ordered k v (suc j) hi m h.1)

  pub erase-Ordered : (k lo hi : ℕ) (m : List (ℕ × V)) → Ordered lo hi m → Ordered lo hi (erase k m)
  unfolding erase
  erase-Ordered k lo hi [] h = h
  erase-Ordered k lo hi ((j, w) ∷ m) h =
      ground (arith, erase-Ordered k (suc j) hi m h.1, Ordered-mono (suc j) lo hi m)

  -- Erasing an entry forgets what was written there.
  pub erase-update : (k : ℕ) (v : V) (m : List (ℕ × V)) → erase k (update k v m) ≡ erase k m
  unfolding erase update
  erase-update k v [] = refl
  erase-update k v ((j, w) ∷ m) = ground (arith, erase-update k v m)

  pub find-update :
      (j k : ℕ) (v w : V) (m : List (ℕ × V))
      → find k m ≡ some w
      → find j (update k v m) ≡ (if j == k then some v else find j m)
  unfolding find update
  find-update j k v w [] h = ground arith
  find-update j k v w ((i, u) ∷ m) h = ground (arith, find-update j k v w m)

  pub find-erase :
      (j k lo hi : ℕ) (m : List (ℕ × V))
      → Ordered lo hi m
      → find j (erase k m) ≡ (if j == k then none else find j m)
  unfolding find erase
  find-erase j k lo hi [] h = ground arith
  find-erase j k lo hi ((i, u) ∷ m) h =
      ground (arith, find-erase j k (suc i) hi m h.1, find_below k (suc i) hi m)

  pub find-snoc :
      (j k : ℕ) (v : V) (m : List (ℕ × V))
      → find k m ≡ none
      → find j (m ++ (k, v) ∷ []) ≡ (if j == k then some v else find j m)
  unfolding find
  find-snoc j k v [] h = ground arith
  find-snoc j k v ((i, u) ∷ m) h = ground (arith, find-snoc j k v m)

  -- Reads and writes of the last entry.
  pub find-snoc_self :
      (k : ℕ) (v : V) (lo : ℕ) (m : List (ℕ × V))
      → Ordered lo k m
      → find k (m ++ (k, v) ∷ []) ≡ some v
  find-snoc_self k v lo m o = find-snoc k k v m (find_above k lo k m (omega arith) o) ∙ ground arith

  pub update-snoc :
      (k : ℕ) (v v' : V) (lo : ℕ) (m : List (ℕ × V))
      → Ordered lo k m
      → update k v' (m ++ (k, v) ∷ []) ≡ m ++ (k, v') ∷ []
  unfolding update
  update-snoc k v v' lo [] o = ground arith
  update-snoc k v v' lo ((j, w) ∷ m) o =
      ground (arith, update-snoc k v v' (suc j) m o.1, length-Ordered (suc j) k m o.1)

  pub erase-snoc :
      (k : ℕ) (v : V) (lo : ℕ) (m : List (ℕ × V)) → Ordered lo k m → erase k (m ++ (k, v) ∷ []) ≡ m
  unfolding erase
  erase-snoc k v lo [] o = ground arith
  erase-snoc k v lo ((j, w) ∷ m) o =
      ground (arith, erase-snoc k v (suc j) m o.1, length-Ordered (suc j) k m o.1)

  module _ {κ} (P : V → Type κ) where
    pub find-All : (k : ℕ) (v : V) (m : List (ℕ × V)) → All (λ e. P e.1) m → find k m ≡ some v → P v
    unfolding find
    find-All k v [] h e = cc
    find-All k v ((j, w) ∷ m) h e = ground (arith, find-All k v m h.1)

    pub update-All :
        (k : ℕ) (v : V) (m : List (ℕ × V))
        → P v
        → All (λ e. P e.1) m
        → All (λ e. P e.1) (update k v m)
    unfolding update
    update-All k v [] p h = h
    update-All k v ((j, w) ∷ m) p h = ground (arith, update-All k v m p h.1)

    pub erase-All : (k : ℕ) (m : List (ℕ × V)) → All (λ e. P e.1) m → All (λ e. P e.1) (erase k m)
    unfolding erase
    erase-All k [] h = h
    erase-All k ((j, w) ∷ m) h = ground (arith, erase-All k m h.1)
