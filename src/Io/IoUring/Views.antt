-- ===== src/Io/IoUring/Views.antt =====
-- The entries of a ring of bipolar/io/io_uring.cpp between two positions.
use bipolar.Common.{
  ℕ, zero, suc, ◌+◌, ◌^◌, ◌<◌, ◌≡◌, refl, sym, ap, ◌∙◌, subst, List, [], ◌∷◌, ◌++◌, u32, arith, All,
  length,
}

pub at_start : (p : ℕ) → p < 2 ^ 32 → u32 (p + 0) ≡ p
at_start p lt = omega arith

pub further : (p i : ℕ) → u32 (u32 (p + 1) + i) ≡ u32 (p + suc i)
further p i = omega arith

pub below : (p : ℕ) → u32 p < 2 ^ 32
below p = omega arith

plain : (b : ℕ) → 0 + b ≡ b
plain b = omega arith

module _ {ℓ} {A : Type ℓ} where
  -- What f gives at n positions from p on.
  abbrev pub view : ℕ → ℕ → (ℕ → A) → List A
  view zero p f = []
  view (suc n) p f = f p ∷ view n (u32 (p + 1)) f

  pub length-view : (n p : ℕ) (f : ℕ → A) → length (view n p f) ≡ n
  length-view zero p f = refl
  length-view (suc n) p f = omega (arith, length-view n (u32 (p + 1)) f)

  pub view-append :
      (a b c p : ℕ) (f : ℕ → A)
      → p < 2 ^ 32
      → c ≡ a + b
      → view c p f ≡ view a p f ++ view b (u32 (p + a)) f
  view-append zero b c p f lt e =
      ap (λ n. view n p f) e
      ∙ ap (λ n. view n p f) (plain b)
      ∙ ap (λ q. view b q f) (sym (at_start p lt))
  view-append (suc a) b zero p f lt e = absurd (omega arith)
  view-append (suc a) b (suc c) p f lt e =
      ap (λ xs. f p ∷ xs)
        (view-append a b c (u32 (p + 1)) f (below (p + 1)) (omega arith)
          ∙ ap (λ q. view a (u32 (p + 1)) f ++ view b q f) (further p a))

  pub view_ext :
      (n p : ℕ) (f g : ℕ → A)
      → p < 2 ^ 32
      → ((i : ℕ) → i < n → f (u32 (p + i)) ≡ g (u32 (p + i)))
      → view n p f ≡ view n p g
  view_ext zero p f g lt h = refl
  view_ext (suc n) p f g lt h =
      let first : f p ≡ g p = subst (λ q. f q ≡ g q) (at_start p lt) (h 0 (omega arith)) in
      let others =
        view_ext n (u32 (p + 1)) f g (below (p + 1))
          (λ i l. subst (λ q. f q ≡ g q) (sym (further p i)) (h (suc i) (omega arith))) in
      rw (first, others) refl

  pub view-All {κ} :
      (P : A → Type κ) (n p : ℕ) (f : ℕ → A)
      → p < 2 ^ 32
      → ((i : ℕ) → i < n → P (f (u32 (p + i))))
      → All P (view n p f)
  view-All P zero p f lt h = tt
  view-All P (suc n) p f lt h = (
    subst (λ q. P (f q)) (at_start p lt) (h 0 (omega arith)),
    view-All P n (u32 (p + 1)) f (below (p + 1))
        (λ i l. subst (λ q. P (f q)) (sym (further p i)) (h (suc i) (omega arith))),
  )
