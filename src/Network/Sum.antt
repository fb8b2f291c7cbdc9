-- ===== src/Network/Sum.antt =====
-- A family of nodes by their numbers: one of them replaced, and a sum over the first.
use dtnex_redesign.Base.{
  ℕ, zero, suc, ◌+◌, ◌≡◌, ◌≢◌, refl, ap, ◌<◌, ◌≤◌, ◌==◌, if◌then◌else◌, arith, Bool-cases, inl, inr,
}

unfoldable pub replace {ℓ} : {A : Type ℓ} → (ℕ → A) → ℕ → A → ℕ → A
replace f i a j = if i == j then a else f j

pub replace_here {ℓ} : {A : Type ℓ} (f : ℕ → A) (i : ℕ) (a : A) → replace f i a i ≡ a
unfolding replace
replace_here f i a = ground arith

pub replace_elsewhere {ℓ} :
    {A : Type ℓ} (f : ℕ → A) (i : ℕ) (a : A) (j : ℕ) → i ≢ j → replace f i a j ≡ f j
unfolding replace
replace_elsewhere f i a j h = ground (arith, h)

-- What holds of the family and of the new member holds after the replacement.
pub replace_P {ℓ κ} :
    {A : Type ℓ} (P : ℕ → A → Type κ) (f : ℕ → A) (i : ℕ) (a : A)
    → P i a
    → (j : ℕ) → P j (f j)
    → P j (replace f i a j)
unfolding replace
replace_P P f i a new j old = elim (Bool-cases (i == j)) [
  | inl same ↦ let here : i ≡ j = ground arith in rw same (rw (← here) new)
  | inr other ↦ rw other old
]

module _ {ℓ} {A : Type ℓ} (w : A → ℕ) where
  unfoldable pub total : ℕ → (ℕ → A) → ℕ
  total zero f = 0
  total (suc n) f = w (f n) + total n f

  total-replace_past :
      (n : ℕ) (f : ℕ → A) (i : ℕ) (a : A) → n ≤ i → total n (replace f i a) ≡ total n f
  unfolding total replace
  total-replace_past zero f i a h = refl
  total-replace_past (suc n) f i a h = ground (arith, total-replace_past n f i a)

  -- The sum changes by the difference of the two members.
  pub total-replace :
      (n : ℕ) (f : ℕ → A) (i : ℕ) (a : A)
      → i < n
      → total n (replace f i a) + w (f i) ≡ total n f + w a
  unfolding total replace
  total-replace zero f i a h = absurd (omega arith)
  total-replace (suc n) f i a h = elim (Bool-cases (i == n)) [
    | inl last ↦
        let here : i ≡ n = ground arith in ground (arith, total-replace_past n f i a, ap f here)
    | inr below ↦ ground (arith, total-replace n f i a)
  ]
