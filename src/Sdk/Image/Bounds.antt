-- ===== src/Sdk/Image/Bounds.antt =====
-- The bounds of an image hold all its content.
use lilnouns_monorepo.Base.{
  ℕ, zero, suc, ◌<◌, ◌≤◌, ◌≡◌, ◌≢◌, Bool, true, Bool-cases, inl, inr, ltb, leb, ◌==◌, arith,
}
use lilnouns_monorepo.Sdk.Image.{
  Image, all_below, lower, shrink, raise, is_transparent_row, is_transparent_column, calc_bounds,
}

all_below_lem : (p : ℕ → Bool) (n i : ℕ) → all_below p n ≡ true → i < n → p i ≡ true
unfolding all_below
all_below_lem p zero i h l = absurd (omega arith)
all_below_lem p (suc n) i h l = elim (Bool-cases (i == n)) [
  | inl e ↦ let same : i ≡ n = ground arith in rw same (ground arith)
  | inr e ↦ all_below_lem p n i (ground arith) (ground arith)
]

-- What the three loops pass over satisfies their test.
lower_lem : (p : ℕ → Bool) (b i : ℕ) → lower p b < i → i ≤ b → p i ≡ true
unfolding lower
lower_lem p zero i = λ h l. absurd (omega arith)
lower_lem p (suc b) i = elim (Bool-cases (p (suc b))) [
  | inl t ↦ rw t (λ h l. elim (Bool-cases (i == suc b)) [
    | inl e ↦ let same : i ≡ suc b = ground arith in rw (same, t)
    | inr e ↦ lower_lem p b i h (ground arith)
  ])
  | inr f ↦ rw f (λ h l. absurd (omega arith))
]

shrink_lem : (p : ℕ → Bool) (b i : ℕ) → shrink p b ≤ i → i < b → p i ≡ true
unfolding shrink
shrink_lem p zero i = λ h l. absurd (omega arith)
shrink_lem p (suc b) i = elim (Bool-cases (p b)) [
  | inl t ↦ rw t (λ h l. elim (Bool-cases (i == b)) [
    | inl e ↦ let same : i ≡ b = ground arith in rw (same, t)
    | inr e ↦ shrink_lem p b i h (ground arith)
  ])
  | inr f ↦ rw f (λ h l. absurd (omega arith))
]

raise_lem : (p : ℕ → Bool) (n t i : ℕ) → t ≤ i → i < raise p n t → p i ≡ true
unfolding raise
raise_lem p zero t i h = λ l. absurd (omega arith)
raise_lem p (suc n) t i h = elim (Bool-cases (p t)) [
  | inl y ↦ rw y (λ l. elim (Bool-cases (i == t)) [
    | inl e ↦ let same : i ≡ t = ground arith in rw (same, y)
    | inr e ↦ raise_lem p n (suc t) i (ground arith) l
  ])
  | inr f ↦ rw f (λ l. absurd (omega arith))
]

module _ (im : Image) (x y : ℕ) (in_width : x < im.width) (in_height : y ≤ im.last_row)
    (opaque_pixel : (im.rgba_at x y).a ≢ 0) where
  row_shown : is_transparent_row im y ≢ true
  unfolding is_transparent_row
  row_shown h =
      let z = all_below_lem (λ column. (im.rgba_at column y).a == 0) im.width x h in_width in
      opaque_pixel (ground arith)

  column_shown : is_transparent_column im x ≢ true
  unfolding is_transparent_column
  column_shown h =
      let z =
        all_below_lem (λ row. (im.rgba_at x row).a == 0) (suc im.last_row) y h (omega arith) in
      opaque_pixel (ground arith)

  -- A pixel of an image that is not transparent lies within the bounds: from the top row to the
  -- bottom row, and from the left column to before the right bound.
  pub calc_bounds-content :
      ((calc_bounds im).top ≤ y)
      × (y ≤ (calc_bounds im).bottom)
      × ((calc_bounds im).left ≤ x)
      × (x < (calc_bounds im).right)
  unfolding calc_bounds
  calc_bounds-content = (
    not_lt _ _ (λ h. row_shown (raise_lem (is_transparent_row im) _ 0 y (omega arith) h)),
    not_lt _ _ (λ h. row_shown (lower_lem (is_transparent_row im) im.last_row y h in_height)),
    not_lt _ _ (λ h. column_shown (raise_lem (is_transparent_column im) _ 0 x (omega arith) h)),
    not_le _ _ (λ h. column_shown (shrink_lem (is_transparent_column im) im.width x h in_width)),
  )
    where
      not_lt : (a b : ℕ) → ¬ (b < a) → a ≤ b
      not_lt a b h = elim (Bool-cases (leb a b)) [
        | inl e ↦ ground arith
        | inr e ↦ absurd (h (ground arith))
      ]

      not_le : (a b : ℕ) → ¬ (b ≤ a) → a < b
      not_le a b h = elim (Bool-cases (ltb a b)) [
        | inl e ↦ ground arith
        | inr e ↦ absurd (h (ground arith))
      ]
