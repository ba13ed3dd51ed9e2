-- ===== src/Sdk/Image/Palette.antt =====
-- The palette grows as images are indexed, and the indexes that are given stay right.
use lilnouns_monorepo.Base.{
  ℕ, ◌≡◌, refl, true, Bool-cases, Option-cases, inl, inr, some, none, List, [], ◌∷◌, ◌++◌, length,
  if◌then◌else◌, ◌==◌, arith,
}
use lilnouns_monorepo.Base.Chars.{Chars}
use lilnouns_monorepo.Sdk.Hex.{rgb_to_hex}
use lilnouns_monorepo.Sdk.Image.{
  RgbaColor, Colors, chars_eq, get, index_of, index_pixel, index_pixels,
}

chars_eq_refl : (s : Chars) → chars_eq s s ≡ true
chars_eq_refl [] = refl
chars_eq_refl (c ∷ s) = let e : (c == c) ≡ true = ground arith in rw (e, chars_eq_refl s)

get-append :
    (cs : Colors) (h k : Chars) (n i : ℕ) → get cs k ≡ some i → get (cs ++ (h, n) ∷ []) k ≡ some i
unfolding get
get-append [] h k n i = λ e. cc e
get-append ((j, x) ∷ cs) h k n i = elim (Bool-cases (chars_eq j k)) [
  | inl t ↦ rw t (λ e. e)
  | inr f ↦ rw f (λ e. get-append cs h k n i e)
]

get-append_new :
    (cs : Colors) (h : Chars) (n : ℕ) → get cs h ≡ none → get (cs ++ (h, n) ∷ []) h ≡ some n
unfolding get
get-append_new [] h n = λ e. rw (chars_eq_refl h)
get-append_new ((j, x) ∷ cs) h n = elim (Bool-cases (chars_eq j h)) [
  | inl t ↦ rw t (λ e. cc e)
  | inr f ↦ rw f (λ e. get-append_new cs h n e)
]

-- A pixel's index: 0 if it is transparent, and its color's in the palette otherwise.
abbrev pub IsIndex : Colors → RgbaColor → ℕ → Type 0
IsIndex cs p i = if p.a == 0 then i ≡ 0 else get cs (rgb_to_hex p.r p.g p.b) ≡ some i

abbrev pub AreIndexes : Colors → List RgbaColor → List ℕ → Type 0
AreIndexes cs [] [] = Unit
AreIndexes cs [] (i ∷ is) = ⊥
AreIndexes cs (p ∷ ps) [] = ⊥
AreIndexes cs (p ∷ ps) (i ∷ is) = IsIndex cs p i × AreIndexes cs ps is

-- One pixel: a color that is known stays so, and the pixel has its index.
index_pixel-get :
    (p : RgbaColor) (cs : Colors) (k : Chars) (i : ℕ)
    → get cs k ≡ some i
    → get (index_pixel p cs).1 k ≡ some i
unfolding index_pixel index_of
index_pixel-get p cs k i e = elim (Option-cases (get cs (rgb_to_hex p.r p.g p.b))) [
  | inl n ↦ rw n (get-append cs (rgb_to_hex p.r p.g p.b) k (length cs) i e)
  | inr (j, s) ↦ rw s e
]

index_pixel-IsIndex :
    (p : RgbaColor) (cs : Colors) → IsIndex (index_pixel p cs).1 p (index_pixel p cs).0
unfolding index_pixel index_of
index_pixel-IsIndex p cs = elim (Bool-cases (p.a == 0)) [
  | inl t ↦ rw t refl
  | inr f ↦ rw f (elim (Option-cases (get cs (rgb_to_hex p.r p.g p.b))) [
    | inl n ↦ rw n (get-append_new cs (rgb_to_hex p.r p.g p.b) (length cs) n)
    | inr (j, s) ↦ rw s s
  ])
]

-- A color that has an index keeps it while more pixels are indexed.
pub index_pixels-get :
    (ps : List RgbaColor) (cs : Colors) (k : Chars) (i : ℕ)
    → get cs k ≡ some i
    → get (index_pixels ps cs).1 k ≡ some i
unfolding index_pixels
index_pixels-get [] cs k i e = e
index_pixels-get (p ∷ ps) cs k i e =
    index_pixels-get ps (index_pixel p cs).1 k i (index_pixel-get p cs k i e)

-- The indexes of an image's pixels are those of their colors in the palette that results, and 0 for
-- a transparent pixel.
pub index_pixels-AreIndexes :
    (ps : List RgbaColor) (cs : Colors)
    → AreIndexes (index_pixels ps cs).1 ps (index_pixels ps cs).0
unfolding index_pixels
index_pixels-AreIndexes [] cs = tt
index_pixels-AreIndexes (p ∷ ps) cs = (
  later p (index_pixel p cs).0 (index_pixel-IsIndex p cs),
  index_pixels-AreIndexes ps (index_pixel p cs).1,
)
  where
    later :
        (q : RgbaColor) (i : ℕ)
        → IsIndex (index_pixel p cs).1 q i
        → IsIndex (index_pixels ps (index_pixel p cs).1).1 q i
    later q i = elim (Bool-cases (q.a == 0)) [
      | inl t ↦ rw t (λ e. e)
      | inr f ↦ rw f (λ e. index_pixels-get ps (index_pixel p cs).1 _ i e)
    ]
