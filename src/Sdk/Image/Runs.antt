-- ===== src/Sdk/Image/Runs.antt =====
-- The run-length encoding: what it expands to, and how long its runs are.
use lilnouns_monorepo.Base.{
  ℕ, zero, suc, ◌<◌, ◌≡◌, refl, ap, sym, ◌∙◌, Bool-cases, inl, inr, not, ◌||◌, ◌==◌, List, [], ◌∷◌,
  ◌++◌, All, replicate, arith,
}
use lilnouns_monorepo.Sdk.Image.{runs, runs_from}

-- The colors that runs stand for, one for each pixel.
unfoldable pub expand : List (ℕ × ℕ) → List ℕ
expand [] = []
expand ((count, color) ∷ rs) = replicate count color ++ expand rs

-- A run is of one pixel at least, and its length and its color are bytes.
abbrev pub IsRun : ℕ × ℕ → Type 0
IsRun r = (0 < r.0) × (r.0 < 256) × (r.1 < 256)

replicate-shift : (n a : ℕ) (ds : List ℕ) → replicate (suc n) a ++ ds ≡ replicate n a ++ a ∷ ds
replicate-shift zero a ds = refl
replicate-shift (suc n) a ds = ap (λ r. a ∷ r) (replicate-shift n a ds)

expand-runs_from :
    (count previous : ℕ) (ds : List ℕ)
    → expand (runs_from count previous ds) ≡ replicate count previous ++ ds
unfolding expand runs_from
expand-runs_from count previous [] = refl
expand-runs_from count previous (d ∷ ds) = elim (Bool-cases (not (d == previous) || count == 255)) [
  | inl h ↦ rw (h, expand-runs_from 1 d ds)
  | inr h ↦
      let same : d ≡ previous = ground arith in
      rw (h, expand-runs_from (suc count) previous ds)
        (replicate-shift count previous ds
          ∙ ap (λ x. replicate count previous ++ x ∷ ds) (sym same))
]

runs_from-IsRun :
    (count previous : ℕ) (ds : List ℕ)
    → IsRun (count, previous)
    → All (λ d. d < 256) ds
    → All IsRun (runs_from count previous ds)
unfolding runs_from
runs_from-IsRun count previous [] r h = (r, tt)
runs_from-IsRun count previous (d ∷ ds) r (hd, h) =
    elim (Bool-cases (not (d == previous) || count == 255)) [
      | inl e ↦ rw e (r, runs_from-IsRun 1 d ds (omega arith, omega arith, hd) h)
      | inr e ↦ rw e (runs_from-IsRun (suc count) previous ds (omega arith, ground arith, r.2) h)
    ]

-- The runs of a sequence of colors expand to it.
pub expand-runs : (ds : List ℕ) → expand (runs ds) ≡ ds
unfolding runs expand
expand-runs [] = refl
expand-runs (d ∷ ds) = expand-runs_from 1 d ds

-- The runs of a sequence of colors that are bytes have lengths from 1 to 255, and colors that are
-- bytes.
pub runs-IsRun : (ds : List ℕ) → All (λ d. d < 256) ds → All IsRun (runs ds)
unfolding runs
runs-IsRun [] h = tt
runs-IsRun (d ∷ ds) (hd, h) = runs_from-IsRun 1 d ds (omega arith, omega arith, hd) h
