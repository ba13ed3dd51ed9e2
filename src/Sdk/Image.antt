-- ===== src/Sdk/Image.antt =====
-- image/image.ts: the class `Image`.
pub mod Runs
pub mod Bounds
pub mod Palette
use lilnouns_monorepo.Base.{
  ℕ, zero, suc, ◌+◌, ◌-◌, Bool, true, false, not, ◌&&◌, ◌||◌, ◌==◌, if◌then◌else◌, Option, some,
  none, List, [], ◌∷◌, ◌++◌, length, map,
}
use lilnouns_monorepo.Base.Chars.{Chars, codes}
use lilnouns_monorepo.Sdk.Hex.{to_padded_hex, rgb_to_hex}

pub record RgbaColor : Type 0 where
  pub r : ℕ
  pub g : ℕ
  pub b : ℕ
  pub a : ℕ

-- An image has a last row, so its height is not zero.
pub record Image : Type 0 where
  pub width : ℕ
  pub last_row : ℕ
  pub rgba_at : ℕ → ℕ → RgbaColor

pub record ImageBounds : Type 0 where
  pub top : ℕ
  pub right : ℕ
  pub bottom : ℕ
  pub left : ℕ

-- The loop over the indexes below a number, left by the first one that fails.
unfoldable pub all_below : (ℕ → Bool) → ℕ → Bool
all_below p zero = true
all_below p (suc n) = all_below p n && p n

unfoldable pub is_transparent_column : Image → ℕ → Bool
unfolding all_below
is_transparent_column im column =
    all_below (λ row. (im.rgba_at column row).a == 0) (suc im.last_row)

unfoldable pub is_transparent_row : Image → ℕ → Bool
unfolding all_below
is_transparent_row im row = all_below (λ column. (im.rgba_at column row).a == 0) im.width

-- `while (b > 0 && p(b)) b--`
unfoldable pub lower : (ℕ → Bool) → ℕ → ℕ
lower p zero = zero
lower p (suc b) = let rest = lower p b in if p (suc b) then rest else suc b

-- `while (b >= 0 && p(b)) b--`, by b + 1
unfoldable pub shrink : (ℕ → Bool) → ℕ → ℕ
shrink p zero = zero
shrink p (suc b) = let rest = shrink p b in if p b then rest else suc b

-- `while (t < end && p(t)) t++`, by the steps that are left
unfoldable pub raise : (ℕ → Bool) → ℕ → ℕ → ℕ
raise p zero t = t
raise p (suc steps) t = let rest = raise p steps (suc t) in if p t then rest else t

-- The right bound is one pixel outside the content.
unfoldable pub calc_bounds : Image → ImageBounds
unfolding lower shrink raise is_transparent_row is_transparent_column
calc_bounds im =
    let bottom = lower (is_transparent_row im) im.last_row in
    let right = shrink (is_transparent_column im) im.width in
    record {
      top = raise (is_transparent_row im) bottom 0;
      right = right;
      bottom = bottom;
      left = raise (is_transparent_column im) (right - 1) 0;
    }

-- The colors by their hex text, in the order in which they were added, with their indexes.
abbrev pub Colors : Type 0
Colors = List (Chars × ℕ)

abbrev pub chars_eq : Chars → Chars → Bool
chars_eq [] [] = true
chars_eq [] (d ∷ t) = false
chars_eq (c ∷ s) [] = false
chars_eq (c ∷ s) (d ∷ t) = c == d && chars_eq s t

-- `colors.get(key)`
unfoldable pub get : Colors → Chars → Option ℕ
get [] key = none
get ((k, i) ∷ colors) key = let rest = get colors key in if chars_eq k key then some i else rest

-- The color's index, and the colors with the color added if it is new.
unfoldable pub index_of : Colors → Chars → Option ℕ → ℕ × Colors
index_of colors hex none = (length colors, colors ++ (hex, length colors) ∷ [])
index_of colors hex (some i) = (i, colors)

unfoldable pub index_pixel : RgbaColor → Colors → ℕ × Colors
unfolding index_of get rgb_to_hex
index_pixel p colors =
    let hex = rgb_to_hex p.r p.g p.b in
    let (i, colors') = index_of colors hex (get colors hex) in (if p.a == 0 then 0 else i, colors')

unfoldable pub index_pixels : List RgbaColor → Colors → List ℕ × Colors
unfolding index_pixel
index_pixels [] colors = ([], colors)
index_pixels (p ∷ ps) colors =
    let (i, colors') = index_pixel p colors in
    let (is, colors'') = index_pixels ps colors' in (i ∷ is, colors'')

-- `f(start)`, …, `f(start + count - 1)`
abbrev pub tabulate {ℓ} : {A : Type ℓ} → (ℕ → A) → ℕ → ℕ → List A
tabulate f start zero = []
tabulate f start (suc count) = f start ∷ tabulate f (suc start) count

abbrev pub concat {ℓ} : {A : Type ℓ} → List (List A) → List A
concat [] = []
concat (xs ∷ xss) = xs ++ concat xss

-- The pixels within the bounds, row by row.
unfoldable pub pixels : Image → ImageBounds → List RgbaColor
pixels im b = concat (
    tabulate (λ y. tabulate (λ x. im.rgba_at x y) b.left (b.right - b.left)) b.top
      (suc b.bottom - b.top))

-- The loop of `encode`: each run's length and color, from the run at hand on.
unfoldable pub runs_from : ℕ → ℕ → List ℕ → List (ℕ × ℕ)
runs_from count previous [] = (count, previous) ∷ []
runs_from count previous (d ∷ ds) =
    let ended = (count, previous) ∷ runs_from 1 d ds in
    let longer = runs_from (suc count) previous ds in
    if not (d == previous) || count == 255 then ended else longer

unfoldable pub runs : List ℕ → List (ℕ × ℕ)
unfolding runs_from
runs [] = []
runs (d ∷ ds) = runs_from 1 d ds

unfoldable pub encode_runs : List (ℕ × ℕ) → Chars
unfolding to_padded_hex
encode_runs [] = []
encode_runs ((count, color) ∷ rs) =
    to_padded_hex count 2 ++ (to_padded_hex color 2 ++ encode_runs rs)

unfoldable pub encode : List ℕ → Chars
unfolding runs encode_runs
encode ds = encode_runs (runs ds)

unfoldable pub metadata : ImageBounds → Chars
unfolding to_padded_hex
metadata b = concat (map (λ v. to_padded_hex v 2) (0 ∷ b.top ∷ b.right ∷ b.bottom ∷ b.left ∷ []))

-- The text, and the colors with those of the image added.
unfoldable pub to_rle : Image → Colors → Chars × Colors
unfolding calc_bounds index_pixels pixels metadata encode
to_rle im colors =
    let b = calc_bounds im in
    let (indexes, colors') = index_pixels (pixels im b) colors in
    (codes "0x" ++ (metadata b ++ encode indexes), colors')
