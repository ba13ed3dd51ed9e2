-- ===== src/Sdk/Tests.antt =====
-- A small image, encoded, decoded and drawn.
use lilnouns_monorepo.Base.{
  ℕ, ◌<◌, ◌≤◌, ◌≡◌, refl, ◌==◌, if◌then◌else◌, some, List, [], ◌∷◌, arith, false, true, ◌&&◌,
}
use lilnouns_monorepo.Base.Chars.{codes}
use lilnouns_monorepo.Sdk.Hex.{parse_hex}
use lilnouns_monorepo.Sdk.Image.{
  RgbaColor, Image, ImageBounds, Colors, calc_bounds, pixels, index_pixels, to_rle,
}
use lilnouns_monorepo.Sdk.Image.Runs.{expand}
use lilnouns_monorepo.Sdk.Image.Bounds.{calc_bounds-content}
use lilnouns_monorepo.Sdk.Decode.{decode_image}
use lilnouns_monorepo.Sdk.Decode.RoundTrip.{decode_image-to_rle}
use lilnouns_monorepo.Sdk.Svg.{Cursor, advance, draw_rects, build_svg}
use lilnouns_monorepo.Sdk.Svg.Painting.{covered, placed, shown, covered-draw_rects}

abbrev red : RgbaColor
red = record { r = 255; g = 0; b = 0; a = 255 }

abbrev clear : RgbaColor
clear = record red { a = 0 }

-- Three by three pixels, of which two in the middle row are red.
abbrev image : Image
image = record {
  width = 3;
  last_row = 2;
  rgba_at =
      λ x y. if (y == 1) && (x == 1) then red else if (y == 1) && (x == 2) then red else clear;
}

abbrev palette : Colors
palette = ([], 0) ∷ []

to_rle_example : (to_rle image palette).0 ≡ codes "0x00010301010201"
unfolding to_rle
to_rle_example = refl

abbrev bounds : ImageBounds
bounds = record { top = 1; right = 3; bottom = 1; left = 1 }

calc_bounds_example : calc_bounds image ≡ bounds
unfolding calc_bounds
calc_bounds_example = refl

build_svg_example :
    build_svg (codes "0x00010301010201" ∷ []) ([] ∷ codes "ff0000" ∷ []) (codes "fff")
    ≡ some (
        codes
          "<svg width=\"320\" height=\"320\" viewBox=\"0 0 320 320\" xmlns=\"http://www.w3.org/2000/svg\" shape-rendering=\"crispEdges\"><rect width=\"100%\" height=\"100%\" fill=\"#fff\" /><rect width=\"20\" height=\"10\" x=\"10\" y=\"10\" fill=\"#ff0000\" /></svg>")
unfolding build_svg parse_hex
build_svg_example = refl

calc_bounds-content_example :
    ((calc_bounds image).top ≤ 1)
    × (1 ≤ (calc_bounds image).bottom)
    × ((calc_bounds image).left ≤ 2)
    × (2 < (calc_bounds image).right)
calc_bounds-content_example =
    calc_bounds-content image 2 1 (omega arith) (omega arith) (omega arith)

decode_image-to_rle_example :
    (rects : List (ℕ × ℕ)) × (decode_image (to_rle image palette).0
      ≡ some (record { palette_index = 0; bounds = calc_bounds image; rects = rects }))
    × (expand rects ≡ (index_pixels (pixels image (calc_bounds image)) palette).0)
unfolding calc_bounds pixels index_pixels
decode_image-to_rle_example =
    decode_image-to_rle image palette (omega arith) (omega arith) (omega arith, (omega arith, tt))

abbrev start : Cursor
start = record { x = 1; y = 1 }

covered-draw_rects_example :
    covered (draw_rects bounds ((3, 0) ∷ (2, 1) ∷ []) start)
    ≡ shown (placed bounds (expand ((3, 0) ∷ (2, 1) ∷ [])) start)
covered-draw_rects_example =
    covered-draw_rects bounds ((3, 0) ∷ (2, 1) ∷ []) start (omega arith, omega arith)

-- Three transparent pixels, then two red ones in two rows.
shown_example :
    shown (placed bounds (expand ((3, 0) ∷ (2, 1) ∷ [])) start) ≡ (2, 2, 1) ∷ (1, 3, 1) ∷ []
unfolding shown placed expand advance
shown_example = refl

false_ne_true : ¬ (false ≡ true)
false_ne_true p = cc p
