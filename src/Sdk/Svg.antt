-- ===== src/Sdk/Svg.antt =====
-- image/svg-builder.ts: `buildSVG`.
pub mod Painting
use lilnouns_monorepo.Base.{
  ℕ, zero, suc, ◌+◌, ◌-◌, ◌*◌, Bool, true, false, leb, ◌==◌, Option, some, none, String, List, [],
  ◌∷◌, ◌++◌, if◌then◌else◌, get_elem?,
}
use lilnouns_monorepo.Base.Chars.{Chars, codes}
use lilnouns_monorepo.Sdk.Hex.{number_text}
use lilnouns_monorepo.Sdk.Image.{ImageBounds, concat}
use lilnouns_monorepo.Sdk.Decode.{DecodedImage, decode_image}

-- The remaining pixels in the line stop at 0 here: a draw length that is not positive ends the loop
-- either way.
unfoldable pub get_rect_length : ℕ → ℕ → ℕ → ℕ
get_rect_length current_x draw_length right_bound =
    let remaining = right_bound - current_x in
    if leb draw_length remaining then draw_length else remaining

-- One rectangle of height one, with its color's index.
pub record SvgRect : Type 0 where
  pub length : ℕ
  pub x : ℕ
  pub y : ℕ
  pub color : ℕ

-- Where the next rectangle is drawn.
pub record Cursor : Type 0 where
  pub x : ℕ
  pub y : ℕ

unfoldable pub advance : ImageBounds → ℕ → Cursor → Cursor
advance b length c =
    let x = c.x + length in
    if x == b.right then record { x = b.left; y = suc c.y } else record { x = x; y = c.y }

-- A rectangle is not pushed if it is transparent.
unfoldable pub push_rect : SvgRect → List SvgRect → List SvgRect
push_rect r rs = if r.color == 0 then rs else r ∷ rs

-- The `while` loop of one draw. Each turn draws a pixel at least, so as many turns as the draw has
-- pixels are enough.
unfoldable pub draw_line : ImageBounds → ℕ → ℕ → ℕ → Cursor → List SvgRect × Cursor
unfolding get_rect_length advance push_rect
draw_line b zero draw_length color c = ([], c)
draw_line b (suc turns) draw_length color c =
    let length = get_rect_length c.x draw_length b.right in
    let rest = draw_line b turns (draw_length - length) color (advance b length c) in
    if length == 0
    then ([], c)
    else (push_rect (record { length = length; x = c.x; y = c.y; color = color }) rest.0, rest.1)

unfoldable pub draw_rects : ImageBounds → List (ℕ × ℕ) → Cursor → List SvgRect
unfolding draw_line
draw_rects b [] c = []
draw_rects b ((length, color) ∷ rs) c =
    let drawn = draw_line b length length color c in drawn.0 ++ draw_rects b rs drawn.1

-- `paletteColors[colorIndex]`
color_text : List Chars → ℕ → Chars
color_text palette i = elim (get_elem? palette i) [ none ↦ codes "undefined" | some c ↦ c ]

rect_text : List Chars → SvgRect → Chars
unfolding number_text color_text
rect_text palette r = concat (
    codes "<rect width=\""
    ∷ number_text 10 (r.length * 10)
    ∷ codes "\" height=\"10\" x=\""
    ∷ number_text 10 (r.x * 10)
    ∷ codes "\" y=\""
    ∷ number_text 10 (r.y * 10)
    ∷ codes "\" fill=\"#"
    ∷ color_text palette r.color
    ∷ codes "\" />"
    ∷ [])

rect_texts : List Chars → List SvgRect → Chars
unfolding rect_text
rect_texts palette [] = []
rect_texts palette (r ∷ rs) = rect_text palette r ++ rect_texts palette rs

part_text : List Chars → DecodedImage → Chars
unfolding draw_rects rect_texts
part_text palette d =
    rect_texts palette
      (draw_rects d.bounds d.rects (record { x = d.bounds.left; y = d.bounds.top }))

-- The parts, drawn one over the other; `none` where `decodeImage` has a NaN.
parts_text : List Chars → List Chars → Option Chars
unfolding decode_image part_text
parts_text palette [] = some []
parts_text palette (part ∷ parts) = elim (decode_image part) [
  | none ↦ none
  | some d ↦ elim (parts_text palette parts) [
    | none ↦ none
    | some rest ↦ some (part_text palette d ++ rest)
  ]
]

unfoldable pub build_svg : List Chars → List Chars → Chars → Option Chars
unfolding parts_text
build_svg parts palette background = elim (parts_text palette parts) [
  | none ↦ none
  | some rects ↦ some (
      codes
        "<svg width=\"320\" height=\"320\" viewBox=\"0 0 320 320\" xmlns=\"http://www.w3.org/2000/svg\" shape-rendering=\"crispEdges\"><rect width=\"100%\" height=\"100%\" fill=\"#"
      ++ (background ++ (codes "\" />" ++ (rects ++ codes "</svg>"))))
]
