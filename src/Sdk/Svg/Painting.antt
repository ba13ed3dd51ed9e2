-- ===== src/Sdk/Svg/Painting.antt =====
-- Which pixels the rectangles of an image cover.
use lilnouns_monorepo.Base.{
  ℕ, zero, suc, ◌+◌, ◌-◌, ◌<◌, ◌≤◌, ◌≡◌, refl, ap, sym, ◌∙◌, true, false, leb, Bool-cases, inl, inr,
  ◌==◌, List, [], ◌∷◌, ◌++◌, if◌then◌else◌, replicate, arith, append_assoc,
}
use lilnouns_monorepo.Sdk.Image.{ImageBounds, tabulate}
use lilnouns_monorepo.Sdk.Image.Runs.{expand}
use lilnouns_monorepo.Sdk.Svg.{
  SvgRect, Cursor, get_rect_length, advance, push_rect, draw_line, draw_rects,
}

-- A painted pixel: its column, its row and its color.
abbrev pub Pixel : Type 0
Pixel = ℕ × ℕ × ℕ

unfoldable pub covered : List SvgRect → List Pixel
covered [] = []
covered (r ∷ rs) = tabulate (λ x. (x, r.y, r.color)) r.x r.length ++ covered rs

-- The pixel on the right, or the first one of the row below after the last column.
abbrev pub next_pixel : ImageBounds → Cursor → Cursor
next_pixel b c =
    if suc c.x == b.right
    then record { x = b.left; y = suc c.y }
    else record { x = suc c.x; y = c.y }

-- The specification: one pixel for each color, row by row within the bounds from the cursor on.
unfoldable pub placed : ImageBounds → List ℕ → Cursor → List Pixel
placed b [] c = []
placed b (d ∷ ds) c = (c.x, c.y, d) ∷ placed b ds (next_pixel b c)

-- The pixels that are not transparent.
unfoldable pub shown : List Pixel → List Pixel
shown [] = []
shown ((x, y, color) ∷ ps) =
    let rest = shown ps in if color == 0 then rest else (x, y, color) ∷ rest

abbrev pub IsWithin : ImageBounds → Cursor → Type 0
IsWithin b c = (b.left ≤ c.x) × (c.x < b.right)

abbrev right_of : Cursor → Cursor
right_of c = record { x = suc c.x; y = c.y }

next_pixel-right_of :
    (b : ImageBounds) (c : Cursor) → suc c.x < b.right → next_pixel b c ≡ right_of c
next_pixel-right_of b c h = let inside : (suc c.x == b.right) ≡ false = ground arith in rw inside

next_pixel-advance : (b : ImageBounds) (c : Cursor) → next_pixel b c ≡ advance b 1 c
unfolding advance
next_pixel-advance b c = let x : c.x + 1 ≡ suc c.x = omega arith in rw x

advance-suc :
    (b : ImageBounds) (n : ℕ) (c : Cursor) → advance b n (right_of c) ≡ advance b (suc n) c
unfolding advance
advance-suc b n c = let x : suc c.x + n ≡ c.x + suc n = omega arith in rw x

advance-IsWithin :
    (b : ImageBounds) (n : ℕ) (c : Cursor)
    → IsWithin b c
    → c.x + n ≤ b.right
    → IsWithin b (advance b n c)
unfolding advance
advance-IsWithin b n c w h = elim (Bool-cases (c.x + n == b.right)) [
  | inl e ↦ rw e (omega arith, omega arith)
  | inr e ↦ rw e (omega arith, ground arith)
]

-- A row's part of one color.
row : ℕ → ℕ → Cursor → List Pixel
row n color c = tabulate (λ x. (x, c.y, color)) c.x n

placed-row :
    (b : ImageBounds) (n color : ℕ) (ds : List ℕ) (c : Cursor)
    → c.x + suc n ≤ b.right
    → placed b (replicate (suc n) color ++ ds) c
      ≡ row (suc n) color c ++ placed b ds (advance b (suc n) c)
unfolding placed row
placed-row b zero color ds c h =
    ap (λ k. (c.x, c.y, color) ∷ placed b ds k) (next_pixel-advance b c)
placed-row b (suc n) color ds c h =
    ap (λ ps. (c.x, c.y, color) ∷ ps)
      (ap (λ k. placed b (replicate (suc n) color ++ ds) k) (next_pixel-right_of b c (omega arith))
        ∙ placed-row b n color ds (right_of c) (omega arith)
        ∙ ap (λ k. row (suc n) color (right_of c) ++ placed b ds k) (advance-suc b (suc n) c))

shown-append : (ps qs : List Pixel) → shown (ps ++ qs) ≡ shown ps ++ shown qs
unfolding shown
shown-append [] qs = refl
shown-append ((x, y, d) ∷ ps) qs = elim (Bool-cases (d == 0)) [
  | inl e ↦ rw (e, shown-append ps qs)
  | inr e ↦ rw (e, shown-append ps qs)
]

shown-row :
    (n color : ℕ) (c : Cursor) → shown (row n color c) ≡ (if color == 0 then [] else row n color c)
unfolding row shown
shown-row n color c = elim (Bool-cases (color == 0)) [
  | inl e ↦ rw e (hidden n c e)
  | inr e ↦ rw e (all_shown n c e)
]
  where
    hidden : (n : ℕ) (c : Cursor) → (color == 0) ≡ true → shown (row n color c) ≡ []
    hidden zero c e = refl
    hidden (suc n) c e = rw e (hidden n (right_of c) e)

    all_shown : (n : ℕ) (c : Cursor) → (color == 0) ≡ false → shown (row n color c) ≡ row n color c
    all_shown zero c e = refl
    all_shown (suc n) c e = rw e (ap (λ ps. (c.x, c.y, color) ∷ ps) (all_shown n (right_of c) e))

covered-push_rect :
    (n color : ℕ) (c : Cursor) (rs : List SvgRect)
    → covered (push_rect (record { length = n; x = c.x; y = c.y; color = color }) rs)
      ≡ shown (row n color c) ++ covered rs
unfolding covered push_rect row
covered-push_rect n color c rs = elim (Bool-cases (color == 0)) [
  | inl e ↦ rw (shown-row, e)
  | inr e ↦ rw (shown-row, e)
]

covered-append : (rs qs : List SvgRect) → covered (rs ++ qs) ≡ covered rs ++ covered qs
unfolding covered
covered-append [] qs = refl
covered-append (r ∷ rs) qs =
    rw (covered-append rs qs) (
      sym (append_assoc (tabulate (λ x. (x, r.y, r.color)) r.x r.length) (covered rs) (covered qs)))

replicate-split :
    (k n a : ℕ) (ds : List ℕ)
    → k ≤ n
    → replicate n a ++ ds ≡ replicate k a ++ (replicate (n - k) a ++ ds)
replicate-split zero n a ds h = let m : n - 0 ≡ n = omega arith in rw m
replicate-split (suc k) zero a ds h = absurd (omega arith)
replicate-split (suc k) (suc n) a ds h =
    let m : suc n - suc k ≡ n - k = omega arith in
    rw m (ap (λ r. a ∷ r) (replicate-split k n a ds (omega arith)))

-- A draw that is not over takes a pixel at least, and stays within the line.
get_rect_length-suc :
    (b : ImageBounds) (n : ℕ) (c : Cursor)
    → IsWithin b c
    → (k : ℕ) × (get_rect_length c.x (suc n) b.right ≡ suc k) × (k ≤ n) × (c.x + suc k ≤ b.right)
unfolding get_rect_length
get_rect_length-suc b n c w = elim (Bool-cases (leb (suc n) (b.right - c.x))) [
  | inl e ↦ rw e (n, refl, omega arith, ground arith)
  | inr e ↦ rw e (b.right - c.x - 1, omega arith, ground arith, ground arith)
]

draw_line-stop :
    (b : ImageBounds) (turns color : ℕ) (c : Cursor) → draw_line b (suc turns) 0 color c ≡ ([], c)
unfolding draw_line get_rect_length
draw_line-stop b turns color c = let z : leb 0 (b.right - c.x) ≡ true = ground arith in rw z

draw_line-step :
    (b : ImageBounds) (turns n color k : ℕ) (c : Cursor)
    → get_rect_length c.x n b.right ≡ suc k
    → let rest = draw_line b turns (n - suc k) color (advance b (suc k) c) in
      draw_line b (suc turns) n color c
      ≡ (push_rect (record { length = suc k; x = c.x; y = c.y; color = color }) rest.0, rest.1)
unfolding draw_line
draw_line-step b turns n color k c e =
    let nonzero : (suc k == 0) ≡ false = ground arith in rw (e, nonzero)

Drawn : ImageBounds → ℕ → ℕ → List ℕ → Cursor → List SvgRect × Cursor → Type 0
Drawn b n color ds c drawn =
    (shown (placed b (replicate n color ++ ds) c) ≡ covered drawn.0 ++ shown (placed b ds drawn.1))
    × IsWithin b drawn.1

draw_line-Drawn :
    (b : ImageBounds) (turns n color : ℕ) (ds : List ℕ) (c : Cursor)
    → n ≤ turns
    → IsWithin b c
    → Drawn b n color ds c (draw_line b turns n color c)
unfolding Drawn covered draw_line
draw_line-Drawn b zero zero color ds c h w = (refl, w)
draw_line-Drawn b zero (suc n) color ds c h w = absurd (omega arith)
draw_line-Drawn b (suc turns) zero color ds c h w = rw draw_line-stop (refl, w)
draw_line-Drawn b (suc turns) (suc n) color ds c h w =
    let (k, e, le, fits) = get_rect_length-suc b n c w in
    let c' = advance b (suc k) c in
    let m = suc n - suc k in
    let ih =
      draw_line-Drawn b turns m color ds c' (omega arith) (advance-IsWithin b (suc k) c w fits) in
    rw (draw_line-step b turns (suc n) color k c e) (
      (
        rw
            (
              replicate-split (suc k) (suc n) color ds (omega arith),
              placed-row b k color (replicate m color ++ ds) c fits,
              shown-append (row (suc k) color c) (placed b (replicate m color ++ ds) c'),
              covered-push_rect (suc k) color c (draw_line b turns m color c').0,
            )
            (ap (λ ps. shown (row (suc k) color c) ++ ps) ih.0
              ∙ sym (
                  append_assoc (shown (row (suc k) color c))
                    (covered (draw_line b turns m color c').0)
                    (shown (placed b ds (draw_line b turns m color c').1)))),
        ih.1,
      ))

-- From a cursor within the bounds, the rectangles that are drawn for the runs cover the pixels that
-- are not transparent of the runs' expansion, each once, in order, with its color.
pub covered-draw_rects :
    (b : ImageBounds) (rs : List (ℕ × ℕ)) (c : Cursor)
    → IsWithin b c
    → covered (draw_rects b rs c) ≡ shown (placed b (expand rs) c)
unfolding draw_rects expand covered placed Drawn shown
covered-draw_rects b [] c w = refl
covered-draw_rects b ((n, color) ∷ rs) c w =
    let d = draw_line-Drawn b n n color (expand rs) c (omega arith) w in
    let drawn = draw_line b n n color c in
    covered-append drawn.0 (draw_rects b rs drawn.1)
    ∙ ap (λ ps. covered drawn.0 ++ ps) (covered-draw_rects b rs drawn.1 d.1)
    ∙ sym d.0
