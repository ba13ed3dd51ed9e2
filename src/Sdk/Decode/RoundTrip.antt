-- ===== src/Sdk/Decode/RoundTrip.antt =====
-- What `decodeImage` makes of an encoded image.
use lilnouns_monorepo.Base.{
  ℕ, zero, suc, ◌+◌, ◌-◌, ◌<◌, ◌≤◌, ◌≡◌, refl, Bool, some, List, [], ◌∷◌, ◌++◌, All, arith,
}
use lilnouns_monorepo.Base.Chars.{codes, is_prefix}
use lilnouns_monorepo.Sdk.Hex.{to_padded_hex-byte, parse_hex-digits}
use lilnouns_monorepo.Sdk.Image.{
  Image, ImageBounds, Colors, lower, shrink, is_transparent_row, is_transparent_column, raise,
  calc_bounds, pixels, index_pixels, runs, encode_runs, encode, metadata, to_rle,
}
use lilnouns_monorepo.Sdk.Image.Runs.{IsRun, expand, expand-runs, runs-IsRun}
use lilnouns_monorepo.Sdk.Decode.{
  decode_image, substring, strip_prefix, fours, parse_rect, parse_rects, ◌>>=◌,
}

-- Bounds that fit in one byte each.
abbrev pub AreBytes : ImageBounds → Type 0
AreBytes b = (b.top < 256) × (b.right < 256) × (b.bottom < 256) × (b.left < 256)

rects_lem : (rs : List (ℕ × ℕ)) → All IsRun rs → parse_rects (fours (encode_runs rs)) ≡ some rs
unfolding parse_rects fours encode_runs parse_rect substring
rects_lem [] h = refl
rects_lem ((count, color) ∷ rs) (r, h) =
    rw (to_padded_hex-byte count r.1, to_padded_hex-byte color r.2)
      (rw (parse_hex-digits count r.1, parse_hex-digits color r.2, ◌>>=◌)
        (rw (rects_lem rs h, ◌>>=◌)))

decode_image-parts :
    (b : ImageBounds) (rs : List (ℕ × ℕ))
    → AreBytes b
    → All IsRun rs
    → decode_image (codes "0x" ++ (metadata b ++ encode_runs rs))
      ≡ some (record { palette_index = 0; bounds = b; rects = rs })
unfolding decode_image metadata strip_prefix is_prefix substring
decode_image-parts b rs (t, r, bo, l) h =
    rw
      (
        to_padded_hex-byte 0 (omega arith),
        to_padded_hex-byte b.top t,
        to_padded_hex-byte b.right r,
        to_padded_hex-byte b.bottom bo,
        to_padded_hex-byte b.left l,
      )
      (rw (parse_hex-digits 0 (omega arith), ◌>>=◌)
        (rw
          (
            parse_hex-digits b.top t,
            parse_hex-digits b.right r,
            parse_hex-digits b.bottom bo,
            parse_hex-digits b.left l,
            ◌>>=◌,
          )
          (rw (rects_lem rs h, ◌>>=◌))))

lower_le : (p : ℕ → Bool) (b : ℕ) → lower p b ≤ b
unfolding lower
lower_le p zero = omega arith
lower_le p (suc b) = ground (arith, lower_le p b)

shrink_le : (p : ℕ → Bool) (b : ℕ) → shrink p b ≤ b
unfolding shrink
shrink_le p zero = omega arith
shrink_le p (suc b) = ground (arith, shrink_le p b)

raise_le : (p : ℕ → Bool) (n t : ℕ) → raise p n t ≤ n + t
unfolding raise
raise_le p zero t = omega arith
raise_le p (suc n) t = ground (arith, raise_le p n (suc t))

calc_bounds-AreBytes : (im : Image) → im.width < 256 → im.last_row < 256 → AreBytes (calc_bounds im)
unfolding calc_bounds
calc_bounds-AreBytes im w h =
    let bottom = lower_le (is_transparent_row im) im.last_row in
    let right = shrink_le (is_transparent_column im) im.width in
    (
      omega (
        arith,
        bottom,
        raise_le (is_transparent_row im) (lower (is_transparent_row im) im.last_row) 0,
      ),
      omega (arith, right),
      omega (arith, bottom),
      omega (
        arith,
        right,
        raise_le (is_transparent_column im) (shrink (is_transparent_column im) im.width - 1) 0,
      ),
    )

-- An image of at most 255 columns and 256 rows whose pixels have color indexes below 256 is
-- decoded, from its encoding, to the palette 0, its bounds, and runs that expand to the color
-- indexes of the pixels within the bounds, row by row.
pub decode_image-to_rle :
    (im : Image) (colors : Colors)
    → im.width < 256
    → im.last_row < 256
    → All (λ i. i < 256) (index_pixels (pixels im (calc_bounds im)) colors).0
    → (rects : List (ℕ × ℕ)) × (decode_image (to_rle im colors).0
        ≡ some (record { palette_index = 0; bounds = calc_bounds im; rects = rects }))
      × (expand rects ≡ (index_pixels (pixels im (calc_bounds im)) colors).0)
unfolding to_rle encode
decode_image-to_rle im colors w h bytes =
    let indexes = (index_pixels (pixels im (calc_bounds im)) colors).0 in
    (
      runs indexes,
      decode_image-parts (calc_bounds im) (runs indexes) (calc_bounds-AreBytes im w h)
          (runs-IsRun indexes bytes),
      expand-runs indexes,
    )
