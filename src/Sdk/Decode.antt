-- ===== src/Sdk/Decode.antt =====
-- image/svg-builder.ts: `decodeImage`.
pub mod RoundTrip
use lilnouns_monorepo.Base.{
  ℕ, suc, ◌-◌, Option, some, none, List, [], ◌∷◌, if◌then◌else◌, take, drop,
}
use lilnouns_monorepo.Base.Chars.{Chars, codes, is_prefix}
use lilnouns_monorepo.Sdk.Hex.{parse_hex}
use lilnouns_monorepo.Sdk.Image.{ImageBounds}

pub record DecodedImage : Type 0 where
  pub palette_index : ℕ
  pub bounds : ImageBounds
  pub rects : List (ℕ × ℕ)

infixl 5 ◌>>=◌
abbrev ◌>>=◌ {ℓ κ} : {A : Type ℓ} {B : Type κ} → Option A → (A → Option B) → Option B
none >>= f = none
some a >>= f = f a

-- `s.substring(start, end)` for start ≤ end
unfoldable pub substring : Chars → ℕ → ℕ → Chars
substring s start end = take (end - start) (drop start s)

-- `image.replace(/^0x/, '')`
unfoldable pub strip_prefix : Chars → Chars
unfolding is_prefix
strip_prefix image = if is_prefix (codes "0x") image then drop 2 image else image

-- `rects.match(/.{1,4}/g) ?? []`, for a text without line ends
unfoldable pub fours : Chars → List Chars
fours [] = []
fours (a ∷ []) = (a ∷ []) ∷ []
fours (a ∷ b ∷ []) = (a ∷ b ∷ []) ∷ []
fours (a ∷ b ∷ c ∷ []) = (a ∷ b ∷ c ∷ []) ∷ []
fours (a ∷ b ∷ c ∷ d ∷ s) = (a ∷ b ∷ c ∷ d ∷ []) ∷ fours s

unfoldable pub parse_rect : Chars → Option (ℕ × ℕ)
unfolding substring
parse_rect rect = do
  length ← parse_hex (substring rect 0 2)
  color ← parse_hex (substring rect 2 4)
  some (length, color)

unfoldable pub parse_rects : List Chars → Option (List (ℕ × ℕ))
unfolding parse_rect
parse_rects [] = some []
parse_rects (r ∷ rs) = do rect ← parse_rect r; rects ← parse_rects rs; some (rect ∷ rects)

-- `none` where a number is NaN: the source goes on with NaN there.
unfoldable pub decode_image : Chars → Option DecodedImage
unfolding strip_prefix substring fours parse_rects
decode_image image = do
  let ds = strip_prefix image
  palette_index ← parse_hex (substring ds 0 2)
  top ← parse_hex (substring ds 2 4)
  right ← parse_hex (substring ds 4 6)
  bottom ← parse_hex (substring ds 6 8)
  left ← parse_hex (substring ds 8 10)
  rects ← parse_rects (fours (drop 10 ds))
  some (record {
    palette_index = palette_index;
    bounds = record { top = top; right = right; bottom = bottom; left = left };
    rects = rects;
  })
