-- ===== src/Sdk/Encoder/Stable.antt =====
-- What an encoder keeps while images are added.
use lilnouns_monorepo.Base.{ℕ, ◌≡◌, ◌≢◌, String, Option, some}
use lilnouns_monorepo.Base.Chars.{Chars}
use lilnouns_monorepo.Base.Table.{load, load-save_self, load-save_ne}
use lilnouns_monorepo.Sdk.Image.{Image, get, to_rle, pixels, calc_bounds}
use lilnouns_monorepo.Sdk.Image.Palette.{index_pixels-get}
use lilnouns_monorepo.Sdk.Encoder.{Encoder, encode_image}

-- An image that is encoded is stored under its name; an image of another name stays, and a color of
-- the palette keeps its index.
pub encode_image-kept :
    (e : Encoder) (name : String) (png : Image) (folder : Option String) (other : String)
    (color : Chars) (i : ℕ)
    → name ≢ other
    → get e.colors color ≡ some i
    → let (rle, after) = encode_image e name png folder in
      (load name after.images ≡ some rle)
      × (load other after.images ≡ load other e.images)
      × (get after.colors color ≡ some i)
unfolding encode_image to_rle
encode_image-kept e name png folder other color i ne known = (
  load-save_self name _ e.images,
  load-save_ne other name _ e.images ne,
  index_pixels-get (pixels png (calc_bounds png)) e.colors color i known,
)
