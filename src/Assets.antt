-- ===== src/Assets.antt =====
-- nouns-assets/src/utils.ts: the seed of a noun, and its parts. `none` is an exception.
pub mod Seeder
mod Tests
use lilnouns_monorepo.Base.{
  ℕ, ◌-◌, ◌*◌, ◌/◌, ◌%◌, ◌^◌, ◌+◌, ◌==◌, ◌<◌, ◌≡◌, Option, none, some, String, List, [], ◌∷◌, map,
  length, drop, get_elem?, All, if◌then◌else◌,
}
use lilnouns_monorepo.Base.Chars.{Chars}
use lilnouns_monorepo.Sdk.Hex.{digit}

pub record NounSeed : Type 0 where
  pub background : ℕ
  pub body : ℕ
  pub accessory : ℕ
  pub head : ℕ
  pub glasses : ℕ

-- How many there are of each part.
pub record PartCounts : Type 0 where
  pub backgrounds : ℕ
  pub bodies : ℕ
  pub accessories : ℕ
  pub heads : ℕ
  pub glasses : ℕ

pub record Images (Part : Type 0) : Type 0 where
  pub bodies : List Part
  pub accessories : List Part
  pub heads : List Part
  pub glasses : List Part
  pub bgcolors : List String

-- A part that is out of range is undefined.
pub record NounData (Part : Type 0) : Type 0 where
  pub parts : List (Option Part)
  pub background : Option String

unfoldable pub get_noun_data : {Part : Type 0} → Images Part → NounSeed → NounData Part
get_noun_data images seed = record {
  parts =
      get_elem? images.bodies seed.body
      ∷ get_elem? images.accessories seed.accessory
      ∷ get_elem? images.heads seed.head
      ∷ get_elem? images.glasses seed.glasses
      ∷ [];
  background = get_elem? images.bgcolors seed.background;
}

-- Of the library of big numbers: a number's hexadecimal text, and the reading of a text.
pub record Ethers : Type 0 where
  pub to_hex_string : ℕ → Chars
  pub from : Chars → Option ℕ

unfoldable pub shift_right_and_cast : Ethers → ℕ → ℕ → ℕ → Chars
shift_right_and_cast e value shift_amount uint_size =
    let shifted = e.to_hex_string (value / 2 ^ shift_amount) in
    b'0' ∷ b'x' ∷ drop (length shifted - uint_size / 4) shifted

modulo : ℕ → ℕ → Option ℕ
modulo n count = if count == 0 then none else some (n % count)

infixl 5 ◌>>=◌
abbrev ◌>>=◌ : {A B : Type 0} → Option A → (A → Option B) → Option B
none >>= f = none
some a >>= f = f a

unfoldable pub get_pseudorandom_part : Ethers → Chars → ℕ → ℕ → ℕ → Option ℕ
unfolding modulo
get_pseudorandom_part e pseudorandomness part_count shift_amount uint_size = do
  value ← e.from pseudorandomness
  cast ← e.from (shift_right_and_cast e value shift_amount uint_size)
  modulo cast part_count

-- `keccak` is the hash of a block's hash and a number.
unfoldable pub get_noun_seed_from_block_hash :
    Ethers → (Chars → ℕ → Chars) → PartCounts → ℕ → Chars → Option NounSeed
get_noun_seed_from_block_hash e keccak counts noun_id block_hash = do
  let pseudorandomness = keccak block_hash noun_id
  background ← get_pseudorandom_part e pseudorandomness counts.backgrounds 0 48
  body ← get_pseudorandom_part e pseudorandomness counts.bodies 48 48
  accessory ← get_pseudorandom_part e pseudorandomness counts.accessories 96 48
  head ← get_pseudorandom_part e pseudorandomness counts.heads 144 48
  glasses ← get_pseudorandom_part e pseudorandomness counts.glasses 192 48
  some (record {
    background = background;
    body = body;
    accessory = accessory;
    head = head;
    glasses = glasses;
  })
