-- ===== src/Sdk/Hex.antt =====
-- image/utils.ts: numbers as padded hexadecimal texts, and their reading by `parseInt`.
use Prim.Native.Nat.{ℕ, zero, suc, ◌+◌, ◌-◌, ◌*◌, ◌/◌, ◌%◌, ◌<◌, ◌≤◌}
use lilnouns_monorepo.Base.{
  ◌≡◌, refl, ap, ◌∙◌, true, false, Bool-cases, inl, inr, ltb, leb, ◌&&◌, Option, some, none, [],
  ◌∷◌, ◌++◌, if◌then◌else◌, length, replicate, arith,
}
use lilnouns_monorepo.Base.Chars.{Chars}

-- The digit's character: 0 to 9, then a to z.
unfoldable pub digit : ℕ → ℕ
digit d = if ltb d 10 then d + b'0' else d - 10 + b'a'

-- The digits in a base, the last one first to be found; as many steps as the number are enough.
unfoldable pub digits : ℕ → ℕ → ℕ → Chars
unfolding digit
digits base zero n = digit n ∷ []
digits base (suc fuel) n =
    let rest = digits base fuel (n / base) in
    if ltb n base then digit n ∷ [] else rest ++ digit (n % base) ∷ []

-- `c.toString(base)`
unfoldable pub number_text : ℕ → ℕ → Chars
unfolding digits
number_text base c = digits base c c

-- `s.padStart(pad, '0')`
unfoldable pub pad_start : Chars → ℕ → Chars
pad_start s pad = replicate (pad - length s) b'0' ++ s

unfoldable pub to_padded_hex : ℕ → ℕ → Chars
unfolding number_text pad_start
to_padded_hex c pad = pad_start (number_text 16 c) pad

unfoldable pub rgb_to_hex : ℕ → ℕ → ℕ → Chars
unfolding to_padded_hex
rgb_to_hex r g b = to_padded_hex r 2 ++ (to_padded_hex g 2 ++ to_padded_hex b 2)

-- The value of a hexadecimal digit, in lower or upper case.
unfoldable pub digit_value : ℕ → Option ℕ
digit_value c =
    if leb b'0' c && leb c b'9'
    then some (c - b'0')
    else if leb b'a' c && leb c b'f'
    then some (c - b'a' + 10)
    else if leb b'A' c && leb c b'F'
    then some (c - b'A' + 10)
    else none

-- The number read so far, continued as long as there are digits.
unfoldable pub parse_more : ℕ → Chars → ℕ
unfolding digit_value
parse_more n [] = n
parse_more n (c ∷ s) = elim (digit_value c) [ none ↦ n | some d ↦ parse_more (n * 16 + d) s ]

-- `parseInt(s, 16)` of a text without sign, space or prefix; `none` is NaN
unfoldable pub parse_hex : Chars → Option ℕ
unfolding parse_more digit_value
parse_hex [] = none
parse_hex (c ∷ s) = elim (digit_value c) [ none ↦ none | some d ↦ some (parse_more d s) ]

pub digit_value-digit : (d : ℕ) → d < 16 → digit_value (digit d) ≡ some d
unfolding digit_value digit
digit_value-digit d h = elim (Bool-cases (ltb d 10)) [
  | inl small ↦ ground arith
  | inr large ↦ ground arith
]

ltb_lem : (a b : ℕ) → a < b → ltb a b ≡ true
ltb_lem a b h = ground arith

ltb-not_lt : (a b : ℕ) → b ≤ a → ltb a b ≡ false
ltb-not_lt a b h = ground arith

digits-one : (fuel n : ℕ) → n < 16 → digits 16 fuel n ≡ digit n ∷ []
unfolding digits
digits-one zero n h = refl
digits-one (suc fuel) n h = rw (ltb_lem n 16 h)

digits-two :
    (fuel n : ℕ) → 16 ≤ n → n < 256 → digits 16 (suc fuel) n ≡ digit (n / 16) ∷ digit (n % 16) ∷ []
unfolding digits
digits-two fuel n low high = rw (ltb-not_lt n 16 low) (rw (digits-one fuel (n / 16) (omega arith)))

-- A byte has two digits.
pub to_padded_hex-byte :
    (c : ℕ) → c < 256 → to_padded_hex c 2 ≡ digit (c / 16) ∷ digit (c % 16) ∷ []
unfolding to_padded_hex number_text pad_start digit
to_padded_hex-byte zero h = refl
to_padded_hex-byte (suc c) h = elim (Bool-cases (ltb (suc c) 16)) [
  | inl small ↦ rw (digits-one (suc c) (suc c) (ground arith)) (
      let q : suc c / 16 ≡ 0 = ground arith in
      let r : suc c % 16 ≡ suc c = ground arith in rw (q, r))
  | inr large ↦ rw (digits-two c (suc c) (ground arith) h)
]

parse_hex-two :
    (a b x y : ℕ)
    → digit_value a ≡ some x
    → digit_value b ≡ some y
    → parse_hex (a ∷ b ∷ []) ≡ some (x * 16 + y)
unfolding parse_hex parse_more
parse_hex-two a b x y h i = ground (arith, h, i)

pub parse_hex-digits : (c : ℕ) → c < 256 → parse_hex (digit (c / 16) ∷ digit (c % 16) ∷ []) ≡ some c
parse_hex-digits c h =
    let value : c / 16 * 16 + c % 16 ≡ c = omega arith in
    parse_hex-two _ _ _ _ (digit_value-digit (c / 16) (omega arith))
      (digit_value-digit (c % 16) (omega arith))
    ∙ ap some value
