-- ===== src/Assets/Tests.antt =====
-- A witness at a reader of hexadecimal texts and one number.
use lilnouns_monorepo.Base.{
  ℕ, ◌*◌, ◌+◌, ◌/◌, ◌%◌, ◌^◌, ◌≡◌, refl, ltb, Option, none, some, List, [], ◌∷◌, map, length,
  if◌then◌else◌, arith,
}
use lilnouns_monorepo.Base.Chars.{Chars, codes}
use lilnouns_monorepo.Sdk.Hex.{digits, digit, digit_value, digit_value-digit}
use lilnouns_monorepo.Assets.{Ethers, get_pseudorandom_part}
use lilnouns_monorepo.Assets.Seeder.{AreDigits, value, IsReader, get_pseudorandom_part-seeder}

abbrev read_digits : ℕ → Chars → Option ℕ
read_digits n [] = some n
read_digits n (c ∷ t) = elim (digit_value c) [ none ↦ none | some d ↦ read_digits (n * 16 + d) t ]

-- A text of a prefix of two characters and digits.
abbrev read : Chars → Option ℕ
read [] = none
read (c ∷ []) = none
read (c ∷ x ∷ t) = read_digits 0 t

-- Sixteen digits at most, which is enough here.
abbrev ethers : Ethers
ethers = record { to_hex_string = λ n. b'0' ∷ b'x' ∷ digits 16 15 n; from = read }

read_digits-digits :
    (ds : List ℕ) (n : ℕ) → AreDigits ds → read_digits n (map digit ds) ≡ some (value n ds)
read_digits-digits [] n h = refl
read_digits-digits (d ∷ ds) n h =
    rw (digit_value-digit d h.0, read_digits) (read_digits-digits ds (n * 16 + d) h.1)

refuses_prefix : (t : Chars) → read (b'0' ∷ b'x' ∷ b'0' ∷ b'x' ∷ t) ≡ none
unfolding digit_value
refuses_prefix t = refl

ethers-IsReader : IsReader ethers
ethers-IsReader = record {
  reads = λ d ds h. read_digits-digits (d ∷ ds) 0 h;
  refuses = refuses_prefix;
}

abbrev twelve : List ℕ
twelve = 1 ∷ 2 ∷ 3 ∷ 4 ∷ 5 ∷ 6 ∷ 7 ∷ 8 ∷ 9 ∷ 10 ∷ 11 ∷ 12 ∷ []

get_pseudorandom_part-seeder_example :
    get_pseudorandom_part ethers (codes "0x123456789abcdef0") 30 16 48
    ≡ (if ltb 10 (length twelve) then some (0x123456789abcdef0 / 2 ^ 16 % 2 ^ 48 % 30) else none)
unfolding digits digit_value
get_pseudorandom_part-seeder_example =
    get_pseudorandom_part-seeder ethers ethers-IsReader (codes "0x123456789abcdef0")
      0x123456789abcdef0 30 16 twelve refl (refl, omega arith, refl, λ p. omega (arith, p))
      (omega arith)
