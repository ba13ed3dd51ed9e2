-- ===== src/Assets/Seeder.antt =====
-- The part that is chosen is that of the contract's formula, where the number is long enough.
use lilnouns_monorepo.Base.{
  ℕ, zero, suc, ◌+◌, ◌-◌, ◌*◌, ◌/◌, ◌%◌, ◌^◌, ◌≤◌, ◌<◌, ◌≡◌, refl, ◌≢◌, true, ap, ◌∙◌, ltb, none,
  some, List, [], ◌∷◌, map, length, drop, All, if◌then◌else◌, arith, Bool-cases, inl, inr,
}
use lilnouns_monorepo.Base.Chars.{Chars}
use lilnouns_monorepo.Sdk.Hex.{digit}
use lilnouns_monorepo.Assets.{Ethers, shift_right_and_cast, modulo, get_pseudorandom_part, ◌>>=◌}

abbrev pub AreDigits : List ℕ → Type 0
AreDigits = All (λ d. d < 16)

-- The value of digits after those of a number.
abbrev pub value : ℕ → List ℕ → ℕ
value n [] = n
value n (d ∷ ds) = value (n * 16 + d) ds

abbrev pub hex : List ℕ → Chars
hex ds = b'0' ∷ b'x' ∷ map digit ds

-- The text of a number has its digits, and not eleven of them, since two stand for each byte.
abbrev pub IsHexText : Ethers → ℕ → List ℕ → Type 0
IsHexText e n ds = (e.to_hex_string n ≡ hex ds) × AreDigits ds × (value 0 ds ≡ n) × (length ds ≢ 11)

-- Texts of digits are read as their value, and a text with two prefixes is refused.
pub record IsReader (e : Ethers) : Type 0 where
  pub reads :
      (d : ℕ) (ds : List ℕ) → AreDigits (d ∷ ds) → e.from (hex (d ∷ ds)) ≡ some (value 0 (d ∷ ds))
  pub refuses : (t : Chars) → e.from (b'0' ∷ b'x' ∷ b'0' ∷ b'x' ∷ t) ≡ none

power : ℕ → ℕ
power zero = 1
power (suc k) = 16 * power k

value_lem : (ds : List ℕ) (n : ℕ) → value n ds ≡ n * power (length ds) + value 0 ds
unfolding power
value_lem [] n = omega arith
value_lem (d ∷ ds) n = grind (arith, value_lem ds (n * 16 + d), value_lem ds d)

value-lt : (ds : List ℕ) → AreDigits ds → value 0 ds < power (length ds)
unfolding power
value-lt [] h = omega arith
value-lt (d ∷ ds) h = grind (arith, value_lem ds d, value-lt ds h.1)

power_twelve : (n : ℕ) → n ≡ 12 → power n ≡ 2 ^ 48
unfolding power
power_twelve n h = rw h

-- The last twelve digits are the number modulo 2 ^ 48.
value-drop :
    (j : ℕ) (ds : List ℕ) (n : ℕ)
    → AreDigits ds
    → length ds ≡ 12 + j
    → value 0 (drop j ds) ≡ value n ds % 2 ^ 48
value-drop zero ds n h len =
    let p = power_twelve (length ds) (omega arith) in
    let e : value n ds ≡ n * 2 ^ 48 + value 0 ds =
      value_lem ds n ∙ ap (λ (k : ℕ). n * k + value 0 ds) p in
    let below = value-lt ds h in omega (arith, e, p, below)
value-drop (suc j) [] n h len = absurd (omega arith)
value-drop (suc j) (d ∷ ds) n h len = value-drop j ds (n * 16 + d) h.1 (omega arith)

lt_of-ltb : (a b : ℕ) → ltb a b ≡ true → a < b
lt_of-ltb a b h = ground arith

modulo_pos : (m count : ℕ) → 0 < count → modulo m count ≡ some (m % count)
unfolding modulo
modulo_pos m count h = ground arith

drop-map : (j : ℕ) (ds : List ℕ) → drop j (map digit ds) ≡ map digit (drop j ds)
drop-map zero ds = refl
drop-map (suc j) [] = refl
drop-map (suc j) (d ∷ ds) = drop-map j ds

length-map : (ds : List ℕ) → length (map digit ds) ≡ length ds
length-map [] = refl
length-map (d ∷ ds) = ap suc (length-map ds)

drop-AreDigits : (j : ℕ) (ds : List ℕ) → AreDigits ds → AreDigits (drop j ds)
drop-AreDigits zero ds h = h
drop-AreDigits (suc j) [] h = tt
drop-AreDigits (suc j) (d ∷ ds) h = drop-AreDigits j ds h.1

length-drop : (j : ℕ) (ds : List ℕ) → length ds ≡ 12 + j → length (drop j ds) ≡ 12
length-drop zero ds h = omega (arith, h)
length-drop (suc j) [] h = absurd (omega arith)
length-drop (suc j) (d ∷ ds) h = length-drop j ds (omega arith)

module _ (e : Ethers) (reader : IsReader e) where
  reads_list : (ds : List ℕ) → AreDigits ds → length ds ≡ 12 → e.from (hex ds) ≡ some (value 0 ds)
  reads_list [] h len = absurd (omega arith)
  reads_list (d ∷ ds) h len = reader.reads d ds h

  -- Twelve digits or more: the cast is the number modulo 2 ^ 48.
  cast_long :
      (n shift j : ℕ) (ds : List ℕ)
      → IsHexText e (n / 2 ^ shift) ds
      → length ds ≡ 12 + j
      → e.from (shift_right_and_cast e n shift 48) ≡ some (n / 2 ^ shift % 2 ^ 48)
  unfolding shift_right_and_cast
  cast_long n shift j ds h len =
      let at : suc (suc (length (map digit ds))) - 12 ≡ suc (suc j) =
        omega (arith, length-map ds, len) in
      rw (h.0, at, drop-map j ds)
        (reads_list (drop j ds) (drop-AreDigits j ds h.1) (length-drop j ds len)
          ∙ ap some (value-drop j ds 0 h.1 len ∙ ap (λ (k : ℕ). k % 2 ^ 48) h.2))

  -- Ten digits or less: the text keeps its prefix.
  cast_short :
      (n shift : ℕ) (ds : List ℕ)
      → IsHexText e (n / 2 ^ shift) ds
      → length ds ≤ 10
      → e.from (shift_right_and_cast e n shift 48) ≡ none
  unfolding shift_right_and_cast
  cast_short n shift ds h len =
      let at : suc (suc (length (map digit ds))) - 12 ≡ 0 = omega (arith, length-map ds, len) in
      rw (h.0, at) (reader.refuses (map digit ds))

  -- The part that is chosen by a number whose shift has more than ten hexadecimal digits is the shift
  -- modulo 2 ^ 48 modulo the count of the parts, as the contract has it. With ten digits or less there
  -- is no part: the text of the shift is read with two prefixes, which throws.
  pub get_pseudorandom_part-seeder :
      (pseudorandomness : Chars) (n count shift : ℕ) (ds : List ℕ)
      → e.from pseudorandomness ≡ some n
      → IsHexText e (n / 2 ^ shift) ds
      → 0 < count
      → get_pseudorandom_part e pseudorandomness count shift 48
        ≡ (if ltb 10 (length ds) then some (n / 2 ^ shift % 2 ^ 48 % count) else none)
  unfolding get_pseudorandom_part modulo
  get_pseudorandom_part-seeder pseudorandomness n count shift ds read h pos =
      rw (read, ◌>>=◌)
        (elim (Bool-cases (ltb 10 (length ds))) [
          | inl long ↦
              let len : length ds ≡ 12 + (length ds - 12) =
                omega (arith, lt_of-ltb 10 (length ds) long, h.3) in
              rw (long, cast_long n shift (length ds - 12) ds h len, ◌>>=◌)
                (modulo_pos (n / 2 ^ shift % 2 ^ 48) count pos)
          | inr short ↦ rw (short, cast_short n shift ds h (ground arith), ◌>>=◌)
        ])
