-- ===== src/Trade/StockKey/Printing.antt =====
-- `itoa` against the decimal number that it prints.
use Prim.Native.Char.{code}
use native.Mathlib.Nat.{pow-suc}
use group_buy_market.Prelude.{
  ℕ, zero, suc, ◌==◌, ◌+◌, ◌*◌, ◌/◌, ◌%◌, ◌^◌, ◌<◌, ◌≤◌, ◌≡◌, ◌≢◌, refl, ℤ, pos, negsuc, pos_part,
  ◌-ℤ◌, ◌≤ℤ◌, String, codes, List, [], ◌∷◌, ◌-◌, arith, All, Bool-cases, inl, inr, if◌then◌else◌,
  ◌∙◌, ap,
}
use group_buy_market.Trade.StockKey.{digit, digits_loop, itoa, min_int64, negate_int64, buffer_size}

-- The number that a text of decimal digits stands for, read from the left with `acc` before it.
abbrev read_digits : ℕ → List ℕ → ℕ
read_digits acc [] = acc
read_digits acc (c ∷ cs) = read_digits (acc * 10 + (c - 48)) cs

-- The integer that a text stands for.
abbrev pub read_int : List ℕ → ℤ
read_int [] = pos 0
read_int (c ∷ cs) =
    if c == 45 then pos 0 -ℤ pos (read_digits 0 cs) else pos (read_digits 0 (c ∷ cs))

code-digit : (d : ℕ) → d < 10 → code (digit d) ≡ 48 + d
unfolding digit
code-digit zero h = refl
code-digit (suc zero) h = refl
code-digit (suc (suc zero)) h = refl
code-digit (suc (suc (suc zero))) h = refl
code-digit (suc (suc (suc (suc zero)))) h = refl
code-digit (suc (suc (suc (suc (suc zero))))) h = refl
code-digit (suc (suc (suc (suc (suc (suc zero)))))) h = refl
code-digit (suc (suc (suc (suc (suc (suc (suc zero))))))) h = refl
code-digit (suc (suc (suc (suc (suc (suc (suc (suc zero)))))))) h = refl
code-digit (suc (suc (suc (suc (suc (suc (suc (suc (suc zero))))))))) h = refl
code-digit (suc (suc (suc (suc (suc (suc (suc (suc (suc (suc n)))))))))) h = absurd (omega arith)

abbrev pub IsDigits : List ℕ → Type 0
IsDigits = All (λ c. (48 ≤ c) × (c ≤ 57))

div-lt-pow : (fuel v : ℕ) → v < 10 ^ suc fuel → v / 10 < 10 ^ fuel
div-lt-pow fuel v h = let e : 10 ^ suc fuel ≡ 10 ^ fuel * 10 = pow-suc 10 fuel in omega arith

digit_step : (v : ℕ) → v / 10 * 10 + (code (digit (v % 10)) - 48) ≡ v
digit_step v = omega (arith, code-digit (v % 10) (omega arith))

-- The loop writes the digits of `v` before what the buffer holds.
read_digits-digits_loop :
    (fuel v : ℕ) (buf : String)
    → v < 10 ^ fuel
    → read_digits 0 (codes (digits_loop fuel v buf)) ≡ read_digits v (codes buf)
unfolding digits_loop
read_digits-digits_loop zero v buf h = let e : v ≡ 0 = omega arith in rw e
read_digits-digits_loop (suc fuel) v buf h = elim (Bool-cases (v == 0)) [
  | inl e ↦ let e' : v ≡ 0 = ground arith in rw (e, e')
  | inr e ↦ rw e (
      read_digits-digits_loop fuel (v / 10) (String.◌∷◌ (digit (v % 10)) buf) (div-lt-pow fuel v h)
      ∙ ap (λ t. read_digits t (codes buf)) (digit_step v))
]

IsDigits-digits_loop :
    (fuel v : ℕ) (buf : String) → IsDigits (codes buf) → IsDigits (codes (digits_loop fuel v buf))
unfolding digits_loop
IsDigits-digits_loop zero v buf h = h
IsDigits-digits_loop (suc fuel) v buf h = elim (Bool-cases (v == 0)) [
  | inl e ↦ rw e h
  | inr e ↦ rw e (
      IsDigits-digits_loop fuel (v / 10) (String.◌∷◌ (digit (v % 10)) buf) (
        (
          omega (arith, code-digit (v % 10) (omega arith)),
          omega (arith, code-digit (v % 10) (omega arith)),
        ),
        h,
      ))
]

read_int_of_digits : (cs : List ℕ) → IsDigits cs → read_int cs ≡ pos (read_digits 0 cs)
read_int_of_digits [] h = refl
read_int_of_digits (c ∷ cs) h = ground (arith, h.0.0)

digits_below :
    (n : ℕ) → n ≤ 9223372036854775808 → read_digits 0 (codes (digits_loop buffer_size n "")) ≡ n
digits_below n h = read_digits-digits_loop 20 n "" (omega arith)

read_int-pos :
    (n : ℕ) → n ≤ 9223372036854775807 → read_int (codes (digits_loop buffer_size n "")) ≡ pos n
read_int-pos n h =
    read_int_of_digits _ (IsDigits-digits_loop 20 n "" tt) ∙ ap pos (digits_below n (omega arith))

negate-negsuc : (n : ℕ) → n ≢ 9223372036854775807 → negate_int64 (negsuc n) ≡ pos (suc n)
unfolding negate_int64 ◌-ℤ◌
negate-negsuc n h = ground arith

minus-pos : (n : ℕ) → pos 0 -ℤ pos (suc n) ≡ negsuc n
unfolding ◌-ℤ◌
minus-pos n = ground arith

itoa-pos : (n : ℕ) → itoa (pos (suc n)) ≡ digits_loop buffer_size (suc n) ""
unfolding itoa
itoa-pos n = ground arith

itoa-negsuc :
    (n : ℕ)
    → itoa (negsuc n)
      ≡ String.◌∷◌ "-" (digits_loop buffer_size (pos_part (negate_int64 (negsuc n))) "")
unfolding itoa
itoa-negsuc n = ground arith

read_int-negsuc :
    (n : ℕ)
    → n ≢ 9223372036854775807
    → n ≤ 9223372036854775807
    → read_int (codes (itoa (negsuc n))) ≡ negsuc n
read_int-negsuc n ne h =
    rw (itoa-negsuc n, negate-negsuc n ne)
      (ap (λ t. pos 0 -ℤ pos t) (digits_below (suc n) (omega arith)) ∙ minus-pos n)

read_int-int64 :
    (v : ℤ)
    → min_int64 ≤ℤ v
    → v ≤ℤ pos 9223372036854775807
    → v ≢ min_int64
    → read_int (codes (itoa v)) ≡ v
unfolding itoa
read_int-int64 (pos zero) lo hi ne = refl
read_int-int64 (pos (suc n)) lo hi ne = rw (itoa-pos n) (read_int-pos (suc n) (omega arith))
read_int-int64 (negsuc n) lo hi ne = read_int-negsuc n (λ e. ne (ap negsuc e)) (omega arith)

-- The least int64 is printed as a lone minus sign.
pub itoa_least : itoa min_int64 ≡ "-"
unfolding itoa negate_int64 digits_loop
itoa_least = refl

-- Every int64 but the least is printed as the decimal numeral that reads back as it.
pub itoa-roundtrip :
    (v : ℤ)
    → min_int64 ≤ℤ v
    → v ≤ℤ pos 9223372036854775807
    → v ≢ min_int64
    → read_int (codes (itoa v)) ≡ v
itoa-roundtrip v lo hi ne = read_int-int64 v lo hi ne

-- A positive number prints a digit first.
pub itoa-first_digit : (n : ℕ) → IsDigits (codes (itoa (pos (suc n))))
itoa-first_digit n = rw (itoa-pos n) (IsDigits-digits_loop 20 (suc n) "" tt)
