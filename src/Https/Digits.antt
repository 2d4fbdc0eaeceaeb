-- ===== src/Https/Digits.antt =====
-- The sizes of chunks: `sscanf` reads back what is printed in hexadecimal digits.
use abrt.Base.{
  ℕ, ◌≡◌, ◌≢◌, refl, ap, ◌∙◌, subst, List, [], ◌∷◌, ◌++◌, none, some, if◌then◌else◌, Str, ltb, ◌+◌,
  ◌*◌, ◌%◌, ◌<◌, arith, All, map,
}
use abrt.Https.{line_end, hex_digit, hex_value, skip_white, scan_hex}

-- A digit below sixteen as it is printed
unfoldable pub hex_char : ℕ → ℕ
hex_char digit = if ltb digit 10 then digit + 48 else digit + 87

-- The number that these digits are, behind `n`
abbrev pub number : ℕ → List ℕ → ℕ
number n [] = n
number n (digit ∷ digits) = number (n * 16 + digit) digits

hex_digit-hex_char : (d : ℕ) → d < 16 → hex_digit (hex_char d) ≡ some d
unfolding hex_digit hex_char
hex_digit-hex_char d h = ground (arith, h)

hex_value-digits :
    (n : ℕ) (digits : List ℕ) (rest : Str)
    → All (λ d. d < 16) digits
    → hex_value (some n) (map hex_char digits ++ (line_end ++ rest)) ≡ some (number n digits)
unfolding hex_value
hex_value-digits n [] rest a = unfold hex_digit in refl
hex_value-digits n (d ∷ digits) rest a =
    rw (hex_value, hex_digit-hex_char d a.0) (hex_value-digits (n * 16 + d) digits rest a.1)

hex_value_first :
    (d : ℕ) (s : Str) → d < 16 → hex_value none (hex_char d ∷ s) ≡ hex_value (some d) s
unfolding hex_value
hex_value_first d s h =
    rw (hex_value, hex_digit-hex_char d h)
      (unfold hex_value in ap (λ n. hex_value (some n) s) (omega arith))

skip_white-hex_char :
    (d : ℕ) (rest : Str) → d < 16 → skip_white (hex_char d ∷ rest) ≡ hex_char d ∷ rest
unfolding skip_white hex_char
skip_white-hex_char d rest h = ground (arith, h)

scan_hex-value :
    (s : Str) (n : ℕ) → hex_value none (skip_white s) ≡ some n → scan_hex s ≡ some (n % 4294967296)
unfolding scan_hex
scan_hex-value s n e = rw (scan_hex, e) refl

pub scan_hex-digits :
    (digits : List ℕ) (rest : Str)
    → digits ≢ []
    → All (λ d. d < 16) digits
    → number 0 digits < 4294967296
    → scan_hex (map hex_char digits ++ (line_end ++ rest)) ≡ some (number 0 digits)
scan_hex-digits [] rest e a h = absurd (e refl)
scan_hex-digits (d ∷ digits) rest e a h =
    let more = map hex_char digits ++ (line_end ++ rest) in
    scan_hex-value (hex_char d ∷ more) (number d digits) (
      ap (hex_value none) (skip_white-hex_char d more a.0)
      ∙ hex_value_first d more a.0
      ∙ hex_value-digits d digits rest a.1)
    ∙ ap some (small (number d digits) (subst (λ n. number n digits < 4294967296) leading h))
    ∙ ap (λ n. some (number n digits)) (omega arith)
  where
    leading : 0 * 16 + d ≡ d
    leading = omega arith

    small : (n : ℕ) → n < 4294967296 → n % 4294967296 ≡ n
    small n p = omega (arith, p)

pub size_line-one_line :
    (digits : List ℕ) → All (λ d. d < 16) digits → All (λ c. c ≢ b'\n') (map hex_char digits)
unfolding hex_char
size_line-one_line [] a = tt
size_line-one_line (d ∷ digits) a = (ground (arith, a.0), size_line-one_line digits a.1)
