-- ===== src/Auth/Decimal.antt =====
-- How a token holds its expiry: `%d` in `fmt.Sprintf` and in `fmt.Sscanf`.
use wealth.Prelude.{
  Bool, Option, Text, [], arith, contains, false, if◌then◌else◌, is_space, leb, ltb, none, refl,
  some, suc, true, zero, ℕ, ◌%◌, ◌&&◌, ◌*◌, ◌+◌, ◌-◌, ◌/◌, ◌<◌, ◌==◌, ◌^◌, ◌∷◌, ◌≡◌, ◌≢◌, ◌⊎◌,
  nat_eq,
}

-- The value of an `int64`; `negative n` is -n - 1.
pub data Int64 : Type 0 where
  natural : ℕ → Int64
  negative : ℕ → Int64

-- The digits of a positive number in front of `out`; `fuel` bounds the number of digits.
unfoldable pub digits : ℕ → ℕ → Text → Text
digits zero n out = out
digits (suc fuel) n out =
    let rest = digits fuel (n / 10) ((b'0' + n % 10) ∷ out) in if n == 0 then out else rest

-- `%d` of a number that is not negative. A number has fewer digits than its value and one more.
unfoldable pub print_decimal : ℕ → Text
unfolding digits
print_decimal n = if n == 0 then b'0' ∷ [] else digits (suc n) n []

abbrev pub is_digit : ℕ → Bool
is_digit c = leb b'0' c && leb c b'9'

-- The run of digits at the front, behind the number `n` that stands before them.
unfoldable pub scan_digits : Text → ℕ → ℕ
scan_digits [] n = n
scan_digits (c ∷ s) n = if is_digit c then scan_digits s (n * 10 + (c - b'0')) else n

-- `strconv.ParseInt(tok, 10, 64)` behind the sign: `none` is a range error.
abbrev pub to_int64 : Bool → ℕ → Option Int64
to_int64 false n = if ltb n (2 ^ 63) then some (natural n) else none
to_int64 true zero = some (natural 0)
to_int64 true (suc n) = if ltb n (2 ^ 63) then some (negative n) else none

-- At least one digit has to follow the sign; what stands behind the digits is not read.
unfoldable pub scan_unsigned : Bool → Text → Option Int64
unfolding scan_digits
scan_unsigned minus [] = none
scan_unsigned minus (c ∷ s) = if is_digit c then to_int64 minus (scan_digits (c ∷ s) 0) else none

unfoldable pub scan_signed : Text → Option Int64
unfolding scan_unsigned
scan_signed [] = none
scan_signed (c ∷ s) =
    if c == b'-'
    then scan_unsigned true s
    else if c == b'+'
    then scan_unsigned false s
    else scan_unsigned false (c ∷ s)

-- `Sscanf` skips white space first, and refuses a newline.
unfoldable pub scan_int64 : Text → Option Int64
unfolding scan_signed is_space
scan_int64 [] = none
scan_int64 (c ∷ s) =
    if c == b'\n' then none else if is_space c then scan_int64 s else scan_signed (c ∷ s)

-- reading the last digit of `n` behind the digits before it gives `n`
scan_digits_last :
    (n : ℕ) (out : Text) → scan_digits ((b'0' + n % 10) ∷ out) (n / 10) ≡ scan_digits out n
unfolding scan_digits
scan_digits_last n out = ground arith

scan_digits-digits :
    (fuel n : ℕ) (out : Text) → n < fuel → scan_digits (digits fuel n out) 0 ≡ scan_digits out n
unfolding digits
scan_digits-digits zero n out h = elim h [ ]
scan_digits-digits (suc fuel) n out h =
    ground (arith, scan_digits-digits fuel (n / 10) ((b'0' + n % 10) ∷ out), scan_digits_last n out)

-- What `print_decimal` writes is one digit at least, and digits only.
abbrev pub StartsWithDigit : Text → Type 0
StartsWithDigit [] = ⊥
StartsWithDigit (c ∷ s) = is_digit c ≡ true

digits-StartsWithDigit :
    (fuel n : ℕ) (out : Text)
    → n < fuel
    → (n ≢ 0) ⊎ StartsWithDigit out
    → StartsWithDigit (digits fuel n out)
unfolding digits
digits-StartsWithDigit zero n out h d = elim h [ ]
digits-StartsWithDigit (suc fuel) n out h d =
    ground (arith, digits-StartsWithDigit fuel (n / 10) ((b'0' + n % 10) ∷ out))

scan_int64-StartsWithDigit :
    (s : Text) → StartsWithDigit s → scan_int64 s ≡ to_int64 false (scan_digits s 0)
unfolding scan_int64
scan_int64-StartsWithDigit [] d = elim d [ ]
scan_int64-StartsWithDigit (c ∷ s) d = ground arith

print_decimal-StartsWithDigit : (n : ℕ) → StartsWithDigit (print_decimal n)
unfolding print_decimal
print_decimal-StartsWithDigit n = ground (arith, digits-StartsWithDigit (suc n) n [] (omega arith))

scan_digits-print_decimal : (n : ℕ) → scan_digits (print_decimal n) 0 ≡ n
unfolding print_decimal scan_digits
scan_digits-print_decimal n = ground (arith, scan_digits-digits (suc n) n [] (omega arith))

pub scan_int64-print_decimal :
    (n : ℕ) → n < 2 ^ 63 → scan_int64 (print_decimal n) ≡ some (natural n)
scan_int64-print_decimal n h = ground (
  arith,
  scan_int64-StartsWithDigit (print_decimal n) (print_decimal-StartsWithDigit n),
  scan_digits-print_decimal n,
)

digits-has_no :
    (c fuel n : ℕ) (out : Text)
    → is_digit c ≡ false
    → contains out c ≡ false
    → contains (digits fuel n out) c ≡ false
unfolding digits
digits-has_no c zero n out h k = k
digits-has_no c (suc fuel) n out h k =
    ground (arith, digits-has_no c fuel (n / 10) ((b'0' + n % 10) ∷ out))

pub print_decimal-has_no : (c n : ℕ) → is_digit c ≡ false → contains (print_decimal n) c ≡ false
unfolding print_decimal
print_decimal-has_no c n h = ground (arith, digits-has_no c (suc n) n [] h refl)
