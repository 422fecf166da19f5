-- ===== src/Base/Decimal.antt =====
-- Decimal numbers as text: `%d` and `strconv.FormatInt` print them, `strconv.ParseInt(s, 10, 32)`
-- reads them. Printing takes fuel, one digit a round; twenty digits are enough for 64 bits.
pub mod RoundTrip
use Prim.Native.Char.{Char, code}
use talon_db_k8s_operator.Base.{
  ℕ, suc, zero, ◌+◌, ◌-◌, ◌*◌, ◌/◌, ◌%◌, ◌^◌, String, ◌<>◌, Bool, ◌&&◌, Option, none, some, ltb,
  leb, nat_eq, if◌then◌else◌,
}
use talon_db_k8s_operator.Base.Int.{ℤ, pos, negsuc}

abbrev pub digit : ℕ → Char
digit zero = "0"
digit (suc zero) = "1"
digit (suc (suc zero)) = "2"
digit (suc (suc (suc zero))) = "3"
digit (suc (suc (suc (suc zero)))) = "4"
digit (suc (suc (suc (suc (suc zero))))) = "5"
digit (suc (suc (suc (suc (suc (suc zero)))))) = "6"
digit (suc (suc (suc (suc (suc (suc (suc zero))))))) = "7"
digit (suc (suc (suc (suc (suc (suc (suc (suc zero)))))))) = "8"
digit _ = "9"

-- The decimal digits of `n`, in front of `out`, at most as many as the fuel.
unfoldable pub format_onto : ℕ → ℕ → String → String
format_onto zero n out = out
format_onto (suc fuel) n out =
    let shown = String.◌∷◌ (digit (n % 10)) out in
    let rest = format_onto fuel (n / 10) shown in if ltb n 10 then shown else rest

abbrev pub max_digits : ℕ
max_digits = 20

unfoldable pub format_ℕ : ℕ → String
unfolding format_onto
format_ℕ n = format_onto max_digits n ""

-- `%d`
unfoldable pub format_int : ℤ → String
unfolding format_ℕ
format_int (pos n) = format_ℕ n
format_int (negsuc n) = "-" <> format_ℕ (suc n)

abbrev pub is_digit : Char → Bool
is_digit c = leb b'0' (code c) && leb (code c) b'9'

-- The number that digits spell behind `n`; `none` at any other character.
unfoldable pub scan : String → ℕ → Option ℕ
scan String.[] n = some n
scan (String.◌∷◌ c s) n =
    let rest = scan s (n * 10 + (code c - b'0')) in if is_digit c then rest else none

unfoldable pub parse_digits : String → Option ℕ
unfolding scan
parse_digits String.[] = none
parse_digits (String.◌∷◌ c s) = scan (String.◌∷◌ c s) 0

-- The 32-bit range: a range error is an error like any other to the callers.
abbrev fits_positive : Option ℕ → Option ℤ
fits_positive none = none
fits_positive (some n) = if ltb n (2 ^ 31) then some (pos n) else none

abbrev fits_negative : Option ℕ → Option ℤ
fits_negative none = none
fits_negative (some zero) = some (pos 0)
fits_negative (some (suc n)) = if ltb n (2 ^ 31) then some (negsuc n) else none

-- `strconv.ParseInt(s, 10, 32)`: an optional sign, and at least one digit.
unfoldable pub parse_int32 : String → Option ℤ
unfolding parse_digits
parse_int32 String.[] = none
parse_int32 (String.◌∷◌ c s) =
    if nat_eq (code c) b'-'
    then fits_negative (parse_digits s)
    else if nat_eq (code c) b'+'
    then fits_positive (parse_digits s)
    else fits_positive (parse_digits (String.◌∷◌ c s))
