-- ===== src/Base/Lines.antt =====
-- Go text functions on the characters of a text: `strings.LastIndex` and `strings.TrimSpace`, and
-- the quoting verb `%q` of fmt (`strconv.Quote`).
use Prim.Native.Char.{Char, code}
use Prim.Native.String.{String, [], ◌∷◌}
use talon_db_k8s_operator.Base.{
  ℕ, zero, suc, ◌-◌, ◌/◌, ◌%◌, ◌<>◌, Bool, ◌&&◌, ◌||◌, Option, none, some, ltb, leb, nat_eq,
  if◌then◌else◌,
}
use talon_db_k8s_operator.Base.Decimal.{digit}

-- `s[strings.LastIndex(s, ":")+1:]`, and `none` where the index is negative.
unfoldable pub after_last_colon : String → Option String
after_last_colon [] = none
after_last_colon (c ∷ s) = elim (after_last_colon s) [
  | some t ↦ some t
  | none ↦ if nat_eq (code c) b':' then some s else none
]

-- `unicode.IsSpace`
abbrev is_space : ℕ → Bool
is_space c =
    (leb 9 c && leb c 13)
    || nat_eq c 32
    || nat_eq c 0x85
    || nat_eq c 0xa0
    || nat_eq c 0x1680
    || (leb 0x2000 c && leb c 0x200a)
    || nat_eq c 0x2028
    || nat_eq c 0x2029
    || nat_eq c 0x202f
    || nat_eq c 0x205f
    || nat_eq c 0x3000

unfoldable pub trim_left : String → String
trim_left [] = []
trim_left (c ∷ s) = let rest = trim_left s in if is_space (code c) then rest else c ∷ s

-- A character in front of a text whose trailing space is gone.
abbrev cons_trimmed : Char → String → String
cons_trimmed c [] = if is_space (code c) then [] else c ∷ []
cons_trimmed c (d ∷ s) = c ∷ d ∷ s

unfoldable pub trim_right : String → String
trim_right [] = []
trim_right (c ∷ s) = cons_trimmed c (trim_right s)

unfoldable pub trim_space : String → String
unfolding trim_left trim_right
trim_space s = trim_right (trim_left s)

abbrev pub hex_letter : ℕ → Char
hex_letter zero = "a"
hex_letter (suc zero) = "b"
hex_letter (suc (suc zero)) = "c"
hex_letter (suc (suc (suc zero))) = "d"
hex_letter (suc (suc (suc (suc zero)))) = "e"
hex_letter _ = "f"

abbrev pub hex_digit : ℕ → Char
hex_digit n = if ltb n 10 then digit n else hex_letter (n - 10)

-- The last `width` hexadecimal digits of `n`.
unfoldable pub format_hex : ℕ → ℕ → String
format_hex zero n = ""
format_hex (suc width) n = format_hex width (n / 16) <> (hex_digit (n % 16) ∷ [])

module _ (is_print : ℕ → Bool) where
  -- `unicode.IsPrint`: the ASCII part written out, the rest from its table.
  abbrev pub is_printable : ℕ → Bool
  is_printable c = if ltb c 128 then leb 32 c && ltb c 127 else is_print c

  -- The escapes of characters that are not printable.
  unfoldable pub escape : ℕ → String
  unfolding format_hex
  escape c =
      if nat_eq c 7
      then "\\a"
      else if nat_eq c 8
      then "\\b"
      else if nat_eq c 12
      then "\\f"
      else if nat_eq c 10
      then "\\n"
      else if nat_eq c 13
      then "\\r"
      else if nat_eq c 9
      then "\\t"
      else if nat_eq c 11
      then "\\v"
      else if ltb c 32 || nat_eq c 127
      then "\\x" <> format_hex 2 c
      else if ltb c 0x10000
      then "\\u" <> format_hex 4 c
      else "\\U" <> format_hex 8 c

  -- One character of the text, as it stands between the quotes.
  unfoldable pub quote_char : Char → String
  unfolding escape
  quote_char c =
      if nat_eq (code c) b'"' || nat_eq (code c) 92
      then "\\" <> (c ∷ [])
      else if is_printable (code c)
      then c ∷ []
      else escape (code c)

  unfoldable pub quote_chars : String → String
  unfolding quote_char
  quote_chars [] = []
  quote_chars (c ∷ s) = quote_char c <> quote_chars s

  unfoldable pub quote : String → String
  unfolding quote_chars
  quote s = "\"" <> (quote_chars s <> "\"")
