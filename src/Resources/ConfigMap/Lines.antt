-- ===== src/Resources/ConfigMap/Lines.antt =====
-- internal/resources/configmap.go: a quoted value stays on its line.
use Prim.Native.Char.{Char, code}
use Prim.Native.String.{[], ◌∷◌}
use text.Mathlib.TextLemmas.{nil-append, cons-append}
use talon_db_k8s_operator.Base.{
  ℕ, zero, suc, ◌+◌, ◌/◌, ◌%◌, ◌-◌, ◌||◌, String, ◌<>◌, ◌≡◌, refl, ◌∙◌, Bool, true, false, arith,
  nat_eq, Bool-cases, inl, inr, if◌then◌else◌, ltb,
}
use talon_db_k8s_operator.Base.Decimal.{digit}
use talon_db_k8s_operator.Base.Lines.{
  hex_letter, hex_digit, format_hex, quote_char, quote_chars, escape, is_printable,
}

-- The number of line breaks in a text.
unfoldable pub breaks : String → ℕ
breaks [] = 0
breaks (c ∷ s) = let rest = breaks s in if nat_eq (code c) 10 then suc rest else rest

pub breaks-append : (s t : String) → breaks (s <> t) ≡ breaks s + breaks t
unfolding breaks
breaks-append [] t = rw nil-append (omega arith)
breaks-append (c ∷ s) t = rw cons-append (ground (arith, breaks-append s t))

abbrev NotBreak : Char → Type 0
NotBreak c = nat_eq (code c) 10 ≡ false

digit-NotBreak : (n : ℕ) → NotBreak (digit n)
digit-NotBreak zero = refl
digit-NotBreak (suc zero) = refl
digit-NotBreak (suc (suc zero)) = refl
digit-NotBreak (suc (suc (suc zero))) = refl
digit-NotBreak (suc (suc (suc (suc zero)))) = refl
digit-NotBreak (suc (suc (suc (suc (suc zero))))) = refl
digit-NotBreak (suc (suc (suc (suc (suc (suc zero)))))) = refl
digit-NotBreak (suc (suc (suc (suc (suc (suc (suc zero))))))) = refl
digit-NotBreak (suc (suc (suc (suc (suc (suc (suc (suc zero)))))))) = refl
digit-NotBreak (suc (suc (suc (suc (suc (suc (suc (suc (suc n))))))))) = refl

hex_letter-NotBreak : (n : ℕ) → NotBreak (hex_letter n)
hex_letter-NotBreak zero = refl
hex_letter-NotBreak (suc zero) = refl
hex_letter-NotBreak (suc (suc zero)) = refl
hex_letter-NotBreak (suc (suc (suc zero))) = refl
hex_letter-NotBreak (suc (suc (suc (suc zero)))) = refl
hex_letter-NotBreak (suc (suc (suc (suc (suc n))))) = refl

hex_digit-NotBreak : (n : ℕ) → NotBreak (hex_digit n)
hex_digit-NotBreak n = elim (Bool-cases (ltb n 10)) [
  | inl low ↦ rw low (digit-NotBreak n)
  | inr high ↦ rw high (hex_letter-NotBreak (n - 10))
]

-- A text without a line break.
pub record OneLine (s : String) : Type 0 where
  pub none : breaks s ≡ 0

pub the_line : (s : String) → breaks s ≡ 0 → OneLine s
the_line s e = record { none = e }

OneLine-singleton : (c : Char) → NotBreak c → OneLine (c ∷ [])
unfolding breaks
OneLine-singleton c h = record { none = rw h refl }

OneLine-if : (b : Bool) {s t : String} → OneLine s → OneLine t → OneLine (if b then s else t)
OneLine-if true hs ht = hs
OneLine-if false hs ht = ht

pub OneLine-append : {s t : String} → OneLine s → OneLine t → OneLine (s <> t)
OneLine-append {s} {t} hs ht = record { none = breaks-append s t ∙ rw (hs.none, ht.none) refl }

OneLine-format_hex : (width n : ℕ) → OneLine (format_hex width n)
unfolding breaks format_hex
OneLine-format_hex zero n = record { none = refl }
OneLine-format_hex (suc width) n =
    OneLine-append (OneLine-format_hex width (n / 16))
      (OneLine-singleton (hex_digit (n % 16)) (hex_digit-NotBreak (n % 16)))

module _ (is_print : ℕ → Bool) where
  OneLine-escape : (c : ℕ) → OneLine (escape is_print c)
  unfolding escape breaks
  OneLine-escape c =
      let hex = λ (width : ℕ). OneLine-format_hex width c in
      OneLine-if _ (the_line "\\a" refl) (
        OneLine-if _ (the_line "\\b" refl) (
          OneLine-if _ (the_line "\\f" refl) (
            OneLine-if _ (the_line "\\n" refl) (
              OneLine-if _ (the_line "\\r" refl) (
                OneLine-if _ (the_line "\\t" refl) (
                  OneLine-if _ (the_line "\\v" refl) (
                    OneLine-if _ (OneLine-append (the_line "\\x" refl) (hex 2)) (
                      OneLine-if _ (OneLine-append (the_line "\\u" refl) (hex 4))
                        (OneLine-append (the_line "\\U" refl) (hex 8))))))))))

  OneLine-quote_char : (c : Char) → OneLine (quote_char is_print c)
  unfolding quote_char breaks
  OneLine-quote_char c = elim (Bool-cases (nat_eq (code c) 34 || nat_eq (code c) 92)) [
    | inl special ↦
        rw special
          (OneLine-append (the_line "\\" refl) (OneLine-singleton c (ground (arith, special))))
    | inr plain ↦ rw plain (elim (Bool-cases (is_printable is_print (code c))) [
      | inl printable ↦ rw printable (OneLine-singleton c (ground (arith, plain, printable)))
      | inr escaped ↦ rw escaped (OneLine-escape (code c))
    ])
  ]

  pub OneLine-quote_chars : (s : String) → OneLine (quote_chars is_print s)
  unfolding quote_chars breaks
  OneLine-quote_chars [] = the_line "" refl
  OneLine-quote_chars (c ∷ s) = OneLine-append (OneLine-quote_char c) (OneLine-quote_chars s)
