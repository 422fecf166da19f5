-- ===== src/Base/Decimal/RoundTrip.antt =====
-- Printing a number in decimal and reading it back.
use Prim.Native.String.{◌∷◌}
use native.Mathlib.Nat.{pow-suc}
use talon_db_k8s_operator.Base.{
  ℕ, zero, suc, ◌+◌, ◌*◌, ◌/◌, ◌%◌, ◌^◌, ◌<◌, String, ◌≡◌, ap, ◌∙◌, some, arith, ltb, Bool-cases,
  inl, inr,
}
use talon_db_k8s_operator.Base.Decimal.{digit, format_onto, format_ℕ, max_digits, scan}

-- Reading a printed digit appends it to the number.
scan-digit :
    (d : ℕ) (out : String) (m : ℕ) → d < 10 → scan (digit d ∷ out) m ≡ scan out (m * 10 + d)
unfolding scan
scan-digit zero out m _ = ground arith
scan-digit (suc zero) out m _ = ground arith
scan-digit (suc (suc zero)) out m _ = ground arith
scan-digit (suc (suc (suc zero))) out m _ = ground arith
scan-digit (suc (suc (suc (suc zero)))) out m _ = ground arith
scan-digit (suc (suc (suc (suc (suc zero))))) out m _ = ground arith
scan-digit (suc (suc (suc (suc (suc (suc zero)))))) out m _ = ground arith
scan-digit (suc (suc (suc (suc (suc (suc (suc zero))))))) out m _ = ground arith
scan-digit (suc (suc (suc (suc (suc (suc (suc (suc zero)))))))) out m _ = ground arith
scan-digit (suc (suc (suc (suc (suc (suc (suc (suc (suc zero))))))))) out m _ = ground arith
scan-digit (suc (suc (suc (suc (suc (suc (suc (suc (suc (suc n)))))))))) out m h =
    absurd (omega arith)

scan-format_onto :
    (fuel n : ℕ) (out : String) → n < 10 ^ fuel → scan (format_onto fuel n out) 0 ≡ scan out n
unfolding format_onto
scan-format_onto zero n out h = ap (scan out) (omega arith)
scan-format_onto (suc fuel) n out h = elim (Bool-cases (ltb n 10)) [
  | inl small ↦ rw small (scan-digit (n % 10) out 0 (omega arith) ∙ ap (scan out) (ground arith))
  | inr large ↦ rw large (
      scan-format_onto fuel (n / 10) _ (omega (arith, pow-suc 10 fuel))
      ∙ (scan-digit (n % 10) out (n / 10) (omega arith) ∙ ap (scan out) (omega arith)))
]

-- A number of at most twenty digits is read back from its print.
pub scan-format_ℕ : (n : ℕ) → n < 10 ^ max_digits → scan (format_ℕ n) 0 ≡ some n
unfolding format_ℕ scan
scan-format_ℕ n h = scan-format_onto max_digits n "" h
