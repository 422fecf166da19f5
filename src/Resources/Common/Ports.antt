-- ===== src/Resources/Common/Ports.antt =====
-- internal/resources/common.go: what `PortFromAddr` returns.
use Prim.Native.Char.{code}
use Prim.Native.String.{[], ◌∷◌}
use text.Mathlib.TextLemmas.{nil-append, cons-append, cons-ne-nil}
use talon_db_k8s_operator.Base.{
  ℕ, ◌+◌, ◌-◌, ◌*◌, ◌^◌, ◌≤◌, ◌<◌, String, ◌<>◌, ◌≡◌, refl, ◌⊎◌, inl, inr, Option, none, some,
  arith, Bool-cases, ◌==◌, ==_iff,
}
use talon_db_k8s_operator.Base.Int.{ℤ, pos, negsuc, leb_ℤ, ltb_ℤ}
use talon_db_k8s_operator.Base.Decimal.{format_ℕ, scan, parse_int32}
use talon_db_k8s_operator.Base.Decimal.RoundTrip.{scan-format_ℕ}
use talon_db_k8s_operator.Base.Lines.{after_last_colon}
use talon_db_k8s_operator.Resources.Common.{port_or, port_of, port_from_addr}

-- A port number.
abbrev pub IsPort : ℤ → Type 0
IsPort p = (n : ℕ) × (p ≡ pos n) × (1 ≤ n) × (n ≤ 65535)

port_or_bounds : (d : ℤ) (o : Option ℤ) → (port_or d o ≡ d) ⊎ IsPort (port_or d o)
port_or_bounds d none = inl refl
port_or_bounds d (some (negsuc n)) = inl (ground arith)
port_or_bounds d (some (pos n)) = elim (Bool-cases (leb_ℤ (pos n) (pos 0))) [
  | inl low ↦ inl (ground arith)
  | inr positive ↦ elim (Bool-cases (ltb_ℤ (pos 65535) (pos n))) [
    | inl high ↦ inl (ground arith)
    | inr fits ↦ inr (n, ground arith, ground arith, ground arith)
  ]
]

port_of_bounds :
    (d : ℤ) (digits : Option String) → (port_of d digits ≡ d) ⊎ IsPort (port_of d digits)
port_of_bounds d none = inl refl
port_of_bounds d (some digits) = port_or_bounds d (parse_int32 digits)

-- Whatever the address, the result is the default or a number from 1 to 65535.
pub port_from_addr_bounds :
    (addr : String) (default : ℤ)
    → (port_from_addr addr default ≡ default) ⊎ IsPort (port_from_addr addr default)
unfolding port_from_addr
port_from_addr_bounds addr default = elim (Bool-cases (addr == "")) [
  | inl empty ↦ inl (rw empty refl)
  | inr given ↦ rw given (port_of_bounds default (after_last_colon addr))
]

-- Digits hold no colon.
after_last_colon_of_scan : (s : String) (m n : ℕ) → scan s m ≡ some n → after_last_colon s ≡ none
unfolding scan after_last_colon
after_last_colon_of_scan [] m n h = refl
after_last_colon_of_scan (c ∷ s) m n h =
    ground (arith, after_last_colon_of_scan s (m * 10 + (code c - b'0')) n)

after_last_colon-append :
    (host t : String) → after_last_colon t ≡ none → after_last_colon (host <> (":" <> t)) ≡ some t
unfolding after_last_colon
after_last_colon-append [] t h = rw (nil-append, cons-append, nil-append) (ground arith)
after_last_colon-append (c ∷ s) t h = rw cons-append (ground (arith, after_last_colon-append s t h))

parse_int32_of_scan :
    (s : String) (n : ℕ) → scan s 0 ≡ some n → 1 ≤ n → n < 2 ^ 31 → parse_int32 s ≡ some (pos n)
unfolding scan parse_int32
parse_int32_of_scan [] n h p q = ground arith
parse_int32_of_scan (c ∷ s) n h p q = ground arith

port_from_addr_of_digits :
    (addr digits : String) (default : ℤ) (n : ℕ)
    → after_last_colon addr ≡ some digits
    → scan digits 0 ≡ some n
    → 1 ≤ n
    → n ≤ 65535
    → port_from_addr addr default ≡ pos n
unfolding port_from_addr after_last_colon
port_from_addr_of_digits [] digits default n h e low high = cc
port_from_addr_of_digits (c ∷ s) digits default n h e low high = elim (Bool-cases (c ∷ s == "")) [
  | inl empty ↦ absurd (cons-ne-nil c s ((==_iff _ _).0 empty))
  | inr given ↦ rw (given, h) (ground (arith, parse_int32_of_scan digits n e low (omega arith)))
]

-- An address of any host part and a port from 1 to 65535 gives that port.
pub port_from_addr-format_ℕ :
    (host : String) (port : ℕ) (default : ℤ)
    → 1 ≤ port
    → port ≤ 65535
    → port_from_addr (host <> (":" <> format_ℕ port)) default ≡ pos port
port_from_addr-format_ℕ host port default low high =
    let read = scan-format_ℕ port (omega arith) in
    port_from_addr_of_digits _ (format_ℕ port) default port
      (after_last_colon-append host _ (after_last_colon_of_scan _ 0 port read)) read low high
