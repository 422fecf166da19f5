-- ===== src/Resources/ConfigMap/Rendered.antt =====
-- internal/resources/configmap.go: the rendered file, line by line.
use Prim.Native.Char.{code}
use Prim.Native.String.{[], ◌∷◌}
use text.Mathlib.TextLemmas.{nil-append, append-nil, cons-append, append_assoc}
use talon_db_k8s_operator.Base.{
  String, ◌<>◌, ◌≡◌, refl, sym, ◌∙◌, ap, Bool, true, false, arith, nat_eq, Bool-cases, inl, inr,
  List, [], ◌∷◌, ◌++◌, map, if◌then◌else◌, ◌==◌,
}
use talon_db_k8s_operator.Base.Decimal.{format_int}
use talon_db_k8s_operator.Base.Lines.{quote, trim_space}
use talon_db_k8s_operator.Kube.{Platform}
use talon_db_k8s_operator.Api.{TlnDb}
use talon_db_k8s_operator.Resources.Common.{or_default, metrics_enabled, metrics_port}
use talon_db_k8s_operator.Resources.ConfigMap.{config_line, render_config_yaml}
use talon_db_k8s_operator.Resources.ConfigMap.Lines.{
  breaks, OneLine-append, the_line, OneLine-quote_chars,
}

-- A text at its line breaks: what stands before the first, and the parts after each.
unfoldable pub split_lines : String → String × List String
split_lines [] = ("", [])
split_lines (c ∷ s) =
    let rest = split_lines s in
    if nat_eq (code c) 10 then ("", rest.0 ∷ rest.1) else (c ∷ rest.0, rest.1)

-- As `strings.Split` with a line break: a text that ends with one has an empty last part.
abbrev pub lines : String → List String
lines s = (split_lines s).0 ∷ (split_lines s).1

split_lines-append :
    (s t : String)
    → split_lines ((s <> "\n") <> t) ≡ ((split_lines s).0, (split_lines s).1 ++ lines t)
unfolding split_lines
split_lines-append [] t = rw (nil-append, cons-append, nil-append) refl
split_lines-append (c ∷ s) t =
    rw (cons-append, cons-append, split_lines-append s t)
      (elim (Bool-cases (nat_eq (code c) 10)) [
        | inl break ↦ rw break refl
        | inr same ↦ rw same refl
      ])

split_lines-OneLine : (s : String) → breaks s ≡ 0 → split_lines s ≡ (s, [])
unfolding split_lines breaks
split_lines-OneLine [] one = refl
split_lines-OneLine (c ∷ s) one = elim (Bool-cases (nat_eq (code c) 10)) [
  | inl break ↦ absurd (ground (arith, break, one))
  | inr same ↦
      let here : breaks s ≡ 0 = ground (arith, same, one) in
      rw (same, split_lines-OneLine s here) refl
]

lines-append : (s t : String) → lines ((s <> "\n") <> t) ≡ lines s ++ lines t
lines-append s t = rw split_lines-append refl

-- A line in front of a text
lines-line : (s t : String) → breaks s ≡ 0 → lines ((s <> "\n") <> t) ≡ s ∷ lines t
lines-line s t one = rw (split_lines-append, split_lines-OneLine s one) refl

map-append_twice :
    {A B : Type 0} (f : A → B) (xs ys : List A) (zs : List B)
    → map f xs ++ (map f ys ++ zs) ≡ map f (xs ++ ys) ++ zs
map-append_twice f [] ys zs = refl
map-append_twice f (x ∷ xs) ys zs = ap (λ l. f x ∷ l) (map-append_twice f xs ys zs)

module _ {K : Platform} (inst : TlnDb K) where
  -- What the database is told, in the order of the file: a value of the user's, or its default.
  abbrev pub settings : List (String × String)
  settings =
      let cfg = inst.spec.config in
      ("db", if cfg.db_path == "" then "/data/tlndb.bbolt" else cfg.db_path)
        ∷ ("tcp", if cfg.tcp == "" then ":9899" else cfg.tcp)
        ∷ ("http", if cfg.http == "" then ":8080" else cfg.http)
        ∷ (if cfg.socket == "" then [] else ("socket", cfg.socket) ∷ [])
      ++ (if metrics_enabled inst
          then ("metrics", ":" <> format_int (metrics_port inst)) ∷ []
          else [])

  -- `key: "value"`, where the value is quoted.
  abbrev pub setting_line : String × String → String
  setting_line (key, value) = key <> (": " <> quote K.is_print value)

  -- The extra configuration is trimmed.
  abbrev pub extra_lines : List String
  extra_lines =
      let extra = trim_space inst.spec.config.extra_config in
      if extra == "" then [] else lines extra

  config_line-breaks :
      (key value : String) → config_line inst key value ≡ setting_line (key, value) <> "\n"
  unfolding config_line
  config_line-breaks key value = simp append_assoc refl

  setting_line-breaks :
      (key value : String) → breaks key ≡ 0 → breaks (setting_line (key, value)) ≡ 0
  unfolding quote breaks
  setting_line-breaks key value one =
      (OneLine-append (the_line key one) (
        OneLine-append (the_line ": " refl) (
          OneLine-append (the_line "\"" refl)
            (OneLine-append (OneLine-quote_chars K.is_print value) (the_line "\"" refl))))).none

  lines-config_line :
      (key value t : String) (rest : List String)
      → breaks key ≡ 0
      → lines t ≡ rest
      → lines (config_line inst key value <> t) ≡ setting_line (key, value) ∷ rest
  lines-config_line key value t rest one below =
      rw config_line-breaks (lines-line _ t (setting_line-breaks key value one))
      ∙ ap (λ l. setting_line (key, value) ∷ l) below

  lines-unless :
      (b : Bool) (key value t : String) (rest : List String)
      → breaks key ≡ 0
      → lines t ≡ rest
      → lines ((if b then "" else config_line inst key value) <> t)
        ≡ map setting_line (if b then [] else (key, value) ∷ []) ++ rest
  lines-unless true key value t rest one below = rw nil-append below
  lines-unless false key value t rest one below = lines-config_line key value t rest one below

  lines-when :
      (b : Bool) (key value t : String) (rest : List String)
      → breaks key ≡ 0
      → lines t ≡ rest
      → lines ((if b then config_line inst key value else "") <> t)
        ≡ map setting_line (if b then (key, value) ∷ [] else []) ++ rest
  lines-when true key value t rest one below = lines-config_line key value t rest one below
  lines-when false key value t rest one below = rw nil-append below

  lines-last :
      (extra : String)
      → lines (if extra == "" then "" else extra <> "\n")
        ≡ (if extra == "" then [] else lines extra) ++ "" ∷ []
  unfolding split_lines
  lines-last extra = elim (Bool-cases (extra == "")) [
    | inl empty ↦ rw empty refl
    | inr given ↦ rw given (ap lines (sym (append-nil (extra <> "\n"))) ∙ lines-append extra "")
  ]

  -- The lines of the rendered file are: the comment; one line for each setting, which has the key
  -- and the quoted value and is whole whatever the value is; the lines of the trimmed extra
  -- configuration; and the empty part after the last line break.
  pub render_config_yaml-lines :
      lines (render_config_yaml inst)
      ≡ "# Rendered by tln-db-operator. Do not edit." ∷ map setting_line settings
        ++ (extra_lines ++ "" ∷ [])
  unfolding render_config_yaml breaks format_int
  render_config_yaml-lines =
      let cfg = inst.spec.config in
      let extra = trim_space cfg.extra_config in
      let socket : List (String × String) =
        if cfg.socket == "" then [] else ("socket", cfg.socket) ∷ [] in
      let metrics : List (String × String) =
        if metrics_enabled inst
        then ("metrics", ":" <> format_int (metrics_port inst)) ∷ []
        else [] in
      let optional = lines-unless (cfg.socket == "") "socket" cfg.socket _ _ refl (
        lines-when (metrics_enabled inst) "metrics" (":" <> format_int (metrics_port inst)) _ _ refl
          (lines-last extra)) in
      let own = lines-config_line "db" (or_default cfg.db_path "/data/tlndb.bbolt") _ _ refl (
        lines-config_line "tcp" (or_default cfg.tcp ":9899") _ _ refl (
          lines-config_line "http" (or_default cfg.http ":8080") _ _ refl (
            optional
            ∙ map-append_twice setting_line socket metrics
                ((if extra == "" then [] else lines extra) ++ "" ∷ [])))) in
      lines-line "# Rendered by tln-db-operator. Do not edit." _ refl
      ∙ ap (λ rest. "# Rendered by tln-db-operator. Do not edit." ∷ rest) own
