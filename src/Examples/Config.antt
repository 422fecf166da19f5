-- ===== src/Examples/Config.antt =====
-- The configuration and its hash at concrete inputs.
use mathlib.Core.List.Perm
use talon_db_k8s_operator.Base.{◌<>◌, ◌≡◌, refl, map, ◌++◌, String, [], ◌∷◌, string_dec}
use talon_db_k8s_operator.Base.Dict.{Dict, lookup, NodupKeys}
use talon_db_k8s_operator.Resources.Hash.{hash_string_data}
use talon_db_k8s_operator.Resources.Hash.Stable.{hash_string_data_perm, hash_string_data_ambiguous}
use talon_db_k8s_operator.Resources.ConfigMap.{render_config_yaml}
use talon_db_k8s_operator.Resources.ConfigMap.Rendered.{
  lines, settings, setting_line, extra_lines, render_config_yaml-lines,
}
use talon_db_k8s_operator.Examples.Fixture.{platform, standalone}

abbrev forward : Dict String
forward = ("config.yaml", "db: x") ∷ ("tls.yaml", "off") ∷ []

abbrev backward : Dict String
backward = ("tls.yaml", "off") ∷ ("config.yaml", "db: x") ∷ []

forward-NodupKeys : NodupKeys forward
unfolding lookup string_dec
forward-NodupKeys = (refl, (refl, tt))

hash_string_data_perm_example :
    hash_string_data platform forward ≡ hash_string_data platform backward
hash_string_data_perm_example =
    hash_string_data_perm platform forward backward
      (Perm.swap ("tls.yaml", "off") ("config.yaml", "db: x") []) forward-NodupKeys

hash_string_data_ambiguous_example :
    hash_string_data platform (("a", "1" <> ("\n" <> ("b" <> ("=" <> "2")))) ∷ [])
    ≡ hash_string_data platform (("a", "1") ∷ ("b", "2") ∷ [])
hash_string_data_ambiguous_example = hash_string_data_ambiguous platform "a" "b" "1" "2" refl

render_config_yaml-lines_example :
    lines (render_config_yaml standalone)
    ≡ "# Rendered by tln-db-operator. Do not edit."
        ∷ map (setting_line standalone) (settings standalone)
      ++ (extra_lines standalone ++ "" ∷ [])
render_config_yaml-lines_example = render_config_yaml-lines standalone
