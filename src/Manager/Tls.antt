-- ===== src/Manager/Tls.antt =====
-- cmd/main.go: without HTTP/2 unless it is asked for.
use talon_db_k8s_operator.Base.{
  ◌≤◌, String, ◌≡◌, refl, ◌⊎◌, inl, inr, Bool, true, false, Bool-cases, List, [], ◌∷◌, arith,
}
use talon_db_k8s_operator.Base.Each.{EachIs}
use talon_db_k8s_operator.Manager.Options.{
  Flags, TlsConfig, version_tls12, disable_http2, tls_opts, manager_options,
}

-- A server applies its options to its configuration, in order.
abbrev pub configured : List (TlsConfig → TlsConfig) → TlsConfig → TlsConfig
configured [] config = config
configured (opt ∷ opts) config = configured opts (opt config)

abbrev Offers : String → List String → Type 0
Offers protocol [] = ⊥
Offers protocol (other ∷ protocols) = (other ≡ protocol) ⊎ Offers protocol protocols

-- The server offers HTTP/1.1 and nothing else, and no version before TLS 1.2.
abbrev pub IsHttp1Only : TlsConfig → Type 0
IsHttp1Only config =
    Offers "http/1.1" config.next_protos
    × EachIs (λ protocol. protocol ≡ "http/1.1") config.next_protos
    × (version_tls12 ≤ config.min_version)

-- What a server makes of the configuration that it starts from, by the flag for HTTP/2.
abbrev pub Obeys : Bool → TlsConfig → TlsConfig → Type 0
Obeys enabled given used =
    ((enabled ≡ true) × (used ≡ given)) ⊎ ((enabled ≡ false) × IsHttp1Only used)

-- Whatever TLS configuration they start from: where its flag enables HTTP/2, the metrics and the
-- webhook server both keep that configuration, and else both offer HTTP/1.1 and no other protocol,
-- from TLS 1.2 on. That the metrics server is served over TLS at all is as its own flag says.
pub manager_options-Obeys :
    (flags : Flags) (namespace_given : String) (config : TlsConfig)
    → let options = manager_options flags namespace_given in
      Obeys flags.enable_http2 config (configured options.metrics_tls_opts config)
      × Obeys flags.enable_http2 config (configured options.webhook_tls_opts config)
      × (options.metrics_secure_serving ≡ flags.metrics_secure)
unfolding manager_options tls_opts
manager_options-Obeys flags namespace_given config =
    let http1 : IsHttp1Only (disable_http2 config) = (inl refl, (refl, tt), omega arith) in
    elim (Bool-cases flags.enable_http2) [
      | inl on ↦ rw on (inl (refl, refl), inl (refl, refl), refl)
      | inr off ↦ rw off (inr (refl, http1), inr (refl, http1), refl)
    ]
