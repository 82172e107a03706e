-- ===== src/Config/Kafka/Secured.antt =====
-- internal/config/config.go: the security settings of the Kafka provider that are accepted.
use anaysitics_service.Base.{◌≡◌, ◌↔◌, ◌⊎◌, true, false, not, contains, [], ok, arith}
use anaysitics_service.Base.Text.{
  Text, text, text_eq_iff, is_empty, trim_space, to_lower, CaseTable,
}
use anaysitics_service.Config.{Config}
use anaysitics_service.Config.Kafka.{
  has_kafka_tls_material, is_unsupported_kafka_sasl_mechanism, has_kafka_sasl_material,
  validate_kafka_security_config,
}

-- No setting for TLS is given.
abbrev pub HasNoTls : Config → Type 0
HasNoTls c =
    (is_empty (trim_space c.kafka_tls_server_name) ≡ true)
    × (is_empty (trim_space c.kafka_tls_ca_file) ≡ true)
    × (is_empty (trim_space c.kafka_tls_cert_file) ≡ true)
    × (is_empty (trim_space c.kafka_tls_key_file) ≡ true)
    × (c.kafka_tls_insecure_skip_verify ≡ false)

-- The SASL mechanism is left out, or is the plain one under one of its names.
abbrev pub IsPlain : ⦃cases : CaseTable⦄ → Text → Type 0
IsPlain mechanism =
    (to_lower (trim_space mechanism) ≡ [])
    ⊎ (to_lower (trim_space mechanism) ≡ text "plain")
    ⊎ (to_lower (trim_space mechanism) ≡ text "plaintext")
    ⊎ (to_lower (trim_space mechanism) ≡ text "sasl_plaintext")

-- TLS is on if anything is set for it, a certificate comes with its key, the mechanism is supported, and
-- a user and a password are given exactly if SASL is on.
abbrev pub IsSecured : ⦃cases : CaseTable⦄ → Config → Type 0
IsSecured c =
    ((c.kafka_tls_enabled ≡ true) ⊎ HasNoTls c)
    × (is_empty c.kafka_tls_cert_file ≡ is_empty c.kafka_tls_key_file)
    × IsPlain c.kafka_sasl_mechanism
    × (is_empty (trim_space c.kafka_sasl_username) ≡ not c.kafka_sasl_enabled)
    × (is_empty c.kafka_sasl_password ≡ not c.kafka_sasl_enabled)

tls_material_iff : (c : Config) → (has_kafka_tls_material c ≡ false) ↔ HasNoTls c
unfolding has_kafka_tls_material
tls_material_iff c = ground arith

module _ ⦃cases : CaseTable⦄ where
  supported_iff :
      (mechanism : Text)
      → (is_unsupported_kafka_sasl_mechanism mechanism ≡ false) ↔ IsPlain mechanism
  unfolding is_unsupported_kafka_sasl_mechanism contains
  supported_iff mechanism = ground (
    arith,
    text_eq_iff [] (to_lower (trim_space mechanism)),
    text_eq_iff (text "plain") (to_lower (trim_space mechanism)),
    text_eq_iff (text "plaintext") (to_lower (trim_space mechanism)),
    text_eq_iff (text "sasl_plaintext") (to_lower (trim_space mechanism)),
  )

  sasl_material_iff :
      (c : Config)
      → (has_kafka_sasl_material c ≡ false) ↔ (
          IsPlain c.kafka_sasl_mechanism
          × (is_empty (trim_space c.kafka_sasl_username) ≡ true)
          × (is_empty c.kafka_sasl_password ≡ true))
  unfolding has_kafka_sasl_material
  sasl_material_iff c = ground (arith, supported_iff c.kafka_sasl_mechanism)

  pub validate_kafka_security_config_iff :
      (c : Config) → (validate_kafka_security_config c ≡ ok tt) ↔ IsSecured c
  unfolding validate_kafka_security_config
  validate_kafka_security_config_iff c =
      ground (arith, tls_material_iff c, supported_iff c.kafka_sasl_mechanism, sasl_material_iff c)
