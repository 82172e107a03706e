-- ===== src/Config/Kafka.antt =====
-- internal/config/config.go: the security settings of the Kafka provider.
pub mod Secured
use anaysitics_service.Base.{
  ◌||◌, ◌&&◌, not, contains, List, [], ◌∷◌, Result, ok, ◌>>◌, if◌then◌else◌, Bool,
}
use anaysitics_service.Base.Text.{Text, Text_eq, text, is_empty, trim_space, CaseTable, to_lower}
use anaysitics_service.Config.{Config}
use anaysitics_service.ControlPlane.Validate.{Error, require}

unfoldable pub has_kafka_tls_material : Config → Bool
has_kafka_tls_material c =
    not (is_empty (trim_space c.kafka_tls_server_name))
    || not (is_empty (trim_space c.kafka_tls_ca_file))
    || not (is_empty (trim_space c.kafka_tls_cert_file))
    || not (is_empty (trim_space c.kafka_tls_key_file))
    || c.kafka_tls_insecure_skip_verify

abbrev pub supported_mechanisms : List Text
supported_mechanisms = [] ∷ text "plain" ∷ text "plaintext" ∷ text "sasl_plaintext" ∷ []

module _ ⦃cases : CaseTable⦄ where
  unfoldable pub is_unsupported_kafka_sasl_mechanism : Text → Bool
  is_unsupported_kafka_sasl_mechanism mechanism =
      not (contains supported_mechanisms (to_lower (trim_space mechanism)))

  unfoldable pub has_kafka_sasl_material : Config → Bool
  has_kafka_sasl_material c =
      is_unsupported_kafka_sasl_mechanism c.kafka_sasl_mechanism
      || not (is_empty (trim_space c.kafka_sasl_username))
      || not (is_empty c.kafka_sasl_password)

  unfoldable pub validate_kafka_security_config : Config → Result Error (Unit {0})
  validate_kafka_security_config c = do
    require (not (not c.kafka_tls_enabled && has_kafka_tls_material c))
        "ANALYTICS_SERVICE_KAFKA_TLS_ENABLED=true is required when Kafka TLS settings are provided"
    require (not (not (is_empty c.kafka_tls_cert_file) && is_empty c.kafka_tls_key_file))
        "ANALYTICS_SERVICE_KAFKA_TLS_KEY_FILE is required when ANALYTICS_SERVICE_KAFKA_TLS_CERT_FILE is set"
    require (not (not (is_empty c.kafka_tls_key_file) && is_empty c.kafka_tls_cert_file))
        "ANALYTICS_SERVICE_KAFKA_TLS_CERT_FILE is required when ANALYTICS_SERVICE_KAFKA_TLS_KEY_FILE is set"
    require (not (not c.kafka_sasl_enabled && has_kafka_sasl_material c))
        "ANALYTICS_SERVICE_KAFKA_SASL_ENABLED=true is required when Kafka SASL settings are provided"
    if not c.kafka_sasl_enabled then ok tt else do
      require (not (is_unsupported_kafka_sasl_mechanism c.kafka_sasl_mechanism))
          "ANALYTICS_SERVICE_KAFKA_SASL_MECHANISM must be plain in this version"
      require (not (is_empty (trim_space c.kafka_sasl_username)))
          "ANALYTICS_SERVICE_KAFKA_SASL_USERNAME is required when Kafka SASL is enabled"
      require (not (is_empty c.kafka_sasl_password))
          "ANALYTICS_SERVICE_KAFKA_SASL_PASSWORD is required when Kafka SASL is enabled"
