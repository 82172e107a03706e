-- ===== src/Config/Env.antt =====
-- internal/config/config.go: one setting read from the environment.
use anaysitics_service.Base.{
  ◌||◌, ◌==◌, Bool, Option, none, some, Result, ok, if◌then◌else◌, ℕ, map, nat_eq,
}
use anaysitics_service.Base.Int.{ℤ}
use anaysitics_service.Base.Text.{Text, Text_eq, text, is_empty, trim_space, CaseTable, to_lower}
use anaysitics_service.Base.Text.Decimal.{atoi}
use anaysitics_service.Config.{Environment}
use anaysitics_service.ControlPlane.Validate.{Error}

-- A parsed value, or the fallback.
abbrev pub or_default {ℓ} : {A : Type ℓ} → A → Option A → A
or_default fallback none = fallback
or_default fallback (some parsed) = parsed

module _ (env : Environment) where
  unfoldable pub env_string : Text → Text → Text
  env_string name fallback =
      let value = trim_space (env.getenv name) in if is_empty value then fallback else value

  unfoldable pub env_bool : ⦃cases : CaseTable⦄ → Text → Bool → Bool
  env_bool name fallback =
      let value = to_lower (trim_space (env.getenv name)) in
      if is_empty value
      then fallback
      else (value == text "1" || value == text "true" || value == text "yes")

  unfoldable pub env_int : Text → ℤ → ℤ
  env_int name fallback =
      let value = trim_space (env.getenv name) in
      if is_empty value then fallback else or_default fallback (atoi value)

  unfoldable pub env_duration : Text → ℤ → ℤ
  env_duration name fallback =
      let value = trim_space (env.getenv name) in
      if is_empty value then fallback else or_default fallback (env.parse_duration value)

  -- The zero time for a blank text.
  unfoldable pub parse_optional_time : Text → Result Error ℕ
  parse_optional_time value =
      let value' = trim_space value in if is_empty value' then ok 0 else env.parse_time value'

  unfoldable pub env_optional_time : Text → Result Error ℕ
  env_optional_time name = parse_optional_time (env.getenv name)

  -- strings.ReplaceAll(hostname, " ", "-")
  abbrev dashed : Text → Text
  dashed = map (λ c. if nat_eq c b' ' then b'-' else c)

  abbrev consumer_of : ⦃cases : CaseTable⦄ → Option Text → Text
  consumer_of none = text "consumer-1"
  consumer_of (some hostname) =
      if is_empty (trim_space hostname) then text "consumer-1" else to_lower (dashed hostname)

  unfoldable pub default_worker_consumer : ⦃cases : CaseTable⦄ → Text
  default_worker_consumer = consumer_of env.hostname
