-- ===== src/Fips.antt =====
-- internal/fips/fips.go: whether FIPS cryptography is enabled, and who enabled it.
pub mod Override
mod Tests
use mq_container.Base.{
  ℕ, Bool, true, false, not, ◌||◌, Option, none, some, Text, codes, contains, equal_fold, Env, ltb,
  ◌==◌, if◌then◌else◌,
}

-- FIPS_ENABLED_OFF, FIPS_ENABLED_PLATFORM (which is FIPS_ENABLED_ON) and FIPS_ENABLED_ENV_VAR
abbrev pub enabled_off : ℕ
enabled_off = 0

abbrev pub enabled_platform : ℕ
enabled_platform = 1

abbrev pub enabled_env_var : ℕ
enabled_env_var = 2

-- the type before the environment is looked at; `out` is what `sysctl` prints, if it succeeds
unfoldable pub platform_type : Option Text → ℕ
platform_type none = enabled_off
platform_type (some out) =
    if contains out (codes "crypto.fips_enabled = 1") then enabled_platform else enabled_off

-- the branches on MQ_ENABLE_FIPS; the flag is that a warning is logged
unfoldable pub override_type : ℕ → Text → ℕ × Bool
override_type platform fips_override =
    if equal_fold fips_override (codes "false") || equal_fold fips_override (codes "0")
    then (enabled_off, false)
    else if equal_fold fips_override (codes "true") || equal_fold fips_override (codes "1")
    then (if not (platform == enabled_platform) then enabled_env_var else platform, false)
    else if equal_fold fips_override (codes "auto")
    then (platform, false)
    else (platform, true)

-- `ProcessFIPSType`
unfoldable pub process_fips_type : Option Text → Env → ℕ × Bool
unfolding platform_type override_type
process_fips_type sysctl env = elim (env (codes "MQ_ENABLE_FIPS")) [
  | none ↦ (platform_type sysctl, false)
  | some fips_override ↦ override_type (platform_type sysctl) fips_override
]

-- `IsFIPSEnabled`
unfoldable pub is_fips_enabled : ℕ → Bool
is_fips_enabled fips_enabled_type = ltb enabled_off fips_enabled_type

-- the message of `PostInit`
unfoldable pub post_init_message : ℕ → Text
post_init_message fips_enabled_type =
    if fips_enabled_type == enabled_platform
    then codes "FIPS cryptography is enabled. FIPS cryptography setting on the host is 'true'."
    else if fips_enabled_type == enabled_env_var
    then codes "FIPS cryptography is enabled. FIPS cryptography setting on the host is 'false'."
    else codes "FIPS cryptography is not enabled."
