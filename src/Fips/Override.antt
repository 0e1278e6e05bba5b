-- ===== src/Fips/Override.antt =====
-- What MQ_ENABLE_FIPS and the host decide together.
use mq_container.Base.{
  ◌≡◌, Bool, true, not, ◌&&◌, ◌||◌, Option, none, some, Text, codes, equal_fold, Env, arith,
  if◌then◌else◌,
}
use mq_container.Fips.{
  enabled_platform, enabled_env_var, platform_type, override_type, process_fips_type,
  is_fips_enabled,
}

-- What the variable asks for, read without regard to case.
abbrev pub asks_off : Text → Bool
asks_off v = equal_fold v (codes "false") || equal_fold v (codes "0")

abbrev pub asks_on : Text → Bool
asks_on v = not (asks_off v) && (equal_fold v (codes "true") || equal_fold v (codes "1"))

-- FIPS is enabled exactly when the variable asks for it, or the host is in FIPS mode and the variable
-- does not ask against it.
pub is_fips_enabled_lem :
    (sysctl : Option Text) (env : Env)
    → is_fips_enabled (process_fips_type sysctl env).0 ≡ elim (env (codes "MQ_ENABLE_FIPS")) [
      | none ↦ is_fips_enabled (platform_type sysctl)
      | some v ↦ asks_on v || (is_fips_enabled (platform_type sysctl) && not (asks_off v))
    ]
unfolding is_fips_enabled process_fips_type platform_type override_type
is_fips_enabled_lem sysctl env = ground arith

-- The type tells the host's mode: where FIPS is enabled, it is the platform's type exactly when the
-- host is in FIPS mode, and else that of the variable.
pub process_fips_type-platform :
    (sysctl : Option Text) (env : Env)
    → is_fips_enabled (process_fips_type sysctl env).0 ≡ true
    → (process_fips_type sysctl env).0
      ≡ (if is_fips_enabled (platform_type sysctl) then enabled_platform else enabled_env_var)
unfolding is_fips_enabled process_fips_type platform_type override_type
process_fips_type-platform sysctl env h = ground arith
