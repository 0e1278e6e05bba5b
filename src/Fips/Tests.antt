-- ===== src/Fips/Tests.antt =====
-- Instances of the theorems on FIPS.
use mq_container.Base.{none, some, codes, Env, eq_text, if◌then◌else◌}

abbrev asking : Env
asking k = if eq_text k (codes "MQ_ENABLE_FIPS") then some (codes "TRUE") else none
