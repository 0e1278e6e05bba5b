-- ===== src/Ha/Tests.antt =====
-- Native HA at a host where nothing is mounted, with the three instances named in the environment.
use mq_container.Base.{
  ◌≡◌, refl, Bool, true, false, [], none, some, Text, codes, eq_text, Env, getenv, All,
  if◌then◌else◌,
}
use mq_container.Qmgr.{Shell}
use mq_container.Ready.{ok}
use mq_container.Machine.{Machine, Host}
use mq_container.Tls.{Crypto, Mounts}
use mq_container.Tls.Configure.{have_keys_and_certs}
use mq_container.Ha.{Generated, should_configure_tls}
use mq_container.Ha.Files.{has_output, at_start, unmounted_native_ha}

abbrev crypto : Crypto
crypto = record {
  decode = λ t. none;
  encode = λ b. none;
  parse_pkcs1 = λ b. none;
  parse_pkcs8 = λ b. none;
  equal_keys = eq_text;
  hashable = λ key. true;
  parse_certificate = λ b. none;
  fingerprint = λ raw. raw;
  encode_pkcs12 = λ key cert cas password. none;
}

abbrev mounts : Mounts
mounts = record { read_dir = λ dir. []; read_file = λ path. none }

abbrev shell : Shell
shell done c = record { out = []; rc = some 0; is_error = false }

abbrev host : Host
host = record {
  sh = shell;
  files_after = λ done c files. files;
  inaccessible = λ p. false;
  irremovable = λ p. false;
  unwritable = λ p. false;
}

abbrev machine : Machine
machine = record { done = []; files = λ p. false; written = [] }

abbrev env : Env
env name =
    if eq_text name (codes "MQ_NATIVE_HA")
    then some (codes "true")
    else if eq_text name (codes "MQ_NATIVE_HA_INSTANCE_0_NAME")
    then some (codes "qm-0")
    else if eq_text name (codes "HOSTNAME")
    then some (codes "qm-0")
    else none

abbrev whole : Text → Bool
whole template = false

unmounted_native_ha_example :
    let fs = (at_start crypto mounts host false (codes "pw") whole env machine).0.generated in
    ((at_start crypto mounts host false (codes "pw") whole env machine).1 ≡ ok tt)
    × (has_output (codes "/run/10-native-ha-keystore.ini") fs ≡ false)
    × All (λ (f : Generated). should_configure_tls f.config ≡ false) fs
unfolding eq_text getenv have_keys_and_certs
unmounted_native_ha_example =
    unmounted_native_ha crypto mounts host false (codes "pw") whole env machine refl refl refl refl
      refl (λ t. refl)
