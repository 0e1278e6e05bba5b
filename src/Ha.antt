-- ===== src/Ha.antt =====
-- internal/ha/ha.go: the settings of Native HA, from the environment and the labels of the loaded
-- certificates, and the files that are made of them. The text of a template is left out: what is
-- generated is a template with the values that it is filled in with. The files are generated in the
-- order of the code; that of the Go map has no meaning, each file having the same values.
pub mod Files
mod Tests
use mq_container.Base.{
  ℕ, Bool, true, false, not, ◌||◌, List, [], ◌∷◌, ◌++◌, Text, codes, eq_text, Env, getenv,
  if◌then◌else◌,
}
use mq_container.Ready.{Outcome, ok, failed}
use mq_container.Machine.{Act, Machine, Host}
use mq_container.Tls.{Crypto, Mounts, TlsState}
use mq_container.Tls.Configure.{configure_ha_tls_keystore}

-- `haInstance`
pub record HaInstance : Type 0 where
  pub instance_name : Text
  pub replication_address : Text

-- `haLocalGroupConfig`
pub record HaLocalGroup : Type 0 where
  pub local_name : Text
  pub role : Text
  pub local_address : Text

-- `haRecoveryGroupConfig`
pub record HaRecoveryGroup : Type 0 where
  pub recovery_name : Text
  pub enabled : Bool
  pub recovery_address : Text

-- `haGroupConfig`
pub record HaGroup : Type 0 where
  pub local : HaLocalGroup
  pub recovery : HaRecoveryGroup
  pub group_cipher_spec : Text
  pub group_certificate_label : Text

-- `haConfig`
pub record HaConfig : Type 0 where
  pub name : Text
  pub instances : List HaInstance
  pub group : HaGroup
  pub ha_tls_enabled : Bool
  pub cipher_spec : Text
  pub certificate_label : Text
  pub key_repository_set : Text
  pub fips_available : Bool

abbrev is_set : Text → Bool
is_set [] = false
is_set (c ∷ t) = true

-- the loop of `envConfigPresent`
unfoldable pub any_set : Env → List Text → Bool
any_set env [] = false
any_set env (v ∷ vs) = if is_set (getenv env v) then true else any_set env vs

-- `envConfigPresent`
unfoldable pub env_config_present : Env → Bool
unfolding any_set
env_config_present env = any_set env (
    codes "MQ_NATIVE_HA_INSTANCE_0_NAME"
    ∷ codes "MQ_NATIVE_HA_INSTANCE_0_REPLICATION_ADDRESS"
    ∷ codes "MQ_NATIVE_HA_INSTANCE_1_NAME"
    ∷ codes "MQ_NATIVE_HA_INSTANCE_1_REPLICATION_ADDRESS"
    ∷ codes "MQ_NATIVE_HA_INSTANCE_2_NAME"
    ∷ codes "MQ_NATIVE_HA_INSTANCE_2_REPLICATION_ADDRESS"
    ∷ codes "MQ_NATIVE_HA_TLS"
    ∷ codes "MQ_NATIVE_HA_CIPHERSPEC"
    ∷ [])

-- `loadConfigFromEnv`
unfoldable pub load_config_from_env : Env → HaConfig
load_config_from_env env =
    let recovery_name = getenv env (codes "MQ_NATIVE_HA_GROUP_RECOVERY_NAME") in
    record {
      name = getenv env (codes "HOSTNAME");
      instances =
          record {
            instance_name = getenv env (codes "MQ_NATIVE_HA_INSTANCE_0_NAME");
            replication_address = getenv env (codes "MQ_NATIVE_HA_INSTANCE_0_REPLICATION_ADDRESS");
          }
          ∷ record {
            instance_name = getenv env (codes "MQ_NATIVE_HA_INSTANCE_1_NAME");
            replication_address = getenv env (codes "MQ_NATIVE_HA_INSTANCE_1_REPLICATION_ADDRESS");
          }
          ∷ record {
            instance_name = getenv env (codes "MQ_NATIVE_HA_INSTANCE_2_NAME");
            replication_address = getenv env (codes "MQ_NATIVE_HA_INSTANCE_2_REPLICATION_ADDRESS");
          }
          ∷ [];
      group = record {
        local = record {
          local_name = getenv env (codes "MQ_NATIVE_HA_GROUP_LOCAL_NAME");
          role = getenv env (codes "MQ_NATIVE_HA_GROUP_ROLE");
          local_address = getenv env (codes "MQ_NATIVE_HA_GROUP_LOCAL_ADDRESS");
        };
        recovery = record {
          recovery_name = recovery_name;
          enabled =
              if is_set recovery_name
              then not (
                  eq_text (getenv env (codes "MQ_NATIVE_HA_GROUP_RECOVERY_ENABLED"))
                    (codes "false"))
              else false;
          recovery_address = getenv env (codes "MQ_NATIVE_HA_GROUP_REPLICATION_ADDRESS");
        };
        group_cipher_spec = getenv env (codes "MQ_NATIVE_HA_GROUP_CIPHERSPEC");
        group_certificate_label = [];
      };
      ha_tls_enabled = false;
      cipher_spec = getenv env (codes "MQ_NATIVE_HA_CIPHERSPEC");
      certificate_label = [];
      key_repository_set = getenv env (codes "MQ_NATIVE_HA_KEY_REPOSITORY");
      fips_available = false;
    }

-- `ShouldConfigureTLS`
unfoldable pub should_configure_tls : HaConfig → Bool
should_configure_tls h =
    if h.ha_tls_enabled then true else if is_set h.group.local.local_name then true else false

-- `yesNo.String`
abbrev pub yes_no : Bool → Text
yes_no b = if b then codes "Yes" else codes "No"

-- `SSLFipsRequired`
abbrev pub ssl_fips_required : HaConfig → Text
ssl_fips_required h = yes_no h.fips_available

-- `KeyRepository`
unfoldable pub key_repository : HaConfig → Text
key_repository h =
    if is_set h.key_repository_set
    then h.key_repository_set
    else codes "/run/runmqserver/ha/tls/key"

-- The two tests of `updateTLS`, one after the other.
unfoldable pub with_ha_label : Text → HaConfig → HaConfig
with_ha_label label h =
    if is_set label then record h { certificate_label = label; ha_tls_enabled = true } else h

unfoldable pub with_group_label : Text → HaConfig → HaConfig
with_group_label label h =
    if is_set label
    then record h {
      group = record h.group { group_certificate_label = label };
      ha_tls_enabled = true;
    }
    else h

-- `updateTLS`
unfoldable pub update_tls : Bool → Text → Text → HaConfig → HaConfig
unfolding with_ha_label with_group_label
update_tls fips ha_label group_label h =
    record (with_group_label group_label (with_ha_label ha_label h)) { fips_available = fips }

-- A file that was made from a template, and the values.
pub record Generated : Type 0 where
  pub output_path : Text
  pub template_file : Text
  pub config : HaConfig

pub record HaState : Type 0 where
  pub machine : Machine
  pub generated : List Generated

-- The loop over `templateConfigs` with `generate`; `broken` says for which template it fails.
unfoldable pub generate_all : (Text → Bool) → HaConfig → List (Text × Text) → Act HaState (Unit {0})
generate_all broken cfg [] s = (s, ok tt)
generate_all broken cfg ((path, template) ∷ files) s =
    let made : Generated = record { output_path = path; template_file = template; config = cfg } in
    let rest = generate_all broken cfg files (record s { generated = s.generated ++ made ∷ [] }) in
    if broken template then (s, failed) else rest

-- `loadConfigAndGenerate`
unfoldable pub load_config_and_generate :
    (Text → Bool) → Env → List (Text × Text) → Bool → Text → Text → Act HaState (Unit {0})
unfolding load_config_from_env update_tls generate_all
load_config_and_generate broken env files fips ha_label group_label =
    generate_all broken (update_tls fips ha_label group_label (load_config_from_env env)) files

-- `configFiles` of `ConfigureNativeHA`
unfoldable pub config_files : Env → Text → Text → List (Text × Text)
unfolding env_config_present
config_files env ha_label group_label =
    (codes "/run/10-native-ha-instance.ini", codes "/etc/mqm/10-native-ha-instance.ini.tpl")
      ∷ (if is_set ha_label || is_set group_label
          then (
            codes "/run/10-native-ha-keystore.ini",
            codes "/etc/mqm/10-native-ha-keystore.ini.tpl",
          )
            ∷ []
          else [])
    ++ (if env_config_present env
        then (codes "/run/10-native-ha.ini", codes "/etc/mqm/10-native-ha.ini.tpl") ∷ []
        else [])

-- `ConfigureNativeHA`
unfoldable pub configure_native_ha :
    Crypto → Mounts → Host → Bool → Text → (Text → Bool) → Env → Act HaState (Unit {0})
unfolding load_config_and_generate config_files configure_ha_tls_keystore
configure_native_ha c mounts h fips password broken env s =
    let (tls, labels) = configure_ha_tls_keystore c mounts env h fips password s.machine in
    let s' = record s { machine = tls.machine } in
    if not (eq_text (getenv env (codes "MQ_NATIVE_HA")) (codes "true"))
    then (s, ok tt)
    else elim labels [
      | failed ↦ (s', failed)
      | ok (ha_label, group_label) ↦
          load_config_and_generate broken env (config_files env ha_label group_label) fips ha_label
            group_label s'
    ]
