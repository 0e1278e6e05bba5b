-- ===== src/Ha/Files.antt =====
-- Which files ConfigureNativeHA makes, and the settings in them.
use mq_container.Base.{
  ◌≡◌, refl, ap, Bool, true, false, not, ◌&&◌, ◌||◌, List, [], ◌∷◌, ◌++◌, append-nil, append_assoc,
  Text, codes, eq_text, Env, getenv, if◌then◌else◌, All, All-weaken, drop_while, Bool-cases, inl,
  inr,
}
use mq_container.Ready.{Outcome, ok}
use mq_container.Machine.{Machine, Host}
use mq_container.Tls.{Crypto, Mounts, clean_path}
use mq_container.Tls.Configure.{configure_ha_tls_keystore, have_keys_and_certs, cms_path}
use mq_container.Tls.Unmounted.{unmounted_lem}
use mq_container.Ha.{
  HaInstance, HaConfig, HaState, Generated, is_set, env_config_present, load_config_from_env,
  should_configure_tls, with_ha_label, with_group_label, update_tls, generate_all, key_repository,
  load_config_and_generate, config_files, configure_native_ha,
}

unfoldable pub has_output : Text → List Generated → Bool
has_output path [] = false
has_output path (f ∷ fs) = eq_text f.output_path path || has_output path fs

abbrev made : HaConfig → List (Text × Text) → List Generated
made cfg [] = []
made cfg ((path, template) ∷ files) =
    record { output_path = path; template_file = template; config = cfg } ∷ made cfg files

-- One of the three instances, as its two variables say.
abbrev pub instance_of : Env → Text → HaInstance
instance_of env number = record {
  instance_name = getenv env (codes "MQ_NATIVE_HA_INSTANCE_" ++ number ++ codes "_NAME");
  replication_address =
      getenv env (codes "MQ_NATIVE_HA_INSTANCE_" ++ number ++ codes "_REPLICATION_ADDRESS");
}

-- The settings are those of the environment, of the labels that were loaded and of the FIPS mode.
pub record IsConfigured (env : Env) (fips : Bool) (ha_label group_label : Text) (cfg : HaConfig)
    : Type 0 where
  pub host : cfg.name ≡ getenv env (codes "HOSTNAME")
  pub three :
      cfg.instances
      ≡ instance_of env (codes "0") ∷ instance_of env (codes "1") ∷ instance_of env (codes "2") ∷ []
  pub local_name_of :
      cfg.group.local.local_name ≡ getenv env (codes "MQ_NATIVE_HA_GROUP_LOCAL_NAME")
  pub role_of : cfg.group.local.role ≡ getenv env (codes "MQ_NATIVE_HA_GROUP_ROLE")
  pub local_address_of :
      cfg.group.local.local_address ≡ getenv env (codes "MQ_NATIVE_HA_GROUP_LOCAL_ADDRESS")
  pub recovery_name_of :
      cfg.group.recovery.recovery_name ≡ getenv env (codes "MQ_NATIVE_HA_GROUP_RECOVERY_NAME")
  pub recovery_address_of :
      cfg.group.recovery.recovery_address
      ≡ getenv env (codes "MQ_NATIVE_HA_GROUP_REPLICATION_ADDRESS")
  pub cipher_of : cfg.cipher_spec ≡ getenv env (codes "MQ_NATIVE_HA_CIPHERSPEC")
  pub group_cipher_of :
      cfg.group.group_cipher_spec ≡ getenv env (codes "MQ_NATIVE_HA_GROUP_CIPHERSPEC")
  -- A repository that is set is taken.
  pub repository_set :
      is_set (getenv env (codes "MQ_NATIVE_HA_KEY_REPOSITORY")) ≡ true
      → key_repository cfg ≡ getenv env (codes "MQ_NATIVE_HA_KEY_REPOSITORY")
  pub label : cfg.certificate_label ≡ ha_label
  pub group_label_of : cfg.group.group_certificate_label ≡ group_label
  pub fips_of : cfg.fips_available ≡ fips
  pub tls : should_configure_tls cfg ≡ (
      is_set ha_label
      || is_set group_label
      || is_set (getenv env (codes "MQ_NATIVE_HA_GROUP_LOCAL_NAME")))
  -- Where no repository is set, it is the key store that configure_ha_tls_keystore makes.
  pub repository :
      is_set (getenv env (codes "MQ_NATIVE_HA_KEY_REPOSITORY")) ≡ false
      → key_repository cfg ++ codes ".kdb" ≡ cms_path (codes "/run/runmqserver/ha/tls/")
  pub recovers : cfg.group.recovery.enabled ≡ (
      is_set (getenv env (codes "MQ_NATIVE_HA_GROUP_RECOVERY_NAME"))
      && not (eq_text (getenv env (codes "MQ_NATIVE_HA_GROUP_RECOVERY_ENABLED")) (codes "false")))

if-true : (b : Bool) → (if b then true else false) ≡ b
if-true true = refl
if-true false = refl

if-and : (a b : Bool) → (if a then b else false) ≡ (a && b)
if-and true b = refl
if-and false b = refl

load_config_from_env-recovers :
    (env : Env)
    → (load_config_from_env env).group.recovery.enabled ≡ (
        is_set (getenv env (codes "MQ_NATIVE_HA_GROUP_RECOVERY_NAME"))
        && not (eq_text (getenv env (codes "MQ_NATIVE_HA_GROUP_RECOVERY_ENABLED")) (codes "false")))
unfolding load_config_from_env
load_config_from_env-recovers env =
    if-and (is_set (getenv env (codes "MQ_NATIVE_HA_GROUP_RECOVERY_NAME")))
      (not (eq_text (getenv env (codes "MQ_NATIVE_HA_GROUP_RECOVERY_ENABLED")) (codes "false")))

update_tls-IsConfigured :
    (env : Env) (fips : Bool) (l g : Text)
    → IsConfigured env fips l g (update_tls fips l g (load_config_from_env env))
unfolding update_tls with_ha_label with_group_label load_config_from_env should_configure_tls
    key_repository clean_path drop_while
update_tls-IsConfigured env fips [] [] = record {
  host = refl;
  three = refl;
  local_name_of = refl;
  role_of = refl;
  local_address_of = refl;
  recovery_name_of = refl;
  recovery_address_of = refl;
  cipher_of = refl;
  group_cipher_of = refl;
  repository_set = λ set. rw (set) refl;
  label = refl;
  group_label_of = refl;
  fips_of = refl;
  tls = if-true (is_set (getenv env (codes "MQ_NATIVE_HA_GROUP_LOCAL_NAME")));
  recovers = load_config_from_env-recovers env;
  repository = λ unset. rw (unset) refl;
}
update_tls-IsConfigured env fips [] (d ∷ g) = record {
  host = refl;
  three = refl;
  local_name_of = refl;
  role_of = refl;
  local_address_of = refl;
  recovery_name_of = refl;
  recovery_address_of = refl;
  cipher_of = refl;
  group_cipher_of = refl;
  repository_set = λ set. rw (set) refl;
  label = refl;
  group_label_of = refl;
  fips_of = refl;
  tls = refl;
  recovers = load_config_from_env-recovers env;
  repository = λ unset. rw (unset) refl;
}
update_tls-IsConfigured env fips (c ∷ l) [] = record {
  host = refl;
  three = refl;
  local_name_of = refl;
  role_of = refl;
  local_address_of = refl;
  recovery_name_of = refl;
  recovery_address_of = refl;
  cipher_of = refl;
  group_cipher_of = refl;
  repository_set = λ set. rw (set) refl;
  label = refl;
  group_label_of = refl;
  fips_of = refl;
  tls = refl;
  recovers = load_config_from_env-recovers env;
  repository = λ unset. rw (unset) refl;
}
update_tls-IsConfigured env fips (c ∷ l) (d ∷ g) = record {
  host = refl;
  three = refl;
  local_name_of = refl;
  role_of = refl;
  local_address_of = refl;
  recovery_name_of = refl;
  recovery_address_of = refl;
  cipher_of = refl;
  group_cipher_of = refl;
  repository_set = λ set. rw (set) refl;
  label = refl;
  group_label_of = refl;
  fips_of = refl;
  tls = refl;
  recovers = load_config_from_env-recovers env;
  repository = λ unset. rw (unset) refl;
}

generate_all-made :
    (broken : Text → Bool) (cfg : HaConfig) (files : List (Text × Text)) (s : HaState)
    → ((t : Text) → broken t ≡ false)
    → generate_all broken cfg files s
      ≡ (record s { generated = s.generated ++ made cfg files }, ok tt)
unfolding generate_all
generate_all-made broken cfg [] s h = rw (append-nil s.generated) refl
generate_all-made broken cfg ((path, template) ∷ files) s h =
    let f : Generated = record { output_path = path; template_file = template; config = cfg } in
    rw
      (
        h template,
        generate_all-made broken cfg files (record s { generated = s.generated ++ f ∷ [] }) h,
      )
      (ap (λ fs. (record s { generated = fs }, ok tt))
        (append_assoc s.generated (f ∷ []) (made cfg files)))

made-All :
    (P : HaConfig → Type 0) (cfg : HaConfig) (files : List (Text × Text))
    → P cfg
    → All (λ (f : Generated). P f.config) (made cfg files)
made-All P cfg [] p = tt
made-All P cfg ((path, template) ∷ files) p = (p, made-All P cfg files p)

-- which of the three files are made
config_files-outputs :
    (env : Env) (l g : Text) (cfg : HaConfig)
    → let fs = made cfg (config_files env l g) in
      (has_output (codes "/run/10-native-ha-instance.ini") fs ≡ true)
      × (has_output (codes "/run/10-native-ha-keystore.ini") fs ≡ (is_set l || is_set g))
      × (has_output (codes "/run/10-native-ha.ini") fs ≡ env_config_present env)
unfolding has_output config_files eq_text
config_files-outputs env l g cfg = elim (Bool-cases (is_set l || is_set g)) [
  | inl e ↦ elim (Bool-cases (env_config_present env)) [
    | inl f ↦ rw (e, f) (refl, refl, refl)
    | inr f ↦ rw (e, f) (refl, refl, refl)
  ]
  | inr e ↦ elim (Bool-cases (env_config_present env)) [
    | inl f ↦ rw (e, f) (refl, refl, refl)
    | inr f ↦ rw (e, f) (refl, refl, refl)
  ]
]

module _ (c : Crypto) (mounts : Mounts) (h : Host) (fips : Bool) (password : Text)
    (broken : Text → Bool) (env : Env) (m : Machine) where
  -- What ConfigureNativeHA does at a start, when no file has been made yet.
  abbrev pub at_start : HaState × Outcome (Unit {0})
  at_start =
      configure_native_ha c mounts h fips password broken env
        (record { machine = m; generated = [] })

  pub configure_native_ha_lem :
      (l g : Text)
      → eq_text (getenv env (codes "MQ_NATIVE_HA")) (codes "true") ≡ true
      → (configure_ha_tls_keystore c mounts env h fips password m).1 ≡ ok (l, g)
      → ((t : Text) → broken t ≡ false)
      → let fs = at_start.0.generated in
        (at_start.1 ≡ ok tt)
        × (has_output (codes "/run/10-native-ha-instance.ini") fs ≡ true)
        × (has_output (codes "/run/10-native-ha-keystore.ini") fs ≡ (is_set l || is_set g))
        × (has_output (codes "/run/10-native-ha.ini") fs ≡ env_config_present env)
        × All (λ (f : Generated). IsConfigured env fips l g f.config) fs
  unfolding configure_native_ha load_config_and_generate
  configure_native_ha_lem l g on labels sound =
      let cfg = update_tls fips l g (load_config_from_env env) in
      let files = config_files env l g in
      let tls = (configure_ha_tls_keystore c mounts env h fips password m).0 in
      let (i, k, o) = config_files-outputs env l g cfg in
      rw
        (
          configure_native_ha,
          on,
          labels,
          generate_all-made broken cfg files (record { machine = tls.machine; generated = [] })
              sound,
        )
        (
          refl,
          i,
          k,
          o,
          made-All (λ x. IsConfigured env fips l g x) cfg files
              (update_tls-IsConfigured env fips l g),
        )

  -- Where MQ_NATIVE_HA is true, no key or certificate is mounted for Native HA, the directory of the key
  -- stores can be made, and no template fails, ConfigureNativeHA succeeds without the file of the key
  -- store, and every file that it makes has TLS exactly if a local group is named.
  pub unmounted_native_ha :
      eq_text (getenv env (codes "MQ_NATIVE_HA")) (codes "true") ≡ true
      → h.unwritable (codes "/run/runmqserver/ha/tls/") ≡ false
      → have_keys_and_certs mounts (codes "/etc/mqm/ha/pki/keys") ≡ false
      → have_keys_and_certs mounts (codes "/etc/mqm/groupha/pki/keys") ≡ false
      → have_keys_and_certs mounts (codes "/etc/mqm/groupha/pki/trust") ≡ false
      → ((t : Text) → broken t ≡ false)
      → let fs = at_start.0.generated in
        (at_start.1 ≡ ok tt)
        × (has_output (codes "/run/10-native-ha-keystore.ini") fs ≡ false)
        × All
            (λ (f : Generated).
              should_configure_tls f.config
              ≡ is_set (getenv env (codes "MQ_NATIVE_HA_GROUP_LOCAL_NAME")))
            fs
  unmounted_native_ha on w a b d sound =
      let (fine, i, k, o, all) =
        configure_native_ha_lem [] [] on
          (ap (λ r. r.1) (unmounted_lem c mounts env h fips password m w a b d)) sound in
      (
        fine,
        k,
        All-weaken (λ f (p : IsConfigured env fips [] [] f.config). p.tls) at_start.0.generated all,
      )
