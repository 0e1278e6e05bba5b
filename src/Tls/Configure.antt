-- ===== src/Tls/Configure.antt =====
-- internal/tls/tls.go: the key stores of the queue manager and of Native HA made from the mounted
-- directories, and the TLS settings of the queue manager. tls_web.go has those of the web server.
pub mod Web
pub mod Password
use mq_container.Base.{
  ℕ, zero, suc, ◌+◌, ◌%◌, Bool, true, false, not, ◌&&◌, ◌||◌, List, [], ◌∷◌, ◌++◌, reverse, Option,
  none, some, Text, codes, eq_text, has_suffix, has_prefix, map, Env, getenv, ltb, ◌==◌,
  if◌then◌else◌, length,
}
use mq_container.Ready.{Outcome, ok, failed}
use mq_container.Machine.{Act, ◌>>=◌, ◌>>◌, return, fail, Machine, Host}
use mq_container.Keystore.{KeyStore, new_cms_key_store, new_pkcs12_key_store, create, without_ext}
use mq_container.Keystore.Commands.{list_all_certificates}
use mq_container.Tls.{
  Crypto, Mounts, KeyStoreData, TlsState, on_machine, of_option, with_state, is_some, for_names,
  clean_path, when, is_crt,
}
use mq_container.Tls.Sets.{process_keys}
use mq_container.Tls.Trust.{process_trust_certificates, is_empty}

abbrev pub valid_chars : Text
valid_chars = codes "ABCDEFGHIJKLMNOPQRSTUVWXYZabcdefghijklmnopqrstuvwxyz0123456789"

unfoldable pub char_at : ℕ → Text → ℕ
char_at n [] = 0
char_at zero (c ∷ s) = c
char_at (suc n) (c ∷ s) = char_at n s

-- `generateRandomPassword` over the random bytes
unfoldable pub generate_random_password : List ℕ → Text
unfolding char_at
generate_random_password = map (λ b. char_at (b % length valid_chars) valid_chars)

abbrev pub any_name : (Text → Bool) → List Text → Bool
any_name p [] = false
any_name p (n ∷ names) = p n || any_name p names

abbrev pub is_key_or_crt : Text → Bool
is_key_or_crt name = has_suffix name (codes ".key") || is_crt name

-- `haveKeysAndCerts`
unfoldable pub have_keys_and_certs : Mounts → Text → Bool
have_keys_and_certs mounts key_dir =
    any_name (λ set. any_name is_key_or_crt (mounts.read_dir (clean_path key_dir set)))
      (mounts.read_dir key_dir)

abbrev pub empty_store : Text → KeyStoreData
empty_store password = record {
  keystore = none;
  password = password;
  trusted_certs = [];
  known_finger_prints = [];
  key_labels = [];
  key_label_lookup = [];
}

abbrev pub cms_path : Text → Text
cms_path keystore_dir = clean_path keystore_dir (codes "key.kdb")

abbrev pub p12_path : Text → Text
p12_path keystore_dir = clean_path keystore_dir (codes "trust.p12")

abbrev pub head_label : List Text → Text
head_label [] = []
head_label (l ∷ ls) = l

-- Another number of labels is an error.
abbrev pub both_labels : List Text → Option (Text × Text)
both_labels (a ∷ b ∷ []) = some (a, b)
both_labels _ = none

abbrev pub fresh : Text → Machine → TlsState
fresh password m = record {
  machine = m;
  keystore = empty_store password;
  truststore = empty_store password;
}

module _ (h : Host) (fips : Bool) (password : Text) where
  unfoldable pub create_cms_keystore : Text → Act TlsState (Unit {0})
  create_cms_keystore keystore_dir s =
      let ks = new_cms_key_store fips (cms_path keystore_dir) password in
      on_machine (create h ks) (record s { keystore = record s.keystore { keystore = some ks } })

  unfoldable pub create_p12_truststore : Text → Act TlsState (Unit {0})
  create_p12_truststore keystore_dir s =
      let ks = new_pkcs12_key_store fips (p12_path keystore_dir) password in
      on_machine (create h ks)
        (record s { truststore = record s.truststore { keystore = some ks } })

  -- `generateAllKeystores`, on the stores that it begins with
  unfoldable pub generate_all_keystores : Text → Bool → Bool → Act TlsState (Unit {0})
  unfolding create_cms_keystore create_p12_truststore
  generate_all_keystores keystore_dir create_cms p12_truststore_required = do
    when (h.unwritable keystore_dir) fail
    when create_cms (create_cms_keystore keystore_dir)
    when p12_truststore_required (create_p12_truststore keystore_dir)

module _ (c : Crypto) (mounts : Mounts) (env : Env) (h : Host) (fips : Bool) (password : Text) where
  -- The labels of the key directories; without a CMS key store they stay empty.
  unfoldable pub label_key_dir : Text → Text → List Text → Act TlsState (List Text)
  unfolding with_state
  label_key_dir keystore_dir key_dir labels = with_state λ s.
      if is_some s.keystore.keystore
      then (do
        label ← process_keys c mounts env h keystore_dir key_dir
        return (labels ++ label ∷ []))
      else return (labels ++ [] ∷ [])

  -- `configureTLSKeystores`
  unfoldable pub configure_tls_keystores :
      Text → List Text → List Text → Bool → Act TlsState (List Text)
  unfolding label_key_dir generate_all_keystores have_keys_and_certs
  configure_tls_keystores keystore_dir key_dirs trust_dirs p12_truststore_required = do
    generate_all_keystores h fips password keystore_dir
        (any_name (have_keys_and_certs mounts) (key_dirs ++ trust_dirs)) p12_truststore_required
    labels ← for_names key_dirs (label_key_dir keystore_dir) []
    for_names trust_dirs (λ dir u. process_trust_certificates c mounts h dir) tt
    return labels

  unfoldable pub default_label : Act TlsState Text
  unfolding configure_tls_keystores
  default_label = do
    labels ←
        configure_tls_keystores (codes "/run/runmqserver/tls/") (codes "/etc/mqm/pki/keys" ∷ [])
          (codes "/etc/mqm/pki/trust" ∷ []) true
    return (head_label labels)

  unfoldable pub ha_labels : Act TlsState (Text × Text)
  unfolding configure_tls_keystores
  ha_labels = do
    labels ←
        configure_tls_keystores (codes "/run/runmqserver/ha/tls/")
          (codes "/etc/mqm/ha/pki/keys" ∷ codes "/etc/mqm/groupha/pki/keys" ∷ [])
          (codes "/etc/mqm/groupha/pki/trust" ∷ []) false
    of_option (both_labels labels)

  -- `ConfigureDefaultTLSKeystores`
  unfoldable pub configure_default_tls_keystores : Machine → TlsState × Outcome Text
  unfolding default_label
  configure_default_tls_keystores m = default_label (fresh password m)

  -- `ConfigureHATLSKeystore`
  unfoldable pub configure_ha_tls_keystore : Machine → TlsState × Outcome (Text × Text)
  unfolding ha_labels
  configure_ha_tls_keystore m = ha_labels (fresh password m)

-- A template that is filled in: its file, the file that is written, and the values.
pub record Template : Type 0 where
  pub template : Text
  pub link : Text
  pub values : List (Text × Text)

pub record Settings : Type 0 where
  pub machine : Machine
  pub processed : List Template

-- `mqtemplate.ProcessTemplateFile`; `broken` says for which template it fails.
unfoldable pub process_template : (Text → Bool) → Template → Act Settings (Unit {0})
process_template broken t s =
    if broken t.template
    then (s, failed)
    else (record s { processed = s.processed ++ t ∷ [] }, ok tt)

-- `strings.TrimSuffix(s, ".kdb")`
unfoldable pub trim_kdb : Text → Text
trim_kdb s = if has_suffix s (codes ".kdb") then without_ext s else s

abbrev pub yes_no : Bool → Text
yes_no b = if b then codes "YES" else codes "NO"

-- Whether the key store lists a certificate; an error counts as none.
abbrev pub lists_some : Outcome (List Text) → Bool
lists_some failed = false
lists_some (ok ls) = not (is_empty ls)

-- The key ring and the FIPS setting of `ConfigureTLS`.
unfoldable pub key_ring : Host → Text → Option KeyStore → Settings → Settings × Text × Text
unfolding trim_kdb
key_ring h key_label none s = (s, [], codes "NO")
key_ring h [] (some ks) s = (s, [], codes "NO")
key_ring h (l ∷ ls) (some ks) s =
    let r = list_all_certificates h ks s.machine in
    (
      record s { machine = r.0 },
      (if lists_some r.1 then trim_kdb ks.filename else []),
      yes_no ks.fips_enabled,
    )

abbrev pub tls_template : Text → Text → Text → Template
tls_template ring key_label fips = record {
  template = codes "/etc/mqm/15-tls.mqsc.tpl";
  link = codes "/run/15-tls.mqsc";
  values =
      (codes "SSLKeyR", ring)
      ∷ (codes "CertificateLabel", key_label)
      ∷ (codes "SSLFips", fips)
      ∷ [];
}

abbrev pub dev_template : Template
dev_template = record {
  template = codes "/etc/mqm/20-dev-tls.mqsc.tpl";
  link = codes "/run/20-dev-tls.mqsc";
  values = [];
}

abbrev pub when_set : Bool → Act Settings (Unit {0}) → Act Settings (Unit {0})
when_set b act = if b then act else return tt

-- `ConfigureTLS`, with `configureTLSDev`
unfoldable pub configure_tls :
    Host → Env → (Text → Bool) → Text → KeyStoreData → Bool → Act Settings (Unit {0})
unfolding key_ring process_template
configure_tls h env broken key_label d dev_mode s =
    let (s', ring, fips) = key_ring h key_label d.keystore s in
    (do
      process_template broken (tls_template ring key_label fips)
      when_set (dev_mode && not (eq_text key_label [])) (
          when_set (eq_text (getenv env (codes "MQ_DEV")) (codes "true"))
            (process_template broken dev_template)))
      s'
