-- ===== src/Tls/Sets.antt =====
-- internal/tls/tls.go: one set of keys imported into the CMS key store, and the loop over the sets.
use mq_container.Base.{
  Bool, true, false, not, ◌&&◌, ◌||◌, List, [], ◌∷◌, ◌++◌, Option, none, some, Text, codes, eq_text,
  map, to_lower, equal_fold, Env, ltb, if◌then◌else◌,
}
use mq_container.Ready.{ok}
use mq_container.Machine.{Act, ◌>>=◌, ◌>>◌, return, fail, Host, write_file}
use mq_container.Keystore.Commands.{import_certs, get_certificate_labels, rename_certificate}
use mq_container.Tls.{
  Certificate, Crypto, Mounts, TlsState, cms, on_machine, of_option, with_state, with_keystore,
  member, for_names, trim_char, clean_path, when,
}
use mq_container.Tls.Keys.{ProcessedKey, Certificates, process_private_key, process_certificates}

-- `strings.EqualFold`, exact for ASCII
abbrev pub fold_equal : Text → Text → Bool
fold_equal s t = eq_text (map to_lower s) (map to_lower t)

abbrev pub is_validated : Option Text → Bool
is_validated none = true
is_validated (some v) = not (equal_fold v (codes "false"))

abbrev pub same_subject : Certificate → List Certificate → Bool
same_subject personal [] = false
same_subject personal (ca ∷ cas) =
    fold_equal personal.subject ca.subject || same_subject personal cas

-- `validateCertificates`: whether there is no error
unfoldable pub validate_certificates : Env → Certificate → List Certificate → Bool
validate_certificates env personal cas =
    not (is_validated (env (codes "MQ_ENABLE_CERT_VALIDATION")) && same_subject personal cas)

-- The first label, without its quotes, that the code has not given itself.
unfoldable pub unlabelled : List Text → List Text → Option Text
unlabelled known [] = none
unlabelled known (label ∷ labels) =
    if member (trim_char b'"' label) known
    then unlabelled known labels
    else some (trim_char b'"' label)

unfoldable pub add_key_label : Text → Act TlsState (Unit {0})
add_key_label l s = (
  record s { keystore = record s.keystore { key_labels = s.keystore.key_labels ++ l ∷ [] } },
  ok tt,
)

-- the label of the first set that has one
abbrev pub first_label : Text → Text → Text
first_label key_label label = if eq_text key_label [] then label else key_label

module _ (c : Crypto) (mounts : Mounts) (env : Env) (h : Host) where
  -- `relabelCertificate`
  unfoldable pub relabel_certificate : Text → Act TlsState (Unit {0})
  unfolding unlabelled member with_state add_key_label
  relabel_certificate new_label = do
    labels ← with_keystore cms (get_certificate_labels h)
    label ← with_state λ s. of_option (unlabelled s.keystore.key_labels labels)
    with_keystore cms (λ ks. rename_certificate h ks label new_label)
    add_key_label new_label

  -- a key with its certificates, put into a PKCS#12 file, imported and relabelled
  unfoldable pub import_key_set :
      Text → Text → Text → Certificate → List Certificate → Act TlsState (Unit {0})
  unfolding relabel_certificate validate_certificates with_state
  import_key_set keystore_dir key_set key public_certificate cas = with_state λ s. (do
    when (not (validate_certificates env public_certificate cas)) fail
    file ← of_option (c.encode_pkcs12 key public_certificate cas s.keystore.password)
    on_machine (write_file h (clean_path keystore_dir (key_set ++ codes ".p12")) file)
    with_keystore cms (λ ks.
        import_certs h ks (clean_path keystore_dir (key_set ++ codes ".p12")) s.keystore.password)
    relabel_certificate key_set)

  -- a set whose key and certificates have been read
  unfoldable pub load_key_set :
      Text → Text → Text → Text → ProcessedKey → Certificates → Act TlsState Text
  unfolding import_key_set
  load_key_set keystore_dir key_set key_label key k l =
      if not (eq_text k.previous_label []) && not (ltb 0 l.new_public_count)
      then return (first_label key_label k.previous_label)
      else (do
        public_certificate ← of_option l.public_certificate
        import_key_set keystore_dir key_set key public_certificate l.ca_certificate
        return (first_label key_label key_set))

  -- Without a private key the set is skipped.
  unfoldable pub with_key :
      Text → Text → Text → Text → List Text → ProcessedKey → Option Text → Act TlsState Text
  unfolding process_certificates load_key_set
  with_key keystore_dir key_dir key_set key_label keys k none = return key_label
  with_key keystore_dir key_dir key_set key_label keys k (some key) = do
    l ← process_certificates c mounts key_dir key_set k.prefix keys
    load_key_set keystore_dir key_set key_label key k l

  unfoldable pub process_key_set : Text → Text → Text → Text → Act TlsState Text
  unfolding process_private_key with_key
  process_key_set keystore_dir key_dir key_set key_label =
      let keys = mounts.read_dir (clean_path key_dir key_set) in
      if eq_text key_set (codes "trust") then fail else (do
        k ← process_private_key c mounts key_dir key_set keys
        with_key keystore_dir key_dir key_set key_label keys k k.key)

  -- `processKeys`
  unfoldable pub process_keys : Text → Text → Act TlsState Text
  unfolding process_key_set
  process_keys keystore_dir key_dir =
      for_names (mounts.read_dir key_dir) (process_key_set keystore_dir key_dir) []
