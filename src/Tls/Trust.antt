-- ===== src/Tls/Trust.antt =====
-- internal/tls/tls.go: the trusted certificates, added to both stores.
use mq_container.Base.{
  ℕ, ◌+◌, Bool, true, false, not, ◌&&◌, List, [], ◌∷◌, ◌++◌, Option, none, some, Text, codes,
  trim_space, length, if◌then◌else◌,
}
use mq_container.Base.Decimal.{itoa}
use mq_container.Machine.{
  Act, ◌>>=◌, ◌>>◌, return, fail, Machine, Host, Stat, found, missing, stat_error, stat, remove,
  write_file,
}
use mq_container.Keystore.{KeyStore}
use mq_container.Keystore.Commands.{add_no_label, list_all_certificates, rename_certificate}
use mq_container.Tls.{
  Crypto, Mounts, TlsState, Which, cms, p12, store_of, on_machine, of_option, with_state,
  with_keystore, add_to_known_certificates, for_blocks, for_names, trim_char, clean_path, when,
  is_crt,
}
use mq_container.Tls.Keys.{has_truststore}

-- `pem.Encode` of one certificate after the other
unfoldable pub encode_all : Crypto → List Text → Option Text
encode_all c [] = some []
encode_all c (b ∷ blocks) = elim (c.encode b) [
  | none ↦ none
  | some t ↦ elim (encode_all c blocks) [ none ↦ none | some ts ↦ some (t ++ ts) ]
]

abbrev pub is_empty {ℓ} : {A : Type ℓ} → List A → Bool
is_empty [] = true
is_empty (x ∷ xs) = false

-- the name of the `n`th trusted certificate
abbrev pub trust_label : ℕ → Text
trust_label n = codes "Trust" ++ itoa n

module _ (c : Crypto) (mounts : Mounts) (h : Host) where
  -- `writeCertificatesToFile`. What an error leaves in the file is not followed.
  unfoldable pub write_certificates_to_file : Text → List Text → Act TlsState (Unit {0})
  unfolding encode_all
  write_certificates_to_file file certificates = do
    text ← of_option (encode_all c certificates)
    on_machine (write_file h file text)

  abbrev pub remove_at : Text → Stat → Act TlsState (Unit {0})
  remove_at file found = on_machine (remove h file)
  remove_at file missing = return tt
  remove_at file stat_error = return tt

  -- the temporary file, removed if it is there
  unfoldable pub remove_old : Text → Act TlsState (Unit {0})
  unfolding with_state
  remove_old file = with_state λ s. remove_at file (stat h file s.machine)

  -- the certificates of a store written to a file, which is added to the store
  unfoldable pub add_trusted : Which → Text → Act TlsState (Unit {0})
  unfolding write_certificates_to_file remove_old with_state
  add_trusted which file = with_state λ s. (do
    remove_old file
    write_certificates_to_file file (store_of which s).trusted_certs
    with_keystore which (λ ks. add_no_label h ks file))

  abbrev pub rename_trusted : ℕ → Text → KeyStore → Act Machine (Unit {0})
  rename_trusted i certificate ks =
      rename_certificate h ks (trim_space (trim_char b'"' certificate)) (trust_label i)

  -- All certificates renamed in the order of the list, from number `i`.
  unfoldable pub relabel_all : ℕ → List Text → Act TlsState (Unit {0})
  relabel_all i [] = return tt
  relabel_all i (certificate ∷ certificates) =
      with_keystore p12 (rename_trusted i certificate) >> relabel_all (i + 1) certificates

  -- `addCertificatesToTruststore`
  unfoldable pub add_certificates_to_truststore : Act TlsState (Unit {0})
  unfolding add_trusted relabel_all
  add_certificates_to_truststore = do
    add_trusted p12 (codes "/tmp/trust.pem")
    certificates ← with_keystore p12 (list_all_certificates h)
    when (is_empty certificates) fail
    relabel_all 0 certificates

  -- `addCertificatesToCMSKeystore`
  unfoldable pub add_certificates_to_cms_keystore : Act TlsState (Unit {0})
  unfolding add_trusted
  add_certificates_to_cms_keystore = add_trusted cms (codes "/tmp/cmsTrust.pem")

  -- a certificate to trust
  unfoldable pub trust_block : Text → Unit {0} → Act TlsState (Unit {0})
  unfolding has_truststore with_state
  trust_block block u = with_state λ s. (do
    _ ← add_to_known_certificates c cms block true
    _ ← (if has_truststore s then add_to_known_certificates c p12 block true else return false)
    return tt)

  unfoldable pub trust_file : Text → Text → Unit {0} → Act TlsState (Unit {0})
  unfolding trust_block
  trust_file dir name u =
      if is_crt name
      then (do
        file ← of_option (mounts.read_file (clean_path dir name))
        for_blocks c (length file) file trust_block tt)
      else return tt

  unfoldable pub trust_set : Text → Text → Unit {0} → Act TlsState (Unit {0})
  unfolding trust_file
  trust_set trust_dir name u =
      for_names (mounts.read_dir (clean_path trust_dir name))
        (trust_file (clean_path trust_dir name)) tt

  unfoldable pub add_to_stores : Act TlsState (Unit {0})
  unfolding add_certificates_to_truststore add_certificates_to_cms_keystore has_truststore
      with_state
  add_to_stores = do
    with_state λ s.
        when (has_truststore s && not (is_empty s.truststore.trusted_certs))
          add_certificates_to_truststore
    with_state λ s. when (not (is_empty s.keystore.trusted_certs)) add_certificates_to_cms_keystore

  -- `processTrustCertificates`
  unfoldable pub process_trust_certificates : Text → Act TlsState (Unit {0})
  unfolding trust_set add_to_stores
  process_trust_certificates trust_dir = do
    for_names (mounts.read_dir trust_dir) (trust_set trust_dir) tt
    add_to_stores
