-- ===== src/Tls/Keys.antt =====
-- internal/tls/tls.go: the sets of keys, each with a private key, its certificate and the
-- certificates above it, which are imported into the CMS key store.
use mq_container.Base.{
  ℕ, ◌+◌, Bool, true, false, ◌&&◌, List, [], ◌∷◌, ◌++◌, Option, none, some, Text, codes, has_prefix,
  has_suffix, length, if◌then◌else◌,
}
use mq_container.Ready.{Outcome, ok, failed}
use mq_container.Machine.{Act, ◌>>=◌, return}
use mq_container.Keystore.{without_ext}
use mq_container.Tls.{
  Certificate, Crypto, Mounts, PrivateKeyInfo, TlsState, cms, p12, of_option, with_state, is_some,
  add_to_known_certificates, for_blocks, for_names, clean_path, is_crt,
}

-- The local variables of `processPrivateKey`.
pub record PrivateKey : Type 0 where
  pub key : Option Text
  pub prefix : Text
  pub info : PrivateKeyInfo

-- PKCS#1, and if it is not that, PKCS#8
abbrev pub parse_key : Crypto → Text → Option Text
parse_key c block = elim (c.parse_pkcs1 block) [ none ↦ c.parse_pkcs8 block | some k ↦ some k ]

-- What `processPrivateKey` returns: the key, the prefix of its files, and the label and directory of
-- the set that had the same key.
pub record ProcessedKey : Type 0 where
  pub key : Option Text
  pub prefix : Text
  pub previous_label : Text
  pub previous_directory : Text

unfoldable pub find_key : Crypto → Text → List (Text × PrivateKeyInfo) → Option PrivateKeyInfo
find_key c key [] = none
find_key c key ((k, info) ∷ others) =
    if c.equal_keys k key then some info else find_key c key others

-- The local variables of `processCertificates`.
pub record Certificates : Type 0 where
  pub public_certificate : Option Certificate
  pub ca_certificate : List Certificate
  pub new_public_count : ℕ

abbrev pub no_certificates : Certificates
no_certificates = record { public_certificate = none; ca_certificate = []; new_public_count = 0 }

abbrev pub count_new : Bool → Certificates → Certificates
count_new true l = record l { new_public_count = l.new_public_count + 1 }
count_new false l = l

unfoldable pub has_truststore : TlsState → Bool
has_truststore s = is_some s.truststore.keystore

abbrev pub processed : PrivateKey → Text → Text → Text → ProcessedKey
processed l key label directory = record {
  key = some key;
  prefix = l.prefix;
  previous_label = label;
  previous_directory = directory;
}

-- A key that some set had before, or a new one. A key that cannot be the key of a map is a panic, which
-- ends the action.
abbrev pub with_new_key :
    Bool → PrivateKey → Text → TlsState → Option PrivateKeyInfo → TlsState × Outcome ProcessedKey
with_new_key hashable l key s (some previous) =
    (s, ok (processed l key previous.key_set_name previous.directory))
with_new_key false l key s none = (s, failed)
with_new_key true l key s none = (
  record s {
    keystore = record s.keystore {
      key_label_lookup = s.keystore.key_label_lookup ++ (key, l.info) ∷ [];
    };
  },
  ok (processed l key [] []),
)

module _ (c : Crypto) (mounts : Mounts) where
  -- The loop of `processPrivateKey`: the last `.key` file counts.
  unfoldable pub read_key_file : Text → Text → Text → PrivateKey → Act TlsState PrivateKey
  read_key_file key_dir key_set_name name l =
      if has_suffix name (codes ".key")
      then (do
        file ← of_option (mounts.read_file (clean_path (clean_path key_dir key_set_name) name))
        block ← of_option (c.decode file)
        key ← of_option (parse_key c block.0)
        return record {
          key = some key;
          prefix = without_ext name;
          info = record {
            key_set_name = key_set_name;
            directory = clean_path key_dir key_set_name;
            file_name = name;
          };
        })
      else return l

  -- After the loop. Without a key file the private key is nil: no key equals it, and the cast to a
  -- comparable key fails.
  unfoldable pub known_or_new_key : PrivateKey → Act TlsState ProcessedKey
  unfolding find_key
  known_or_new_key l s = elim l.key [
    | none ↦ (s, failed)
    | some key ↦ with_new_key (c.hashable key) l key s (find_key c key s.keystore.key_label_lookup)
  ]

  abbrev pub no_key : PrivateKey
  no_key = record {
    key = none;
    prefix = [];
    info = record { key_set_name = []; directory = []; file_name = [] };
  }

  -- `processPrivateKey`
  unfoldable pub process_private_key : Text → Text → List Text → Act TlsState ProcessedKey
  unfolding read_key_file known_or_new_key
  process_private_key key_dir key_set_name keys = do
    l ← for_names keys (read_key_file key_dir key_set_name) no_key
    known_or_new_key l

  -- a block that is no public certificate of the key
  unfoldable pub add_ca_block : Text → Certificates → Act TlsState Certificates
  unfolding has_truststore with_state
  add_ca_block block l = with_state λ s. (do
    new_intermediate ← add_to_known_certificates c cms block false
    _ ← (if has_truststore s then add_to_known_certificates c p12 block true else return false)
    certificate ← of_option (c.parse_certificate block)
    return record (count_new new_intermediate l) {
      ca_certificate = l.ca_certificate ++ certificate ∷ [];
    })

  abbrev pub ca_blocks : Text → Certificates → Act TlsState Certificates
  ca_blocks file = for_blocks c (length file) file add_ca_block

  -- a file with the prefix of the key: its first block is the public certificate
  unfoldable pub add_public_file : Text → Certificates → Act TlsState Certificates
  unfolding add_ca_block
  add_public_file file l = do
    block ← of_option (c.decode file)
    certificate ← of_option (c.parse_certificate block.0)
    new_cert ← add_to_known_certificates c cms block.0 false
    ca_blocks block.1 (record (count_new new_cert l) { public_certificate = some certificate })

  unfoldable pub read_certificate_file :
      Text → Text → Text → Text → Certificates → Act TlsState Certificates
  unfolding add_public_file add_ca_block
  read_certificate_file key_dir key_set_name key_prefix name l =
      let path = clean_path (clean_path key_dir key_set_name) name in
      if has_prefix name key_prefix && is_crt name
      then (do file ← of_option (mounts.read_file path); add_public_file file l)
      else if is_crt name
      then (do file ← of_option (mounts.read_file path); ca_blocks file l)
      else return l

  -- `processCertificates`
  unfoldable pub process_certificates : Text → Text → Text → List Text → Act TlsState Certificates
  unfolding read_certificate_file
  process_certificates key_dir key_set_name key_prefix keys =
      for_names keys (read_certificate_file key_dir key_set_name key_prefix) no_certificates
