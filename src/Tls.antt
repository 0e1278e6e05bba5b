-- ===== src/Tls.antt =====
-- internal/tls/tls.go: the data of the CMS key store and the PKCS#12 trust store, the set of known
-- certificates of each, and the loop over the PEM blocks of a file. What crypto/x509, encoding/pem
-- and go-pkcs12 give is a record of functions, and so is what the mounted directories hold.
pub mod Keys
pub mod Sets
pub mod Trust
pub mod Configure
pub mod Known
pub mod Blocks
pub mod KeySets
pub mod KeyLabel
pub mod Unmounted
mod Tests
use mq_container.Base.{
  ℕ, zero, suc, Bool, true, false, not, ◌&&◌, ◌||◌, List, [], ◌∷◌, ◌++◌, reverse, Option, none,
  some, Text, codes, eq_text, drop_while, has_suffix, length, ◌==◌, if◌then◌else◌,
}
use mq_container.Ready.{Outcome, ok, failed}
use mq_container.Machine.{Act, ◌>>=◌, ◌>>◌, return, fail, Machine}
use mq_container.Keystore.{KeyStore}

-- what the code reads of an `x509.Certificate`
pub record Certificate : Type 0 where
  pub raw : Text
  pub subject : Text

-- `pem.Decode` gives the next block and what follows it. `fingerprint` is `sha512.Sum512` in
-- hexadecimal, and a private key stands for its `crypto.PrivateKey`.
pub record Crypto : Type 0 where
  pub decode : Text → Option (Text × Text)
  pub encode : Text → Option Text
  pub parse_pkcs1 : Text → Option Text
  pub parse_pkcs8 : Text → Option Text
  pub equal_keys : Text → Text → Bool
  -- whether a key can be the key of a map; one that is a slice cannot
  pub hashable : Text → Bool
  pub parse_certificate : Text → Option Certificate
  pub fingerprint : Text → Text
  pub encode_pkcs12 : Text → Certificate → List Certificate → Text → Option Text

-- The names in a directory, none where it cannot be read, and the files.
pub record Mounts : Type 0 where
  pub read_dir : Text → List Text
  pub read_file : Text → Option Text

-- `privateKeyInfo`
pub record PrivateKeyInfo : Type 0 where
  pub key_set_name : Text
  pub directory : Text
  pub file_name : Text

-- `KeyStoreData`; the map from private keys is a list, since `Equal` holds of one key at most.
pub record KeyStoreData : Type 0 where
  pub keystore : Option KeyStore
  pub password : Text
  pub trusted_certs : List Text
  pub known_finger_prints : List Text
  pub key_labels : List Text
  pub key_label_lookup : List (Text × PrivateKeyInfo)

-- `TLSStore`, with the machine that its key stores are on
pub record TlsState : Type 0 where
  pub machine : Machine
  pub keystore : KeyStoreData
  pub truststore : KeyStoreData

-- Which of the two stores a call is for.
pub data Which : Type 0 where
  cms p12 : Which

abbrev pub store_of : Which → TlsState → KeyStoreData
store_of cms s = s.keystore
store_of p12 s = s.truststore

abbrev pub set_store : Which → KeyStoreData → TlsState → TlsState
set_store cms d s = record s { keystore = d }
set_store p12 d s = record s { truststore = d }

-- An action on the machine, and one that needs a key store.
abbrev pub on_machine : {A : Type 0} → Act Machine A → Act TlsState A
on_machine act s = let r = act s.machine in (record s { machine = r.0 }, r.1)

abbrev pub of_option : {S A : Type 0} → Option A → Act S A
of_option none = fail
of_option (some a) = return a

-- An action that reads the state first.
unfoldable pub with_state : {S A : Type 0} → (S → Act S A) → Act S A
with_state act s = act s s

abbrev pub with_keystore : {A : Type 0} → Which → (KeyStore → Act Machine A) → Act TlsState A
with_keystore which use_it s =
    (do ks ← of_option (store_of which s).keystore; on_machine (use_it ks)) s

abbrev pub is_some {ℓ} : {A : Type ℓ} → Option A → Bool
is_some none = false
is_some (some a) = true

unfoldable pub member : Text → List Text → Bool
member t [] = false
member t (u ∷ us) = eq_text u t || member t us

-- `getCertificateFingerprint`
unfoldable pub get_certificate_fingerprint : Crypto → Text → Option Text
get_certificate_fingerprint c block = elim (c.parse_certificate block) [
  | none ↦ none
  | some certificate ↦ some (c.fingerprint certificate.raw)
]

-- a certificate that is known from now on
unfoldable pub note_certificate : Text → Text → Bool → KeyStoreData → KeyStoreData
note_certificate block sha512str add_to_keystore d =
    if member sha512str d.known_finger_prints then d else record d {
      trusted_certs = if add_to_keystore then d.trusted_certs ++ block ∷ [] else d.trusted_certs;
      known_finger_prints = d.known_finger_prints ++ sha512str ∷ [];
    }

-- `addToKnownCertificates`
unfoldable pub add_to_known_certificates : Crypto → Which → Text → Bool → Act TlsState Bool
unfolding get_certificate_fingerprint note_certificate member
add_to_known_certificates c which block add_to_keystore s =
    elim (get_certificate_fingerprint c block) [
      | none ↦ (s, failed)
      | some sha512str ↦ (
        set_store which (note_certificate block sha512str add_to_keystore (store_of which s)) s,
        ok (not (member sha512str (store_of which s).known_finger_prints)),
      )
    ]

-- `for string(file) != ""` around `pem.Decode`, for at most `n` blocks; a loop that has not ended by
-- then gives the error here.
unfoldable pub for_blocks : {S A : Type 0} → Crypto → ℕ → Text → (Text → A → Act S A) → A → Act S A
for_blocks c zero [] act a = return a
for_blocks c zero (x ∷ file) act a = fail
for_blocks c (suc n) [] act a = return a
for_blocks c (suc n) (x ∷ file) act a = elim (c.decode (x ∷ file)) [
  | none ↦ return a
  | some (block, rest) ↦ act block a >>= for_blocks c n rest act
]

-- A loop over names in which an error returns.
unfoldable pub for_names : {S A : Type 0} → List Text → (Text → A → Act S A) → A → Act S A
for_names [] act a = return a
for_names (n ∷ names) act a = act n a >>= for_names names act

-- `strings.Trim` of one character
unfoldable pub trim_char : ℕ → Text → Text
trim_char d s =
    let left = drop_while (λ c. c == d) s in reverse (drop_while (λ c. c == d) (reverse left))

-- `pathutils.CleanPath(dir, name)` for an absolute path and a name from a directory
unfoldable pub clean_path : Text → Text → Text
unfolding trim_char
clean_path dir name = reverse (drop_while (λ c. c == b'/') (reverse dir)) ++ b'/' ∷ name

abbrev pub when : {S : Type 0} → Bool → Act S (Unit {0}) → Act S (Unit {0})
when true act = act
when false act = return tt

abbrev pub is_crt : Text → Bool
is_crt name = has_suffix name (codes ".crt")
