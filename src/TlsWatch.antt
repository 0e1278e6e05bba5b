-- ===== src/TlsWatch.antt =====
-- internal/metrics/tlswatch.go: the certificate of the metrics server, and its updates from the files on
-- disk. crypto/tls and crypto/x509 are arguments: `x509_key_pair` of a chain and a key, and the serial
-- number of a pair's certificate. What triggers an update, and when, is any sequence of them.
pub mod Latest
mod Tests
use mq_container.Base.{
  ℕ, Bool, true, false, not, ◌&&◌, List, [], ◌∷◌, ◌++◌, Option, none, some, Text, codes, eq_text,
  ◌==◌, if◌then◌else◌,
}

-- what `os.ReadFile` gives
pub data ReadResult : Type 0 where
  missing unreadable : ReadResult
  content : Text → ReadResult

-- The files tls.crt, ca.crt and tls.key at the time of an update.
pub record Directory : Type 0 where
  pub tls_crt : ReadResult
  pub ca_crt : ReadResult
  pub tls_key : ReadResult

-- `len(certPEM) > 0 && certPEM[len(certPEM)-1] != '\n'`
unfoldable pub lacks_newline : Text → Bool
lacks_newline [] = false
lacks_newline (c ∷ []) = not (c == b'\n')
lacks_newline (c ∷ d ∷ t) = lacks_newline (d ∷ t)

-- the loop of `updateCert` over the certificate files
unfoldable pub append_files : Text → List ReadResult → Option Text
append_files cert_pem [] = some cert_pem
append_files cert_pem (missing ∷ rest) = append_files cert_pem rest
append_files cert_pem (unreadable ∷ rest) = none
append_files cert_pem (content cert ∷ rest) =
    append_files (cert_pem ++ (if lacks_newline cert_pem then cert ++ b'\n' ∷ [] else cert)) rest

unfoldable pub read_chain : Directory → Option Text
read_chain dir = append_files [] (dir.tls_crt ∷ dir.ca_crt ∷ [])

-- A key file that is missing is an error too.
abbrev pub read_key : ReadResult → Option Text
read_key missing = none
read_key unreadable = none
read_key (content key) = some key

-- `certificateMonitor`: `cert` and `certSerial`
pub record Monitor {ℓ} (Pair : Type ℓ) : Type ℓ where
  pub cert : Option Pair
  pub cert_serial : Text

-- `newCertificateMonitor`
abbrev pub new_monitor {ℓ} : {Pair : Type ℓ} → Monitor Pair
new_monitor = record { cert = none; cert_serial = [] }

-- `latestCert`
unfoldable pub latest_cert {ℓ} : {Pair : Type ℓ} → Monitor Pair → Option Pair
latest_cert cm = cm.cert

module _ {ℓ} {Pair : Type ℓ} (x509_key_pair : Text → Text → Option Pair)
    (serial : Pair → Option Text) where
  -- `updateCert` behind `ParseCertificate`; the flag is success.
  unfoldable pub install_serial : Pair → Option Text → Monitor Pair → Monitor Pair × Bool
  install_serial new_cert_pair none cm = (cm, false)
  install_serial new_cert_pair (some s) cm =
      (record { cert = some new_cert_pair; cert_serial = s }, true)

  -- `updateCert` behind `X509KeyPair`
  unfoldable pub install_pair : Option Pair → Monitor Pair → Monitor Pair × Bool
  unfolding install_serial
  install_pair none cm = (cm, false)
  install_pair (some new_cert_pair) cm = install_serial new_cert_pair (serial new_cert_pair) cm

  -- `updateCert` behind the reads of the chain and of the key
  unfoldable pub install : Option Text → Option Text → Monitor Pair → Monitor Pair × Bool
  unfolding install_pair
  install none key cm = (cm, false)
  install (some cert_pem) none cm = (cm, false)
  install (some cert_pem) (some key_pem) cm = install_pair (x509_key_pair cert_pem key_pem) cm

  -- `updateCert`
  unfoldable pub update_cert : Directory → Monitor Pair → Monitor Pair × Bool
  unfolding install
  update_cert dir cm = install (read_chain dir) (read_key dir.tls_key) cm

  -- The updates that `watch` triggers, one after the other: an error is logged, and the next one tried.
  unfoldable pub watch : List Directory → Monitor Pair → Monitor Pair
  watch [] cm = cm
  watch (dir ∷ later) cm = watch later (update_cert dir cm).0

  -- `loadAndWatchCertificates`: there is no monitor if the first update fails, or if the watch on the
  -- directory cannot be set up.
  unfoldable pub load_and_watch : Bool → Directory → List Directory → Option (Monitor Pair)
  load_and_watch watch_set_up dir later =
      let (cm, loaded) = update_cert dir new_monitor in
      if loaded && watch_set_up then some (watch later cm) else none
