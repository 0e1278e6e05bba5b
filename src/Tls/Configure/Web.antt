-- ===== src/Tls/Configure/Web.antt =====
-- internal/tls/tls_web.go: the key store of the web server, and its TLS settings.
use mq_container.Base.{
  Bool, ◌&&◌, List, [], ◌∷◌, ◌++◌, Option, none, some, Text, codes, eq_text, Env, getenv,
  if◌then◌else◌,
}
use mq_container.Ready.{ok, failed}
use mq_container.Machine.{Act, ◌>>=◌, ◌>>◌, return, Machine, Host, found, missing, stat_error, stat}
use mq_container.Keystore.{new_pkcs12_key_store, create}
use mq_container.Keystore.Commands.{create_self_signed_certificate}
use mq_container.Tls.{KeyStoreData, clean_path, of_option}
use mq_container.Tls.Trust.{is_empty}
use mq_container.Tls.Configure.{Settings, process_template}

abbrev pub trust_ref : List Text → Text
trust_ref certs = if is_empty certs then codes "MQWebKeyStore" else codes "MQWebTrustStore"

-- A password that could not be encoded is left empty.
abbrev pub password_or_empty : Option Text → Text
password_or_empty none = []
password_or_empty (some p) = p

-- `ConfigureWebTLS`; `encode` is `securityutility.EncodeSecrets`.
unfoldable pub configure_web_tls :
    Env
    → (Text → Bool)
    → (Text → Option Text)
    → Text
    → Text
    → KeyStoreData
    → Act Settings (Unit {0})
configure_web_tls env broken encode key_label web_keystore d =
    if eq_text key_label [] && eq_text (getenv env (codes "MQ_GENERATE_CERTIFICATE_HOSTNAME")) []
    then return tt
    else process_template broken record {
      template = codes "/etc/mqm/web/installations/Installation1/servers/mqweb/tls.xml.tpl";
      link = codes "/run/tls.xml";
      values =
          (codes "password", password_or_empty (encode d.password))
          ∷ (codes "webKeystore", web_keystore)
          ∷ (codes "webTruststoreRef", trust_ref d.trusted_certs)
          ∷ [];
    }

unfoldable pub must_exist : Host → Text → Act Machine (Unit {0})
must_exist h path m = elim (stat h path m) [
  | found ↦ (m, ok tt)
  | missing ↦ (m, failed)
  | stat_error ↦ (m, failed)
]

abbrev pub web_keystore_name : Text → Text
web_keystore_name key_label =
    if eq_text key_label [] then codes "default.p12" else key_label ++ codes ".p12"

-- a new key store with a certificate of its own
unfoldable pub make_web_keystore : Env → Host → Bool → Text → Text → Act Machine (Unit {0})
make_web_keystore env h fips file password = do
  let gen_host_name = getenv env (codes "MQ_GENERATE_CERTIFICATE_HOSTNAME")
  create h (new_pkcs12_key_store fips file password)
  create_self_signed_certificate h (new_pkcs12_key_store fips file password) (codes "default")
      (codes "CN=" ++ gen_host_name) gen_host_name

-- `ConfigureWebKeystore`
unfoldable pub configure_web_keystore : Env → Host → Bool → KeyStoreData → Text → Act Machine Text
unfolding make_web_keystore must_exist
configure_web_keystore env h fips d key_label = do
  let file = clean_path (codes "/run/runmqserver/tls/") (web_keystore_name key_label)
  if eq_text key_label [] then make_web_keystore env h fips file d.password else must_exist h file
  truststore ← of_option d.keystore
  must_exist h truststore.filename
  return (web_keystore_name key_label)
