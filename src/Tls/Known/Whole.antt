-- ===== src/Tls/Known/Whole.antt =====
-- The whole configuration of the key stores keeps the invariant of their certificates.
use mq_container.Base.{Bool, List, Option, Text, Env, if-elim}
use mq_container.Machine.{Machine, Host}
use mq_container.Keystore.{KeyStore}
use mq_container.Tls.{Crypto, Mounts, KeyStoreData, is_some}
use mq_container.Tls.Known.{IsKnown}
use mq_container.Tls.Known.Steps.{AreKnown, Keeps, return-Keeps, kept, with_state-Keeps}
use mq_container.Tls.Known.Loads.{process_keys-Keeps, process_trust_certificates-Keeps}
use mq_container.Tls.Configure.{
  generate_all_keystores, create_cms_keystore, create_p12_truststore, label_key_dir,
  configure_tls_keystores, default_label, ha_labels, configure_default_tls_keystores,
  configure_ha_tls_keystore, fresh,
}

module _ (c : Crypto) (h : Host) (fips : Bool) (password : Text) where
  same_certificates :
      (d : KeyStoreData) (ks : Option KeyStore)
      → IsKnown c d
      → IsKnown c (record d { keystore = ks })
  same_certificates d ks k = record {
    known_once = k.known_once;
    trusted_known = k.trusted_known;
    trusted_once = k.trusted_once;
  }

  create_cms_keystore-Keeps : (dir : Text) → Keeps c (create_cms_keystore h fips password dir)
  unfolding create_cms_keystore
  create_cms_keystore-Keeps dir = record {
    keeps = λ s k. (same_certificates s.keystore _ k.0, k.1);
  }

  create_p12_truststore-Keeps : (dir : Text) → Keeps c (create_p12_truststore h fips password dir)
  unfolding create_p12_truststore
  create_p12_truststore-Keeps dir = record {
    keeps = λ s k. (k.0, same_certificates s.truststore _ k.1);
  }

  generate_all_keystores-Keeps :
      (dir : Text) (b b' : Bool) → Keeps c (generate_all_keystores h fips password dir b b')
  unfolding generate_all_keystores
  generate_all_keystores-Keeps dir b b' =
      search (kept, create_cms_keystore-Keeps, create_p12_truststore-Keeps)

  module _ (mounts : Mounts) (env : Env) where
    label_key_dir-Keeps :
        (dir key_dir : Text) (labels : List Text)
        → Keeps c (label_key_dir c mounts env h fips password dir key_dir labels)
    unfolding label_key_dir
    label_key_dir-Keeps dir key_dir labels = with_state-Keeps c _ λ s.
        if-elim (Keeps c) (is_some s.keystore.keystore) (λ _. search (kept, process_keys-Keeps))
          (λ _. return-Keeps c _)

    configure_tls_keystores-Keeps :
        (dir : Text) (key_dirs trust_dirs : List Text) (p12_required : Bool)
        → Keeps c (
            configure_tls_keystores c mounts env h fips password dir key_dirs trust_dirs
              p12_required)
    unfolding configure_tls_keystores
    configure_tls_keystores-Keeps dir key_dirs trust_dirs p12_required =
        search
          (
            kept,
            generate_all_keystores-Keeps,
            label_key_dir-Keeps,
            process_trust_certificates-Keeps c mounts env h,
          )
          depth 20

    default_label-Keeps : Keeps c (default_label c mounts env h fips password)
    unfolding default_label
    default_label-Keeps = search (kept, configure_tls_keystores-Keeps)

    ha_labels-Keeps : Keeps c (ha_labels c mounts env h fips password)
    unfolding ha_labels
    ha_labels-Keeps = search (kept, configure_tls_keystores-Keeps)

    fresh-AreKnown : (m : Machine) → AreKnown c (fresh password m)
    fresh-AreKnown m = (
      record { known_once = tt; trusted_known = tt; trusted_once = tt },
      record { known_once = tt; trusted_known = tt; trusted_once = tt },
    )

    -- Whatever the directories hold, whatever commands and files give, and also where an error ends
    -- it, `ConfigureDefaultTLSKeystores` and `ConfigureHATLSKeystore` leave stores in which no
    -- fingerprint is known twice, no certificate is trusted twice, and each trusted one is known.
    pub configure_keystores-AreKnown :
        (m : Machine)
        → AreKnown c (configure_default_tls_keystores c mounts env h fips password m).0
          × AreKnown c (configure_ha_tls_keystore c mounts env h fips password m).0
    unfolding configure_default_tls_keystores configure_ha_tls_keystore
    configure_keystores-AreKnown m = (
      default_label-Keeps.keeps (fresh password m) (fresh-AreKnown m),
      ha_labels-Keeps.keeps (fresh password m) (fresh-AreKnown m),
    )
