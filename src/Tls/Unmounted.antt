-- ===== src/Tls/Unmounted.antt =====
-- Native HA where no key and no certificate is mounted.
use mq_container.Base.{◌≡◌, refl, ◌∙◌, Bool, false, List, [], ◌∷◌, Text, codes, Env, arith}
use mq_container.Ready.{ok}
use mq_container.Machine.{Act, ◌>>=◌, ◌>>◌, return, Machine, Host, bind_ok}
use mq_container.Tls.{Crypto, Mounts, TlsState, of_option, for_names, clean_path, is_crt}
use mq_container.Tls.Keys.{has_truststore}
use mq_container.Tls.Trust.{trust_file, trust_set, add_to_stores, process_trust_certificates}
use mq_container.Tls.Configure.{
  any_name, is_key_or_crt, have_keys_and_certs, fresh, generate_all_keystores, label_key_dir,
  configure_tls_keystores, configure_ha_tls_keystore, both_labels,
}

module _ (c : Crypto) (mounts : Mounts) (env : Env) (h : Host) where
  no_files :
      (dir : Text) (names : List Text) (s : TlsState)
      → any_name is_key_or_crt names ≡ false
      → for_names names (trust_file c mounts h dir) tt s ≡ (s, ok tt)
  unfolding for_names trust_file
  no_files dir [] s e = refl
  no_files dir (n ∷ names) s e =
      bind_ok (trust_file c mounts h dir n tt) (for_names names (trust_file c mounts h dir)) s s tt
        (skipped n (ground arith))
      ∙ no_files dir names s (ground arith)
    where
      skipped : (n : Text) → is_crt n ≡ false → trust_file c mounts h dir n tt s ≡ (s, ok tt)
      skipped n f = rw (f, trust_file) refl

  no_sets :
      (dir : Text) (sets : List Text) (s : TlsState)
      → any_name (λ set. any_name is_key_or_crt (mounts.read_dir (clean_path dir set))) sets ≡ false
      → for_names sets (trust_set c mounts h dir) tt s ≡ (s, ok tt)
  unfolding for_names trust_set
  no_sets dir [] s e = refl
  no_sets dir (set ∷ sets) s e =
      bind_ok (trust_set c mounts h dir set tt) (for_names sets (trust_set c mounts h dir)) s s tt
        (no_files (clean_path dir set) (mounts.read_dir (clean_path dir set)) s (ground arith))
      ∙ no_sets dir sets s (ground arith)

  nothing_to_add :
      (password : Text) (m : Machine)
      → add_to_stores c mounts h (fresh password m) ≡ (fresh password m, ok tt)
  unfolding add_to_stores has_truststore
  nothing_to_add password m = refl

  no_trust :
      (dir password : Text) (m : Machine)
      → have_keys_and_certs mounts dir ≡ false
      → process_trust_certificates c mounts h dir (fresh password m) ≡ (fresh password m, ok tt)
  unfolding process_trust_certificates have_keys_and_certs
  no_trust dir password m e =
      bind_ok (for_names (mounts.read_dir dir) (trust_set c mounts h dir) tt)
        (λ _. add_to_stores c mounts h) (fresh password m) (fresh password m) tt
        (no_sets dir (mounts.read_dir dir) (fresh password m) e)
      ∙ nothing_to_add password m

  module _ (fips : Bool) (password : Text) (m : Machine) where
    nothing_generated :
        (dir : Text)
        → h.unwritable dir ≡ false
        → generate_all_keystores h fips password dir false false (fresh password m)
          ≡ (fresh password m, ok tt)
    unfolding generate_all_keystores
    nothing_generated dir w = rw w refl

    no_labels :
        (dir k1 k2 : Text)
        → for_names
            (k1 ∷ k2 ∷ [])
            (label_key_dir c mounts env h fips password dir)
            []
            (fresh password m)
          ≡ (fresh password m, ok ([] ∷ [] ∷ []))
    unfolding for_names label_key_dir
    no_labels dir k1 k2 = refl

    trusts_none :
        (t : Text)
        → have_keys_and_certs mounts t ≡ false
        → for_names
            (t ∷ [])
            (λ dir u. process_trust_certificates c mounts h dir)
            tt
            (fresh password m)
          ≡ (fresh password m, ok tt)
    unfolding for_names
    trusts_none t e =
        bind_ok (process_trust_certificates c mounts h t) (λ u. return u) (fresh password m)
          (fresh password m) tt (no_trust t password m e)

    unmounted_labels :
        (dir k1 k2 t : Text)
        → h.unwritable dir ≡ false
        → have_keys_and_certs mounts k1 ≡ false
        → have_keys_and_certs mounts k2 ≡ false
        → have_keys_and_certs mounts t ≡ false
        → configure_tls_keystores c mounts env h fips password dir
            (k1 ∷ k2 ∷ [])
            (t ∷ [])
            false
            (fresh password m)
          ≡ (fresh password m, ok ([] ∷ [] ∷ []))
    unfolding configure_tls_keystores
    unmounted_labels dir k1 k2 t w a b d =
        let after_trust : List Text → Act TlsState (List Text) = λ labels.
          for_names (t ∷ []) (λ dir u. process_trust_certificates c mounts h dir) tt
          >> return labels in
        let after_generate : Unit {0} → Act TlsState (List Text) = λ _.
          for_names (k1 ∷ k2 ∷ []) (label_key_dir c mounts env h fips password dir) []
          >>= after_trust in
        let s = fresh password m in
        bind_ok
          (generate_all_keystores h fips password dir
            (any_name (have_keys_and_certs mounts) (k1 ∷ k2 ∷ t ∷ [])) false)
          after_generate s s tt (rw (a, b, d) (nothing_generated dir w))
        ∙ bind_ok (for_names (k1 ∷ k2 ∷ []) (label_key_dir c mounts env h fips password dir) [])
            after_trust s s ([] ∷ [] ∷ []) (no_labels dir k1 k2)
        ∙ bind_ok (for_names (t ∷ []) (λ dir u. process_trust_certificates c mounts h dir) tt)
            (λ _. return ([] ∷ [] ∷ [])) s s tt (trusts_none t d)

    -- Where none of the three directories holds a `.key` or `.crt` file in a set, and the directory
    -- of the key stores can be made, Native HA is configured without a key store: both labels are
    -- empty, no command is run, no file is written, and no store is changed.
    pub unmounted_lem :
        h.unwritable (codes "/run/runmqserver/ha/tls/") ≡ false
        → have_keys_and_certs mounts (codes "/etc/mqm/ha/pki/keys") ≡ false
        → have_keys_and_certs mounts (codes "/etc/mqm/groupha/pki/keys") ≡ false
        → have_keys_and_certs mounts (codes "/etc/mqm/groupha/pki/trust") ≡ false
        → configure_ha_tls_keystore c mounts env h fips password m ≡ (fresh password m, ok ([], []))
    unfolding configure_ha_tls_keystore
    unmounted_lem w a b d =
        bind_ok
          (configure_tls_keystores c mounts env h fips password (codes "/run/runmqserver/ha/tls/")
            (codes "/etc/mqm/ha/pki/keys" ∷ codes "/etc/mqm/groupha/pki/keys" ∷ [])
            (codes "/etc/mqm/groupha/pki/trust" ∷ []) false)
          (λ labels. of_option (both_labels labels)) (fresh password m) (fresh password m)
          ([] ∷ [] ∷ []) (unmounted_labels _ _ _ _ w a b d)
