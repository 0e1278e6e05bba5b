-- ===== src/Tls/Known/Loads.antt =====
-- Key sets imported and certificates trusted: each step keeps the invariant.
use mq_container.Base.{
  ℕ, ◌+◌, not, ◌&&◌, List, [], ◌∷◌, Option, none, some, Text, eq_text, codes, Env, if-elim, ltb,
}
use mq_container.Machine.{Host, Stat, found, missing, stat_error, stat}
use mq_container.Tls.{Certificate, Crypto, Mounts, Which, p12, with_keystore, is_crt}
use mq_container.Tls.Keys.{ProcessedKey, Certificates}
use mq_container.Tls.Sets.{
  relabel_certificate, import_key_set, load_key_set, process_key_set, process_keys, add_key_label,
  with_key,
}
use mq_container.Tls.Trust.{
  write_certificates_to_file, remove_old, remove_at, rename_trusted, add_trusted, relabel_all,
  add_certificates_to_truststore, add_certificates_to_cms_keystore, trust_block, trust_file,
  trust_set, add_to_stores, process_trust_certificates,
}
use mq_container.Tls.Known.Steps.{
  Keeps, return-Keeps, fail-Keeps, >>=-Keeps, on_machine-Keeps, kept, with_state-Keeps,
  with_keystore-Keeps,
}
use mq_container.Tls.Known.Runs.{
  process_private_key-Keeps, process_certificates-Keeps, add_p12-Keeps,
}

module _ (c : Crypto) (mounts : Mounts) (env : Env) (h : Host) where
  add_key_label-Keeps : (l : Text) → Keeps c (add_key_label l)
  unfolding add_key_label
  add_key_label-Keeps l = record {
    keeps = λ s k. (
      record {
        known_once = k.0.known_once;
        trusted_known = k.0.trusted_known;
        trusted_once = k.0.trusted_once;
      },
      k.1,
    );
  }

  relabel_certificate-Keeps :
      (new_label : Text) → Keeps c (relabel_certificate c mounts env h new_label)
  unfolding relabel_certificate
  relabel_certificate-Keeps new_label = search (kept, add_key_label-Keeps)

  import_key_set-Keeps :
      (keystore_dir key_set key : Text) (cert : Certificate) (cas : List Certificate)
      → Keeps c (import_key_set c mounts env h keystore_dir key_set key cert cas)
  unfolding import_key_set
  import_key_set-Keeps keystore_dir key_set key cert cas =
      search (kept, relabel_certificate-Keeps) depth 20

  load_key_set-Keeps :
      (keystore_dir key_set key_label key : Text) (k : ProcessedKey) (l : Certificates)
      → Keeps c (load_key_set c mounts env h keystore_dir key_set key_label key k l)
  unfolding load_key_set
  load_key_set-Keeps keystore_dir key_set key_label key k l =
      if-elim (Keeps c) (not (eq_text k.previous_label []) && not (ltb 0 l.new_public_count))
        (λ _. return-Keeps c _) (λ _. search (kept, import_key_set-Keeps))

  with_key-Keeps :
      (keystore_dir key_dir key_set key_label : Text) (keys : List Text) (k : ProcessedKey)
      (o : Option Text)
      → Keeps c (with_key c mounts env h keystore_dir key_dir key_set key_label keys k o)
  unfolding with_key
  with_key-Keeps keystore_dir key_dir key_set key_label keys k none = return-Keeps c key_label
  with_key-Keeps keystore_dir key_dir key_set key_label keys k (some key) =
      search (kept, process_certificates-Keeps, load_key_set-Keeps)

  process_key_set-Keeps :
      (keystore_dir key_dir key_set key_label : Text)
      → Keeps c (process_key_set c mounts env h keystore_dir key_dir key_set key_label)
  unfolding process_key_set
  process_key_set-Keeps keystore_dir key_dir key_set key_label =
      if-elim (Keeps c) (eq_text key_set (codes "trust")) (λ _. fail-Keeps c)
        (λ _. search (kept, process_private_key-Keeps, with_key-Keeps))

  pub process_keys-Keeps :
      (keystore_dir key_dir : Text) → Keeps c (process_keys c mounts env h keystore_dir key_dir)
  unfolding process_keys
  process_keys-Keeps keystore_dir key_dir = search (kept, process_key_set-Keeps)

  remove_old-Keeps : (file : Text) → Keeps c (remove_old c mounts h file)
  unfolding remove_old
  remove_old-Keeps file = with_state-Keeps c _ (λ s. remove_at-Keeps file (stat h file s.machine))
    where
      remove_at-Keeps : (file : Text) (st : Stat) → Keeps c (remove_at c mounts h file st)
      remove_at-Keeps file found = on_machine-Keeps c _
      remove_at-Keeps file missing = return-Keeps c tt
      remove_at-Keeps file stat_error = return-Keeps c tt

  add_trusted-Keeps : (which : Which) (file : Text) → Keeps c (add_trusted c mounts h which file)
  unfolding add_trusted write_certificates_to_file
  add_trusted-Keeps which file = search (kept, remove_old-Keeps) depth 20

  relabel_all-Keeps :
      (i : ℕ) (certificates : List Text) → Keeps c (relabel_all c mounts h i certificates)
  unfolding relabel_all
  relabel_all-Keeps i [] = return-Keeps c tt
  relabel_all-Keeps i (t ∷ ts) =
      >>=-Keeps c (with_keystore p12 (rename_trusted c mounts h i t))
        (λ _. relabel_all c mounts h (i + 1) ts)
        (with_keystore-Keeps c p12 (rename_trusted c mounts h i t))
        (λ u. relabel_all-Keeps (i + 1) ts)

  add_certificates_to_truststore-Keeps : Keeps c (add_certificates_to_truststore c mounts h)
  unfolding add_certificates_to_truststore
  add_certificates_to_truststore-Keeps =
      search (kept, add_trusted-Keeps, relabel_all-Keeps) depth 20

  add_to_stores-Keeps : Keeps c (add_to_stores c mounts h)
  unfolding add_to_stores add_certificates_to_cms_keystore
  add_to_stores-Keeps =
      search (kept, add_trusted-Keeps, add_certificates_to_truststore-Keeps) depth 20

  trust_block-Keeps : (block : Text) (u : Unit {0}) → Keeps c (trust_block c mounts h block u)
  unfolding trust_block
  trust_block-Keeps block u = search (kept, add_p12-Keeps) depth 20

  trust_file-Keeps : (dir name : Text) (u : Unit {0}) → Keeps c (trust_file c mounts h dir name u)
  unfolding trust_file
  trust_file-Keeps dir name u =
      if-elim (Keeps c) (is_crt name) (λ _. search (kept, trust_block-Keeps))
        (λ _. return-Keeps c tt)

  trust_set-Keeps : (dir name : Text) (u : Unit {0}) → Keeps c (trust_set c mounts h dir name u)
  unfolding trust_set
  trust_set-Keeps dir name u = search (kept, trust_file-Keeps)

  pub process_trust_certificates-Keeps :
      (dir : Text) → Keeps c (process_trust_certificates c mounts h dir)
  unfolding process_trust_certificates
  process_trust_certificates-Keeps dir = search (kept, trust_set-Keeps, add_to_stores-Keeps)
