-- ===== src/Tls/Known/Runs.antt =====
-- The sets of keys and of trusted certificates, read and loaded: each step keeps the invariant.
use mq_container.Base.{
  Bool, true, false, ◌&&◌, List, Option, none, some, Text, codes, has_suffix, has_prefix, inl, inr,
  if-elim, if◌then◌else◌, Option-cases,
}
use mq_container.Machine.{Act, return}
use mq_container.Tls.{
  Crypto, Mounts, PrivateKeyInfo, TlsState, p12, add_to_known_certificates, is_crt,
}
use mq_container.Tls.Keys.{
  PrivateKey, Certificates, find_key, read_key_file, known_or_new_key, with_new_key,
  process_private_key, add_ca_block, add_public_file, read_certificate_file, process_certificates,
  has_truststore,
}
use mq_container.Tls.Known.Steps.{AreKnown, Keeps, return-Keeps, kept, add_to_known-Keeps}

module _ (c : Crypto) where
  if-Keeps :
      {A : Type 0} (b : Bool) (act other : Act TlsState A)
      → Keeps c act
      → Keeps c other
      → Keeps c (if b then act else other)
  if-Keeps true act other k l = k
  if-Keeps false act other k l = l

  pub add_p12-Keeps :
      (block : Text) (t : TlsState)
      → Keeps c
          (if has_truststore t then add_to_known_certificates c p12 block true else return false)
  add_p12-Keeps block t =
      if-Keeps (has_truststore t) (add_to_known_certificates c p12 block true) (return false)
        (add_to_known-Keeps c p12 block true) (return-Keeps c false)

  module _ (mounts : Mounts) where
    read_key_file-Keeps :
        (dir set name : Text) (l : PrivateKey) → Keeps c (read_key_file c mounts dir set name l)
    unfolding read_key_file
    read_key_file-Keeps dir set name l =
        if-elim (Keeps c) (has_suffix name (codes ".key")) (λ _. search kept)
          (λ _. return-Keeps c l)

    with_new_key-Keeps :
        (hashable : Bool) (l : PrivateKey) (key : Text) (s : TlsState) (o : Option PrivateKeyInfo)
        → AreKnown c s
        → AreKnown c (with_new_key hashable l key s o).0
    with_new_key-Keeps false l key s none h = h
    with_new_key-Keeps true l key s none h = (
      record {
        known_once = h.0.known_once;
        trusted_known = h.0.trusted_known;
        trusted_once = h.0.trusted_once;
      },
      h.1,
    )
    with_new_key-Keeps hashable l key s (some previous) h = h

    known_or_new_key-Keeps : (l : PrivateKey) → Keeps c (known_or_new_key c mounts l)
    unfolding known_or_new_key
    known_or_new_key-Keeps l = record {
      keeps = λ s h. elim (Option-cases l.key) [
        | inl e ↦ rw (e, known_or_new_key) h
        | inr (key, e) ↦
            rw (e, known_or_new_key)
              (with_new_key-Keeps (c.hashable key) l key s
                (find_key c key s.keystore.key_label_lookup) h)
      ];
    }

    pub process_private_key-Keeps :
        (dir set : Text) (keys : List Text) → Keeps c (process_private_key c mounts dir set keys)
    unfolding process_private_key
    process_private_key-Keeps dir set keys =
        search (kept, read_key_file-Keeps, known_or_new_key-Keeps)

    add_ca_block-Keeps : (block : Text) (l : Certificates) → Keeps c (add_ca_block c mounts block l)
    unfolding add_ca_block
    add_ca_block-Keeps block l = search (kept, add_p12-Keeps)

    add_public_file-Keeps :
        (file : Text) (l : Certificates) → Keeps c (add_public_file c mounts file l)
    unfolding add_public_file
    add_public_file-Keeps file l = search (kept, add_ca_block-Keeps)

    read_certificate_file-Keeps :
        (dir set prefix name : Text) (l : Certificates)
        → Keeps c (read_certificate_file c mounts dir set prefix name l)
    unfolding read_certificate_file
    read_certificate_file-Keeps dir set prefix name l =
        if-elim (Keeps c) (has_prefix name prefix && is_crt name)
          (λ _. search (kept, add_public_file-Keeps))
          (λ _.
            if-elim (Keeps c) (is_crt name) (λ _. search (kept, add_ca_block-Keeps))
              (λ _. return-Keeps c l))

    pub process_certificates-Keeps :
        (dir set prefix : Text) (keys : List Text)
        → Keeps c (process_certificates c mounts dir set prefix keys)
    unfolding process_certificates
    process_certificates-Keeps dir set prefix keys = search (kept, read_certificate_file-Keeps)
