-- ===== src/Tls/Tests.antt =====
-- Runs of the TLS configuration, and its theorems at concrete inputs.
use mq_container.Base.{
  ℕ, ◌+◌, ◌<◌, ◌≡◌, refl, true, false, List, [], ◌∷◌, ◌++◌, Option, none, some, Text, codes, arith,
  All, eq_text, Env, length, inl, inr, ◌⊎◌, Bool-cases, drop_while, has_suffix, to_lower, ◌==◌,
  if◌then◌else◌,
}
use mq_container.Qmgr.{Shell}
use mq_container.Ready.{ok, failed}
use mq_container.Machine.{Machine, Host, return, write_file, run_command, stat}
use mq_container.Keystore.{new_cms_key_store, without_ext}
use mq_container.Keystore.Commands.{
  import_certs, get_certificate_labels, rename_certificate, lines_of, scan, is_personal,
}
use mq_container.LogRotation.{byte_length, rune_bytes}
use mq_container.Keystore.Labels.{personal, listing}
use mq_container.Tls.{
  Crypto, Mounts, TlsState, for_blocks, for_names, clean_path, add_to_known_certificates,
}
use mq_container.Tls.Sets.{process_keys}
use mq_container.Tls.Blocks.{Blocks, for_blocks_lem}
use mq_container.Tls.KeySets.{process_keys-fails}
use mq_container.Tls.KeyLabel.{process_keys-label}
use mq_container.Tls.Configure.{
  fresh, empty_store, configure_default_tls_keystores, configure_ha_tls_keystore,
  generate_random_password,
}
use mq_container.Tls.Configure.Password.{is_alphanumeric, generate_random_password_lem}
use mq_container.Tls.Known.Steps.{AreKnown}
use mq_container.Tls.Known.Whole.{configure_keystores-AreKnown}

-- A block ends with a semicolon.
abbrev push_block : ℕ → Option (Text × Text) → Option (Text × Text)
push_block c none = none
push_block c (some (b, rest)) = some (c ∷ b, rest)

decode_block : Text → Option (Text × Text)
decode_block [] = none
decode_block (c ∷ t) = if c == b';' then some ([], t) else push_block c (decode_block t)

pushed-consumes :
    (c : ℕ) (t : Text) (o : Option (Text × Text)) (b : Text × Text)
    → ((b' : Text × Text) → o ≡ some b' → length b'.1 < length t)
    → push_block c o ≡ some b
    → length b.1 < length (c ∷ t)
pushed-consumes c t none b ih e = absurd (cc)
pushed-consumes c t (some b') b ih e = ground (arith, ih b' refl)

decode_block-consumes :
    (t : Text) (b : Text × Text) → decode_block t ≡ some b → length b.1 < length t
unfolding decode_block
decode_block-consumes [] b e = absurd (cc)
decode_block-consumes (c ∷ t) b e = elim (Bool-cases (c == b';')) [
  | inl p ↦ ground arith
  | inr p ↦
      pushed-consumes c t (decode_block t) b (decode_block-consumes t) (rw (p, decode_block) at e)
]

abbrev crypto : Crypto
crypto = record {
  decode = decode_block;
  encode = λ b. some (b ++ codes ";");
  parse_pkcs1 = λ b. none;
  parse_pkcs8 = λ b. some b;
  equal_keys = eq_text;
  hashable = λ key. true;
  parse_certificate = λ b. some record { raw = b; subject = b };
  fingerprint = λ raw. raw;
  encode_pkcs12 = λ key cert cas password. some (key ++ cert.raw);
}

abbrev list_names : Text → List Text
list_names dir =
    if eq_text dir (codes "/keys")
    then codes "qm" ∷ codes "other" ∷ []
    else if eq_text dir (codes "/keys/qm")
    then codes "tls.key" ∷ codes "tls.crt" ∷ codes "ca.crt" ∷ []
    else []

abbrev mounts : Mounts
mounts = record {
  read_dir = list_names;
  read_file =
      λ path. some (if has_suffix path (codes "/ca.crt") then codes "b;c;" else codes "a;b;");
}

abbrev env : Env
env name = none

abbrev shell : Shell
shell done c = record {
  out = listing (record { mark = personal; label = codes "friendly" } ∷ []);
  rc = some 0;
  is_error = false;
}

abbrev host : Host
host = record {
  sh = shell;
  files_after = λ done c files. files;
  inaccessible = λ p. false;
  irremovable = λ p. false;
  unwritable = λ p. false;
}

abbrev machine : Machine
machine = record { done = []; files = eq_text (codes "/opt/mqm/gskit8"); written = [] }

for_blocks_lem_example :
    (blocks : List Text) × Blocks crypto (codes "a;bc;d") blocks
    × ((a : ℕ) (s : Unit {0})
        → for_blocks crypto 9 (codes "a;bc;d") (λ b n. return (n + 1)) a s
          ≡ for_names blocks (λ b n. return (n + 1)) a s)
for_blocks_lem_example =
    for_blocks_lem crypto decode_block-consumes (λ b n. return (n + 1)) 9 (codes "a;bc;d")
      (omega arith)

process_keys-fails_example :
    (process_keys crypto mounts env host
      (codes "/tls")
      (codes "/keys")
      (fresh (codes "pw") machine)).1
    ≡ failed
unfolding eq_text clean_path drop_while
process_keys-fails_example =
    process_keys-fails crypto mounts env host (codes "/tls") (codes "/keys") (codes "other")
      (codes "qm" ∷ []) [] (fresh (codes "pw") machine) refl (inl refl)

configure_keystores-AreKnown_example :
    AreKnown crypto
      (configure_default_tls_keystores crypto mounts env host false (codes "pw") machine).0
    × AreKnown crypto
        (configure_ha_tls_keystore crypto mounts env host false (codes "pw") machine).0
configure_keystores-AreKnown_example =
    configure_keystores-AreKnown crypto host false (codes "pw") mounts env machine

generate_random_password_lem_example :
    All (λ c. is_alphanumeric c ≡ true) (generate_random_password (0 ∷ 61 ∷ 255 ∷ []))
    × length (generate_random_password (0 ∷ 61 ∷ 255 ∷ [])) ≡ 3
generate_random_password_lem_example = generate_random_password_lem (0 ∷ 61 ∷ 255 ∷ [])

-- One key set, imported into a key store.
abbrev one_set : Mounts
one_set = record mounts {
  read_dir = λ dir. if eq_text dir (codes "/keys") then codes "qm" ∷ [] else list_names dir;
}

abbrev begun : TlsState
begun = record (fresh (codes "pw") machine) {
  keystore = record (empty_store (codes "pw")) {
    keystore = some (new_cms_key_store false (codes "/tls/key.kdb") (codes "pw"));
  };
}

loads_one_set :
    (process_keys crypto one_set env host (codes "/tls") (codes "/keys") begun).1 ≡ ok (codes "qm")
unfolding process_keys for_names eq_text clean_path drop_while has_suffix decode_block without_ext
    add_to_known_certificates for_blocks to_lower write_file import_certs get_certificate_labels
    rename_certificate run_command stat lines_of scan byte_length rune_bytes is_personal
loads_one_set = refl

process_keys-label_example :
    let r = (process_keys crypto one_set env host (codes "/tls") (codes "/keys") begun).1 in
    (r ≡ failed) ⊎ (r ≡ ok (codes "qm"))
unfolding eq_text
process_keys-label_example =
    process_keys-label crypto one_set env host (codes "/tls") (codes "/keys") (codes "qm") [] begun
      refl (λ e. cc) refl
