-- ===== src/Keystore/Tests.antt =====
-- Runs of the key store's methods, and their theorems at concrete inputs.
use mq_container.Base.{
  ◌≡◌, refl, true, false, List, [], ◌∷◌, ◌++◌, some, Text, codes, arith, eq_text, Bool,
  if◌then◌else◌,
}
use mq_container.Qmgr.{Command, Shell}
use mq_container.Ready.{ok, failed}
use mq_container.Machine.{Machine, Host, set_file, stat, run_command}
use mq_container.LogRotation.{byte_length, rune_bytes}
use mq_container.Keystore.{
  KeyStore, new_cms_key_store, create, refresh, create_stash, stash_command, without_ext,
}
use mq_container.Keystore.Create.{CreatedFrom, create_lem, create_stash_fails}
use mq_container.Keystore.Labels.{
  Entry, personal, default, trusted, listing, labels_printed, trimmed_labels, personal_entries,
}
use mq_container.Keystore.Commands.{
  get_certificate_labels, list_all_certificates, rename_certificate, gskit_command,
}

abbrev key_db : Text
key_db = codes "/run/runmqserver/tls/key.kdb"

abbrev store : KeyStore
store = new_cms_key_store false key_db (codes "pw")

abbrev prints : Text → Shell
prints out done c = record { out = out; rc = some 0; is_error = false }

-- The create command makes the file whose name it has.
abbrev command_files : List Command → Command → (Text → Bool) → Text → Bool
command_files done (_ ∷ _ ∷ create ∷ _ ∷ _ ∷ _ ∷ _ ∷ file ∷ _) files =
    if eq_text create (codes "-create") then set_file file true files else files
command_files done _ files = files

abbrev host : Text → Host
host out = record {
  sh = prints out;
  files_after = command_files;
  inaccessible = λ p. false;
  irremovable = λ p. false;
  unwritable = λ p. false;
}

-- A machine on which every file exists, and one with none.
abbrev full : Machine
full = record { done = []; files = λ p. true; written = [] }

abbrev bare : Machine
bare = record { done = []; files = λ p. false; written = [] }

without_ext_runs : without_ext key_db ≡ codes "/run/runmqserver/tls/key"
unfolding without_ext
without_ext_runs = refl

no_ext : without_ext (codes "/run/mq.d/key") ≡ codes "/run/mq.d/key"
unfolding without_ext
no_ext = refl

rename_without_gskit :
    rename_certificate (host []) store (codes "a") (codes "b") bare ≡ (bare, failed)
unfolding rename_certificate gskit_command stat eq_text
rename_without_gskit = refl

create_lem_example :
    (before : Machine) × CreatedFrom
      (host [])
      store
      full
      (stat (host []) key_db full)
      (create (host []) store full)
      before
unfolding create refresh eq_text without_ext run_command stat
create_lem_example = create_lem (host []) store full refl

create_stash_fails_example :
    (create_stash (host []) store bare).0.done ≡ [] ++ stash_command store ∷ []
    × (create_stash (host []) store bare).1 ≡ failed
unfolding stat
create_stash_fails_example = create_stash_fails (host []) store bare refl

abbrev entries : List Entry
entries =
    record { mark = default; label = codes "qm 1" }
    ∷ record { mark = personal; label = codes "\"it's mine\"" }
    ∷ record { mark = trusted; label = codes "Trust0" }
    ∷ []

labels_printed_example :
    (list_all_certificates (host (listing entries)) store bare).1 ≡ ok (trimmed_labels entries)
    × (get_certificate_labels (host (listing entries)) store bare).1
      ≡ ok (trimmed_labels (personal_entries entries))
unfolding byte_length rune_bytes
labels_printed_example =
    labels_printed (host (listing entries)) store bare entries refl refl (ground arith)
