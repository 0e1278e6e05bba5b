-- ===== src/Keystore/Commands.antt =====
-- The other methods of `KeyStore`: certificates imported, made, added, listed and renamed.
use mq_container.Base.{
  ℕ, Bool, ◌||◌, List, [], ◌∷◌, ◌++◌, Option, none, some, Text, codes, eq_text, has_prefix,
  trim_space, drop_while, push_head, leb, ◌==◌, if◌then◌else◌,
}
use mq_container.LogRotation.{byte_length}
use mq_container.Qmgr.{Command}
use mq_container.Ready.{Outcome, ok, failed}
use mq_container.Machine.{Act, ◌>>=◌, return, Machine, Host, found, stat, run_command}
use mq_container.Keystore.{KeyStore, runmqakm, get_fips_enabled_flag}

-- A command of which only the error counts.
abbrev pub run_only : Host → Command → Act Machine (Unit {0})
run_only h c = do _ ← run_command h c; return tt

abbrev pub import_command : KeyStore → Text → Text → Command
import_command ks input_file password =
    ks.command
    ∷ codes "-cert"
    ∷ codes "-import"
    ∷ get_fips_enabled_flag ks
    ∷ codes "-file"
    ∷ input_file
    ∷ codes "-pw"
    ∷ password
    ∷ codes "-target"
    ∷ ks.filename
    ∷ codes "-target_pw"
    ∷ ks.password
    ∷ codes "-target_type"
    ∷ ks.key_store_type
    ∷ []

-- `Import`
unfoldable pub import_certs : Host → KeyStore → Text → Text → Act Machine (Unit {0})
import_certs h ks input_file password = run_only h (import_command ks input_file password)

abbrev pub self_signed_command : KeyStore → Text → Text → Text → Command
self_signed_command ks label dn hostname =
    ks.command
    ∷ codes "-cert"
    ∷ codes "-create"
    ∷ get_fips_enabled_flag ks
    ∷ codes "-db"
    ∷ ks.filename
    ∷ codes "-pw"
    ∷ ks.password
    ∷ codes "-label"
    ∷ label
    ∷ codes "-dn"
    ∷ dn
    ∷ codes "-san_dnsname"
    ∷ hostname
    ∷ codes "-size 2048 -sig_alg sha512 -eku serverAuth"
    ∷ []

-- `CreateSelfSignedCertificate`
unfoldable pub create_self_signed_certificate :
    Host → KeyStore → Text → Text → Text → Act Machine (Unit {0})
create_self_signed_certificate h ks label dn hostname =
    run_only h (self_signed_command ks label dn hostname)

abbrev pub add_command : KeyStore → Text → Command
add_command ks input_file =
    ks.command
    ∷ codes "-cert"
    ∷ codes "-add"
    ∷ get_fips_enabled_flag ks
    ∷ codes "-db"
    ∷ ks.filename
    ∷ codes "-type"
    ∷ ks.key_store_type
    ∷ codes "-pw"
    ∷ ks.password
    ∷ codes "-file"
    ∷ input_file
    ∷ []

-- `Add`
unfoldable pub add : Host → KeyStore → Text → Text → Act Machine (Unit {0})
add h ks input_file label = run_only h (add_command ks input_file ++ codes "-label" ∷ label ∷ [])

-- `AddNoLabel`
unfoldable pub add_no_label : Host → KeyStore → Text → Act Machine (Unit {0})
add_no_label h ks input_file = run_only h (add_command ks input_file)

-- the lines of a text without their line feeds
unfoldable pub lines_of : Text → List Text
lines_of [] = []
lines_of (c ∷ s) = if c == 10 then [] ∷ lines_of s else push_head c (lines_of s)

-- A carriage return at the end of a line is no part of it.
unfoldable pub strip_cr : Text → Text
strip_cr [] = []
strip_cr (c ∷ []) = if c == 13 then [] else c ∷ []
strip_cr (c ∷ d ∷ s) = c ∷ strip_cr (d ∷ s)

-- `bufio.MaxScanTokenSize`
abbrev pub max_scan_token_size : ℕ
max_scan_token_size = 65536

-- The tokens of a `bufio.Scanner`; a line that fills its buffer is an error.
unfoldable pub scan : List Text → Outcome (List Text)
unfolding strip_cr byte_length
scan [] = ok []
scan (l ∷ ls) =
    if leb max_scan_token_size (byte_length l)
    then failed
    else elim (scan ls) [ failed ↦ failed | ok ts ↦ ok (strip_cr l ∷ ts) ]

-- The labels in the lines that begin in a certain way, without the marks before them.
unfoldable pub labels_in : (Text → Bool) → (ℕ → Bool) → List Text → List Text
labels_in is_entry is_mark [] = []
labels_in is_entry is_mark (s ∷ ls) =
    let rest = labels_in is_entry is_mark ls in
    if is_entry s then trim_space (drop_while is_mark s) ∷ rest else rest

unfoldable pub is_personal : Text → Bool
is_personal s = has_prefix s (codes "-") || has_prefix s (codes "*-")

unfoldable pub is_listed : Text → Bool
unfolding is_personal
is_listed s = is_personal s || has_prefix s (codes "!")

abbrev pub is_personal_mark : ℕ → Bool
is_personal_mark c = c == b'-' || c == b'*'

abbrev pub is_listed_mark : ℕ → Bool
is_listed_mark c = is_personal_mark c || c == b'!'

-- The labels in the output of a list command.
unfoldable pub read_labels : (Text → Bool) → (ℕ → Bool) → Text → Outcome (List Text)
unfolding lines_of scan labels_in
read_labels is_entry is_mark out = elim (scan (lines_of out)) [
  | failed ↦ failed
  | ok ls ↦ ok (labels_in is_entry is_mark ls)
]

abbrev pub list_command : KeyStore → Command
list_command ks =
    ks.command
    ∷ codes "-cert"
    ∷ codes "-list"
    ∷ get_fips_enabled_flag ks
    ∷ codes "-type"
    ∷ ks.key_store_type
    ∷ codes "-db"
    ∷ ks.filename
    ∷ codes "-pw"
    ∷ ks.password
    ∷ []

-- `GetCertificateLabels`
unfoldable pub get_certificate_labels : Host → KeyStore → Act Machine (List Text)
unfolding read_labels
get_certificate_labels h ks = do
  out ← run_command h (list_command ks)
  λ m. (m, read_labels is_personal is_personal_mark out)

-- `ListAllCertificates`
unfoldable pub list_all_certificates : Host → KeyStore → Act Machine (List Text)
unfolding read_labels
list_all_certificates h ks = do
  out ← run_command h (list_command ks)
  λ m. (m, read_labels is_listed is_listed_mark out)

-- The tool of GSKit that renames, if one is installed; its libraries are passed in its environment.
unfoldable pub gskit_command : Host → Machine → Option Text
gskit_command h m = elim (stat h (codes "/opt/mqm/gskit9") m) [
  | found ↦ some (codes "/opt/mqm/gskit9/bin/gsk9certutil_64")
  | _ ↦ elim (stat h (codes "/opt/mqm/gskit8") m) [
    | found ↦ some (codes "/opt/mqm/gskit8/bin/gsk8capicmd_64")
    | _ ↦ none
  ]
]

abbrev pub rename_command : Text → KeyStore → Text → Text → Command
rename_command tool ks from to =
    tool
    ∷ codes "-cert"
    ∷ codes "-rename"
    ∷ codes "-db"
    ∷ ks.filename
    ∷ codes "-pw"
    ∷ ks.password
    ∷ codes "-label"
    ∷ from
    ∷ codes "-new_label"
    ∷ to
    ∷ []

-- the tool that `RenameCertificate` runs
unfoldable pub rename_tool : Host → KeyStore → Machine → Option Text
unfolding gskit_command
rename_tool h ks m = if eq_text ks.command runmqakm then gskit_command h m else some ks.command

-- `RenameCertificate`
unfoldable pub rename_certificate : Host → KeyStore → Text → Text → Act Machine (Unit {0})
unfolding rename_tool
rename_certificate h ks from to m = elim (rename_tool h ks m) [
  | none ↦ (m, failed)
  | some tool ↦ run_only h (rename_command tool ks from to) m
]
