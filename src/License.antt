-- ===== src/License.antt =====
-- cmd/runmqserver/license.go: the licence check at the start of the container.
pub mod Accept
mod Tests
use mq_container.Base.{
  Bool, true, false, not, ◌&&◌, List, [], ◌∷◌, ◌++◌, Option, none, some, Text, codes, eq_text,
  has_prefix, Env, if◌then◌else◌,
}

-- the `switch` of `resolveLicenseFile` on the value of LANG
unfoldable pub file_for : Text → Text
file_for lang =
    if has_prefix lang (codes "zh_TW")
    then codes "Chinese_TW.txt"
    else if has_prefix lang (codes "zh")
    then codes "Chinese.txt"
    else if has_prefix lang (codes "cs") && not (has_prefix lang (codes "csb"))
    then codes "Czech.txt"
    else if has_prefix lang (codes "fr")
    then codes "French.txt"
    else if has_prefix lang (codes "de")
    then codes "German.txt"
    else if has_prefix lang (codes "el")
    then codes "Greek.txt"
    else if has_prefix lang (codes "id")
    then codes "Indonesian.txt"
    else if has_prefix lang (codes "it")
    then codes "Italian.txt"
    else if has_prefix lang (codes "ja")
    then codes "Japanese.txt"
    else if has_prefix lang (codes "ko") && not (has_prefix lang (codes "kok"))
    then codes "Korean.txt"
    else if has_prefix lang (codes "lt")
    then codes "Lithuanian.txt"
    else if has_prefix lang (codes "pl")
    then codes "Polish.txt"
    else if has_prefix lang (codes "pt")
    then codes "Portugese.txt"
    else if has_prefix lang (codes "ru")
    then codes "Russian.txt"
    else if has_prefix lang (codes "sl")
    then codes "Slovenian.txt"
    else if has_prefix lang (codes "es")
    then codes "Spanish.txt"
    else if has_prefix lang (codes "tr")
    then codes "Turkish.txt"
    else codes "English.txt"

-- `resolveLicenseFile`
unfoldable pub resolve_license_file : Env → Text
unfolding file_for
resolve_license_file env = elim (env (codes "LANG")) [
  | none ↦ codes "English.txt"
  | some lang ↦ file_for lang
]

-- What `checkLicense` does: it accepts; it shows a text and does not accept; or it fails.
pub data LicenseCheck : Type 0 where
  accepted : LicenseCheck
  viewed : Text → LicenseCheck
  read_failed : LicenseCheck
  not_set : LicenseCheck

-- `checkLicense`, over the contents of the files in /opt/mqm/licenses
unfoldable pub check_license : Env → (Text → Option Text) → LicenseCheck
unfolding resolve_license_file
check_license env licenses = elim (env (codes "LICENSE")) [
  | none ↦ not_set
  | some lic ↦
      if eq_text lic (codes "accept")
      then accepted
      else if eq_text lic (codes "view")
      then elim (licenses (resolve_license_file env)) [ none ↦ read_failed | some buf ↦ viewed buf ]
      else not_set
]
