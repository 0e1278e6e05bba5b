-- ===== src/Keystore.antt =====
-- internal/keystore/keystore.go: key stores, the commands that manage them, and how the lists that
-- these print are read.
pub mod Commands
pub mod Labels
pub mod Create
mod Tests
use mq_container.Base.{
  ℕ, Bool, true, false, not, ◌&&◌, ◌||◌, List, [], ◌∷◌, ◌++◌, reverse, Option, none, some, Text,
  codes, eq_text, has_prefix, trim_space, drop_while, ◌==◌, if◌then◌else◌,
}
use mq_container.Qmgr.{Command, CommandResult}
use mq_container.Ready.{Outcome, ok, failed}
use mq_container.Machine.{
  Act, ◌>>=◌, ◌>>◌, return, fail, Machine, Host, Stat, found, missing, stat_error, stat, remove,
  run_command,
}

pub record KeyStore : Type 0 where
  pub filename : Text
  pub password : Text
  pub key_store_type : Text
  pub command : Text
  pub fips_enabled : Bool

abbrev pub runmqakm : Text
runmqakm = codes "/opt/mqm/bin/runmqakm"

-- `NewJKSKeyStore`, `NewCMSKeyStore`, `NewPKCS12KeyStore`
abbrev pub new_jks_key_store : Bool → Text → Text → KeyStore
new_jks_key_store fips filename password = record {
  filename = filename;
  password = password;
  key_store_type = codes "jks";
  command = codes "/opt/mqm/bin/runmqckm";
  fips_enabled = fips;
}

abbrev pub new_cms_key_store : Bool → Text → Text → KeyStore
new_cms_key_store fips filename password = record {
  filename = filename;
  password = password;
  key_store_type = codes "cms";
  command = runmqakm;
  fips_enabled = fips;
}

abbrev pub new_pkcs12_key_store : Bool → Text → Text → KeyStore
new_pkcs12_key_store fips filename password = record {
  filename = filename;
  password = password;
  key_store_type = codes "p12";
  command = runmqakm;
  fips_enabled = fips;
}

-- what stands before the last dot of a reversed text, if that is in its last element
unfoldable pub behind_dot : Text → Option Text
behind_dot [] = none
behind_dot (c ∷ s) = if c == b'/' then none else if c == b'.' then some s else behind_dot s

-- `filename[0:len(filename)-len(filepath.Ext(filename))]`
unfoldable pub without_ext : Text → Text
unfolding behind_dot
without_ext filename = elim (behind_dot (reverse filename)) [ none ↦ filename | some s ↦ reverse s ]

-- `getFipsEnabledFlag`: one argument of the commands
unfoldable pub get_fips_enabled_flag : KeyStore → Text
get_fips_enabled_flag ks = if ks.fips_enabled then codes "-fips" else codes "-fips false"

unfoldable pub create_command : KeyStore → Command
create_command ks =
    ks.command
    ∷ codes "-keydb"
    ∷ codes "-create"
    ∷ get_fips_enabled_flag ks
    ∷ codes "-type"
    ∷ ks.key_store_type
    ∷ codes "-db"
    ∷ ks.filename
    ∷ codes "-pw"
    ∷ ks.password
    ∷ codes "-stash"
    ∷ []

-- the files beside the key store that `Create` deletes with it
unfoldable pub remove_companions : Host → KeyStore → Act Machine (Unit {0})
unfolding remove
remove_companions h ks = do
  remove h (without_ext ks.filename ++ codes ".sth")
  remove h (without_ext ks.filename ++ codes ".rdb")
  remove h (without_ext ks.filename ++ codes ".crl")

abbrev pub when : {S : Type 0} → Bool → Act S (Unit {0}) → Act S (Unit {0})
when true act = act
when false act = return tt

unfoldable pub refresh : Host → KeyStore → Act Machine (Unit {0})
unfolding remove_companions remove
refresh h ks = do
  when (eq_text ks.key_store_type (codes "cms")) (remove_companions h ks)
  remove h ks.filename

abbrev pub refresh_at : Host → KeyStore → Stat → Act Machine (Unit {0})
refresh_at h ks found = refresh h ks
refresh_at h ks missing = return tt
refresh_at h ks stat_error = fail

-- `Create`
unfoldable pub create : Host → KeyStore → Act Machine (Unit {0})
create h ks m =
    (do refresh_at h ks (stat h ks.filename m); _ ← run_command h (create_command ks); return tt) m

abbrev pub stash_command : KeyStore → Command
stash_command ks =
    ks.command
    ∷ codes "-keydb"
    ∷ get_fips_enabled_flag ks
    ∷ codes "-stashpw"
    ∷ codes "-type"
    ∷ ks.key_store_type
    ∷ codes "-db"
    ∷ ks.filename
    ∷ codes "-pw"
    ∷ ks.password
    ∷ []

abbrev pub stash_at : Host → KeyStore → Stat → Act Machine (Unit {0})
stash_at h ks found = return tt
-- The `err` that is returned is that of `os.Stat`, also where the command succeeds.
stash_at h ks missing = do _ ← run_command h (stash_command ks); fail
stash_at h ks stat_error = fail

-- `CreateStash`
unfoldable pub create_stash : Host → KeyStore → Act Machine (Unit {0})
create_stash h ks m = stash_at h ks (stat h (without_ext ks.filename ++ codes ".sth") m) m
