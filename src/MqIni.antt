-- ===== src/MqIni.antt =====
-- pkg/mqini/mqini.go: what dspmqinf says about a queue manager, and its directories. The prefix and the
-- directory are clean paths, as MQ makes them.
pub mod Stanza
mod Tests
use mq_container.Base.{
  ℕ, Bool, true, false, not, List, [], ◌∷◌, ◌++◌, Option, none, some, Text, codes, eq_text,
  trim_space, split_on, leb, if◌then◌else◌,
}
use mq_container.LogRotation.{byte_length}
use mq_container.Keystore.Commands.{lines_of, strip_cr, max_scan_token_size}
use mq_container.Qmgr.{Command, Shell, clean_path}
use mq_container.Ready.{Outcome, ok, failed}

-- `QueueManager`
pub record QueueManager : Type 0 where
  pub qm_name : Text
  pub prefix : Text
  pub directory : Text
  pub data_path : Text
  pub installation_name : Text

abbrev pub no_queue_manager : QueueManager
no_queue_manager = record {
  qm_name = [];
  prefix = [];
  directory = [];
  data_path = [];
  installation_name = [];
}

-- the switch on the key, with its value
unfoldable pub set_field : Text → Text → QueueManager → QueueManager
set_field key value qm =
    if eq_text key (codes "Name")
    then record qm { qm_name = value }
    else if eq_text key (codes "Prefix")
    then record qm { prefix = value }
    else if eq_text key (codes "Directory")
    then record qm { directory = value }
    else if eq_text key (codes "DataPath")
    then record qm { data_path = value }
    else if eq_text key (codes "InstallationName")
    then record qm { installation_name = value }
    else qm

unfoldable pub is_field : Text → Bool
is_field key =
    if eq_text key (codes "Name")
    then true
    else if eq_text key (codes "Prefix")
    then true
    else if eq_text key (codes "Directory")
    then true
    else if eq_text key (codes "DataPath")
    then true
    else eq_text key (codes "InstallationName")

-- The parts of a line; a key of a field without a value is a panic, `none`.
unfoldable pub read_parts : List Text → QueueManager → Option QueueManager
unfolding set_field is_field
read_parts [] qm = none
read_parts (key ∷ []) qm = if is_field key then none else some qm
read_parts (key ∷ value ∷ rest) qm = some (set_field key value qm)

-- The loop over the lines; the scanner stops with an error at a line that fills its buffer.
unfoldable pub read_lines : List Text → QueueManager → Option (Outcome QueueManager)
unfolding read_parts
read_lines [] qm = some (ok qm)
read_lines (l ∷ ls) qm =
    if leb max_scan_token_size (byte_length l)
    then some failed
    else elim (read_parts (split_on b'=' (trim_space (strip_cr l))) qm) [
      | none ↦ none
      | some qm' ↦ read_lines ls qm'
    ]

-- `getQueueManagerFromStanza`
unfoldable pub get_queue_manager_from_stanza : Text → Option (Outcome QueueManager)
unfolding read_lines lines_of
get_queue_manager_from_stanza stanza = read_lines (lines_of stanza) no_queue_manager

abbrev pub dspmqinf : Text → Command
dspmqinf name = codes "dspmqinf" ∷ codes "-o" ∷ codes "stanza" ∷ name ∷ []

-- `GetQueueManager`, where mqs.ini is there or not
unfoldable pub get_queue_manager :
    Bool → Shell → List Command → Text → List Command × Option (Outcome QueueManager)
unfolding get_queue_manager_from_stanza
get_queue_manager ini_exists sh done name =
    let res = sh done (dspmqinf name) in
    let command = dspmqinf name in
    if not ini_exists then (done, some failed) else (
      done ++ command ∷ [],
      if res.is_error then some failed else get_queue_manager_from_stanza res.out,
    )

-- `GetDataDirectory`
unfoldable pub get_data_directory : QueueManager → Text
unfolding clean_path
get_data_directory qm =
    if not (eq_text qm.data_path [])
    then qm.data_path
    else clean_path (clean_path qm.prefix (codes "qmgrs")) qm.directory

-- `GetErrorLogDirectory`
unfoldable pub get_error_log_directory : QueueManager → Text
unfolding get_data_directory clean_path
get_error_log_directory qm = clean_path (get_data_directory qm) (codes "errors")
