-- ===== src/Qmgr.antt =====
-- cmd/runmqserver/qmgr.go: the commands by which the queue manager is created, started and stopped,
-- and their arguments. A shell says what a command gives after the commands that ran before it. The
-- mounts, the files and the output of `dspmqver` are arguments.
pub mod Commands
pub mod Arguments
mod Tests
use mq_container.Base.{
  ℕ, suc, Bool, true, false, not, ◌&&◌, ◌||◌, List, [], ◌∷◌, ◌++◌, Option, none, some, Text, codes,
  eq_text, contains, replace_char, Env, getenv, ◌==◌, if◌then◌else◌,
}
use mq_container.Base.Decimal.{ℤ, pos, negsuc, atoi, itoa}
use mq_container.MqVersion.{Parsed, valid, invalid, compare_version}
use mq_container.MqscRedact.{redact}
use mq_container.QmName.{replace_chars_in_qm_name}
use mq_container.Ready.{Outcome, ok, failed, QmStatus, is_standby_qm, status}

-- a command with its arguments
abbrev pub Command : Type 0
Command = List Text

-- What `command.Run` returns: the output, the exit code, `none` where a signal ended the command,
-- and whether there is an error.
pub record CommandResult : Type 0 where
  pub out : Text
  pub rc : Option ℕ
  pub is_error : Bool

abbrev pub Shell : Type 0
Shell = List Command → Command → CommandResult

abbrev pub has_rc : ℕ → Option ℕ → Bool
has_rc n none = false
has_rc n (some rc) = rc == n

-- What the functions find besides the commands' results; `mounts` is `none` where it fails.
pub record Container : Type 0 where
  pub env : Env
  pub mounts : Option (Text → Bool)
  pub read_file : Text → Option Text
  pub exists : Text → Bool
  pub mq_version : Option Text

-- `createDirStructure`: exit code 10 is a warning.
unfoldable pub create_dir_structure : Shell → List Command → List Command × Outcome (Unit {0})
create_dir_structure sh done =
    let crtmqdir = codes "/opt/mqm/bin/crtmqdir" ∷ codes "-f" ∷ codes "-a" ∷ [] in
    let res = sh done crtmqdir in
    (done ++ crtmqdir ∷ [], if res.is_error && not (has_rc 10 res.rc) then failed else ok tt)

-- `pathutils.CleanPath(dir, name)` for a name without slashes and dots, which is what
-- `replaceCharsInQMName` returns
unfoldable pub clean_path : Text → Text → Text
clean_path dir name = if eq_text name [] then dir else dir ++ b'/' ∷ name

-- `getQueueManagerDataDir`
unfoldable pub get_queue_manager_data_dir : (Text → Bool) → Text → Text
unfolding clean_path
get_queue_manager_data_dir mounts name =
    if mounts (codes "/mnt/mqm-data")
    then clean_path (codes "/mnt/mqm-data/qmgrs") name
    else clean_path (codes "/var/mqm/qmgrs") name

-- `oaVal`: where the versions cannot be compared, the result of `Compare` is 0.
unfoldable pub oa_val : Parsed ℤ → Text
oa_val (invalid e) = codes "UserExternal"
oa_val (valid (pos n)) = codes "UserExternal"
oa_val (valid (negsuc n)) = codes "user"

abbrev pub append_if : Bool → List Text → List Text
append_if true args = args
append_if false args = []

abbrev pub is_number : Option ℤ → Bool
is_number none = false
is_number (some n) = true

-- the arguments of `crtmqm` before the number of log file pages
unfoldable pub first_args : Container → (Text → Bool) → Bool → List Text
unfolding oa_val
first_args c mounts dev_mode =
    codes "-ii"
      ∷ codes "/etc/mqm/"
      ∷ codes "-ic"
      ∷ codes "/etc/mqm/"
      ∷ codes "-q"
      ∷ codes "-p"
      ∷ codes "1414"
      ∷ append_if (eq_text (getenv c.env (codes "MQ_NATIVE_HA")) (codes "true"))
          (codes "-lr" ∷ getenv c.env (codes "HOSTNAME") ∷ [])
    ++ append_if dev_mode
        (codes "-oa" ∷ oa_val (compare_version c.mq_version (codes "9.2.1.0")) ∷ [])
    ++ append_if (mounts (codes "/mnt/mqm-log")) (codes "-ld" ∷ codes "/mnt/mqm-log/log" ∷ [])
    ++ append_if (mounts (codes "/mnt/mqm-data")) (codes "-md" ∷ codes "/mnt/mqm-data/qmgrs" ∷ [])

-- the arguments that pass on MQ_QMGR_LOG_FILE_PAGES
unfoldable pub page_args : Text → List Text
page_args pages =
    append_if (not (eq_text pages []) && is_number (atoi pages)) (codes "-lf" ∷ pages ∷ [])

-- `getCreateQueueManagerArgs`
unfoldable pub get_create_queue_manager_args : Container → (Text → Bool) → Text → Bool → List Text
get_create_queue_manager_args c mounts name dev_mode =
    first_args c mounts dev_mode
    ++ page_args (getenv c.env (codes "MQ_QMGR_LOG_FILE_PAGES"))
    ++ name ∷ []

-- `getCreateStandbyQueueManagerArgs`
unfoldable pub get_create_standby_queue_manager_args : Text → List Text
get_create_standby_queue_manager_args name =
    codes "-s"
    ∷ codes "QueueManager"
    ∷ codes "-v"
    ∷ (codes "Name=" ++ name)
    ∷ codes "-v"
    ∷ (codes "Directory=" ++ name)
    ∷ codes "-v"
    ∷ codes "Prefix=/var/mqm"
    ∷ codes "-v"
    ∷ (codes "DataPath=/mnt/mqm-data/qmgrs/" ++ name)
    ∷ []

-- `validateLogFilePageSetting`; it only decides on a warning.
unfoldable pub validate_log_file_page_setting : Text → Text → Bool
validate_log_file_page_setting ini_file log_file_pages =
    contains ini_file (codes "LogFilePages=" ++ log_file_pages)

-- the branch of `createQueueManager` for a queue manager that is there: only a qm.ini that has to be
-- read and cannot be is an error
unfoldable pub existing_queue_manager : Container → Text → Outcome Bool
existing_queue_manager c data_dir =
    if eq_text (getenv c.env (codes "MQ_QMGR_LOG_FILE_PAGES")) []
    then ok false
    else elim (c.read_file (data_dir ++ codes "/qm.ini")) [ none ↦ failed | some ini ↦ ok false ]

-- the end of `createQueueManager`: one command more
unfoldable pub new_queue_manager :
    Shell → List Command → Container → (Text → Bool) → Text → Bool → List Command × Outcome Bool
unfolding get_queue_manager_data_dir get_create_queue_manager_args
    get_create_standby_queue_manager_args
new_queue_manager sh done c mounts name dev_mode =
    let data_dir = get_queue_manager_data_dir mounts (replace_chars_in_qm_name name) in
    let create =
      if c.exists (data_dir ++ codes "/qm.ini")
      then codes "addmqinf" ∷ get_create_standby_queue_manager_args name
      else codes "crtmqm" ∷ get_create_queue_manager_args c mounts name dev_mode in
    (done ++ create ∷ [], if (sh done create).is_error then failed else ok true)

-- `createQueueManager`, with the mounts it found
unfoldable pub create_with_mounts :
    Shell → List Command → Container → (Text → Bool) → Text → Bool → List Command × Outcome Bool
unfolding existing_queue_manager new_queue_manager
create_with_mounts sh done c mounts name dev_mode =
    let dspmqinf = codes "dspmqinf" ∷ name ∷ [] in
    let data_dir = get_queue_manager_data_dir mounts (replace_chars_in_qm_name name) in
    if not (sh done dspmqinf).is_error
    then (done ++ dspmqinf ∷ [], existing_queue_manager c data_dir)
    else new_queue_manager sh (done ++ dspmqinf ∷ []) c mounts name dev_mode

-- `createQueueManager`, with what `GetMounts` returns
unfoldable pub create_after_mounts :
    Shell
    → List Command
    → Container
    → Option (Text → Bool)
    → Text
    → Bool
    → List Command × Outcome Bool
unfolding create_with_mounts
create_after_mounts sh done c none name dev_mode = (done, failed)
create_after_mounts sh done c (some mounts) name dev_mode =
    create_with_mounts sh done c mounts name dev_mode

-- `createQueueManager`
unfoldable pub create_queue_manager :
    Shell → List Command → Container → Text → Bool → List Command × Outcome Bool
unfolding create_after_mounts
create_queue_manager sh done c name dev_mode = create_after_mounts sh done c c.mounts name dev_mode

-- `updateCommandLevel`
unfoldable pub update_command_level : Shell → List Command → Env → List Command × Outcome (Unit {0})
update_command_level sh done env = elim (env (codes "MQ_CMDLEVEL")) [
  | none ↦ (done, ok tt)
  | some level ↦
      let strmqm = codes "strmqm" ∷ codes "-e" ∷ (codes "CMDLEVEL=" ++ level) ∷ [] in
      if eq_text level []
      then (done, ok tt)
      else (done ++ strmqm ∷ [], if (sh done strmqm).is_error then failed else ok tt)
]

-- `startQueueManager`: a standby (30) and a replica (94) are fine.
unfoldable pub start_queue_manager : Shell → List Command → Text → List Command × Outcome (Unit {0})
start_queue_manager sh done name =
    let strmqm = codes "strmqm" ∷ codes "-x" ∷ name ∷ [] in
    let res = sh done strmqm in
    (
      done ++ strmqm ∷ [],
      if res.is_error && not (has_rc 30 res.rc || has_rc 94 res.rc) then failed else ok tt,
    )

-- `qmGracePeriod`, with its default
abbrev pub grace_period : Option ℤ → ℤ
grace_period none = pos 30
grace_period (some n) = n

-- `strconv.Itoa`
unfoldable pub itoa_int : ℤ → Text
itoa_int (pos n) = itoa n
itoa_int (negsuc n) = b'-' ∷ itoa (suc n)

-- the arguments of `endmqm`
unfoldable pub end_args : Env → Bool → Text → List Text
unfolding itoa_int
end_args env is_standby name =
    let period = itoa_int (grace_period (atoi (getenv env (codes "MQ_GRACE_PERIOD")))) in
    if eq_text (getenv env (codes "MQ_MULTI_INSTANCE")) (codes "true")
    then (if is_standby
        then codes "-x" ∷ name ∷ []
        else codes "-s" ∷ codes "-w" ∷ codes "-tp" ∷ period ∷ name ∷ [])
    else codes "-w" ∷ codes "-r" ∷ codes "-tp" ∷ period ∷ name ∷ []

-- the output of a command, as `ready.Status` takes it
abbrev pub output : CommandResult → Outcome Text
output res = if res.is_error then failed else ok res.out

-- `stopQueueManager`
unfoldable pub stop_queue_manager :
    Shell → List Command → Env → Text → List Command × Outcome (Unit {0})
unfolding end_args
stop_queue_manager sh done env name =
    let dspmq = codes "dspmq" ∷ codes "-n" ∷ codes "-m" ∷ name ∷ [] in
    let ran = done ++ dspmq ∷ [] in
    elim (status (output (sh done dspmq))) [
      | failed ↦ (ran, failed)
      | ok st ↦
          let endmqm = codes "endmqm" ∷ end_args env (is_standby_qm st) name in
          (ran ++ endmqm ∷ [], if (sh ran endmqm).is_error then failed else ok tt)
    ]

-- `startMQTrace` and `endMQTrace`
unfoldable pub start_mq_trace : Shell → List Command → List Command × Outcome (Unit {0})
start_mq_trace sh done =
    let strmqtrc = codes "strmqtrc" ∷ [] in
    (done ++ strmqtrc ∷ [], if (sh done strmqtrc).is_error then failed else ok tt)

unfoldable pub end_mq_trace : Shell → List Command → List Command × Outcome (Unit {0})
end_mq_trace sh done =
    let endmqtrc = codes "endmqtrc" ∷ [] in
    (done ++ endmqtrc ∷ [], if (sh done endmqtrc).is_error then failed else ok tt)

-- `isStandbyQueueManager`
unfoldable pub is_standby_queue_manager : Shell → List Command → Text → List Command × Outcome Bool
is_standby_queue_manager sh done name =
    let dspmq = codes "dspmq" ∷ codes "-n" ∷ codes "-m" ∷ name ∷ [] in
    let res = sh done dspmq in
    (
      done ++ dspmq ∷ [],
      if res.is_error then failed else ok (contains res.out (codes "(RUNNING AS STANDBY)")),
    )

-- `formatMQSCOutput`; `none` where the fuel of `redact` would run out
unfoldable pub format_mqsc_output : Text → Option Text
format_mqsc_output out = elim (redact out) [
  | none ↦ none
  | some t ↦ some (replace_char b'\n' (b'\n' ∷ b'\t' ∷ []) t)
]
