-- ===== src/Main.antt =====
-- cmd/runmqserver/main.go: `doMain`, and `IsEnabled` of internal/simpleauth/simpleauth.go. The calls
-- that doMain makes are listed as operations; which of them return an error, whether createQueueManager
-- made a new queue manager, and the checks before are arguments. The environment stays as it is.
pub mod Gate
pub mod Sequence
pub mod Needed
mod Tests
use mq_container.Base.{
  Bool, true, false, not, ◌&&◌, ◌||◌, List, [], ◌∷◌, ◌++◌, Option, none, some, Text, codes, eq_text,
  equal_fold, trim_space, Env, getenv, if◌then◌else◌,
}
use mq_container.License.{LicenseCheck, accepted, viewed, read_failed, not_set, check_license}
use mq_container.QmName.{get_queue_manager_name}
use mq_container.Logging.{check_log_source_for_mirroring}

-- the command that a trace is taken of
pub data Traced : Type 0 where
  crtmqdir crtmqm strmqm : Traced

-- What doMain calls. `start_reaping` and `reap_now` are its sends to the signal handler.
pub data Operation : Type 0 where
  increase_file_limit : Operation
  clear_ready : Operation
  start_signal_handler : Operation
  log_container_details : Operation
  create_volume : Text → Operation
  clean_volume : Text → Operation
  clean_volume_best_effort : Text → Operation
  write_file : Text → Operation
  copy_file : Text → Text → Operation
  start_mq_trace : Traced → Operation
  end_mq_trace : Traced → Operation
  create_dir_structure : Operation
  process_fips_type : Operation
  configure_default_tls_keystores : Operation
  configure_tls : Operation
  mirror_web_server_logs : Operation
  post_init : Operation
  configure_native_ha : Operation
  fips_post_init : Operation
  create_queue_manager : Operation
  mirror_system_error_logs : Operation
  mirror_queue_manager_error_logs : Bool → Operation
  mirror_mq_simple_auth_logs : Bool → Operation
  update_command_level : Operation
  update_qm_ini : Operation
  start_queue_manager : Operation
  mirror_mqsc_logs : Operation
  gather_metrics : Operation
  start_reaping : Operation
  reap_now : Operation
  mark_startup_complete : Operation
  set_ready : Operation
  await_signal : Operation

-- doMain goes on whatever these do: they return no error, or it is a warning only.
abbrev pub returns_error : Operation → Bool
returns_error increase_file_limit = false
returns_error start_signal_handler = false
returns_error (clean_volume_best_effort path) = false
returns_error process_fips_type = false
returns_error fips_post_init = false
returns_error gather_metrics = false
returns_error start_reaping = false
returns_error reap_now = false
returns_error mark_startup_complete = false
returns_error await_signal = false
returns_error op = true

-- What doMain runs on: the environment, the host's name, the flags, the texts of the licenses, and what
-- fails.
pub record Setting : Type 0 where
  pub env : Env
  pub init_flag : Bool
  pub info_flag : Bool
  pub no_log_runtime_flag : Bool
  pub dev_flag : Bool
  pub logger_configured : Bool
  pub single_process : Bool
  pub hostname : Option Text
  pub licenses : Text → Option Text
  pub new_qm : Bool
  pub fails : Operation → Bool

-- `IsEnabled` of the package simpleauth
abbrev pub is_nonblank : Option Text → Bool
is_nonblank none = false
is_nonblank (some v) = not (eq_text (trim_space v) [])

unfoldable pub simple_auth_enabled : Env → Bool
simple_auth_enabled env = elim (env (codes "MQ_CONNAUTH_USE_HTP")) [
  | none ↦ false
  | some enable_ht_pwd ↦
      equal_fold enable_ht_pwd (codes "true")
      && (is_nonblank (env (codes "MQ_ADMIN_PASSWORD"))
          || is_nonblank (env (codes "MQ_APP_PASSWORD"))
          || is_nonblank (env (codes "MQ_APP_PASSWORD_SECURE"))
          || is_nonblank (env (codes "MQ_ADMIN_PASSWORD_SECURE")))
]

-- an operation under an if
abbrev pub only_if : Bool → List Operation → List Operation
only_if true ops = ops
only_if false ops = []

abbrev pub is_true : Env → Text → Bool
is_true env key = eq_text (getenv env key) (codes "true")

-- `"true"` or `"1"`
abbrev pub is_switched_on : Env → Text → Bool
is_switched_on env key = is_true env key || eq_text (getenv env key) (codes "1")

-- The volumes, and the files on them, up to the flag for the initialization only.
unfoldable pub prepare_volumes : Setting → List Operation
prepare_volumes s =
    let env = s.env in
    let trace = is_switched_on env (codes "MQ_ENABLE_TRACE_CRTMQDIR") in
    let etc = codes "/etc/mqm/web/installations/Installation1/servers/mqweb/" in
    start_signal_handler ∷ only_if (not s.no_log_runtime_flag) (log_container_details ∷ [])
    ++ create_volume (codes "/mnt/mqm/data")
      ∷ create_volume (codes "/mnt/mqm/scratch")
      ∷ create_volume (codes "/mnt/mqm/tmp")
      ∷ create_volume (codes "/mnt/mqm-log/log")
      ∷ create_volume (codes "/mnt/mqm-data/qmgrs")
      ∷ clean_volume (codes "/run/scratch")
      ∷ clean_volume (codes "/run/mqm")
      ∷ only_if (is_true env (codes "MQ_ENABLE_CLEAN_TMP_ON_START"))
          (clean_volume (codes "/tmp") ∷ clean_volume (codes "/mnt/mqm/tmp") ∷ [])
    ++ clean_volume_best_effort (codes "/mnt/mqm/scratch")
      ∷ create_volume (codes "/run/scratch/runmqserver")
      ∷ create_volume (codes "/run/mqm")
      ∷ write_file (codes "/run/15-tls.mqsc")
      ∷ write_file (codes "/run/10-native-ha.ini")
      ∷ write_file (codes "/run/10-native-ha-instance.ini")
      ∷ write_file (codes "/run/10-native-ha-keystore.ini")
      ∷ copy_file
          (if s.dev_flag && is_true env (codes "MQ_DEV")
            then etc ++ codes "mqwebcontainer.xml.dev"
            else etc ++ codes "mqwebcontainer.xml.default")
          (codes "/run/mqwebcontainer.xml")
      ∷ copy_file (etc ++ codes "tls.xml.default") (codes "/run/tls.xml")
      ∷ copy_file (etc ++ codes "configDropins/defaults/jvm.options.default")
          (codes "/run/jvm.options")
      ∷ only_if trace (start_mq_trace crtmqdir ∷ [])
    ++ create_dir_structure ∷ only_if trace (end_mq_trace crtmqdir ∷ [])

-- From there to the start of the queue manager.
unfoldable pub prepare_queue_manager : Setting → List Operation
unfolding simple_auth_enabled
prepare_queue_manager s =
    let env = s.env in
    let trace = is_switched_on env (codes "MQ_ENABLE_TRACE_CRTMQM") in
    let simple_auth = s.dev_flag && simple_auth_enabled env in
    process_fips_type
      ∷ configure_default_tls_keystores
      ∷ configure_tls
      ∷ only_if (check_log_source_for_mirroring env (codes "web")) (mirror_web_server_logs ∷ [])
    ++ post_init ∷ only_if (is_true env (codes "MQ_NATIVE_HA")) (configure_native_ha ∷ [])
    ++ fips_post_init ∷ only_if trace (start_mq_trace crtmqm ∷ [])
    ++ create_queue_manager ∷ only_if trace (end_mq_trace crtmqm ∷ [])
    ++ only_if (check_log_source_for_mirroring env (codes "qmgr"))
        (mirror_system_error_logs ∷ mirror_queue_manager_error_logs s.new_qm ∷ [])
    ++ only_if simple_auth (mirror_mq_simple_auth_logs s.new_qm ∷ [])
    ++ update_command_level
      ∷ only_if (is_switched_on env (codes "MQ_ENABLE_TRACE_STRMQM")) (start_mq_trace strmqm ∷ [])
    ++ only_if simple_auth (update_qm_ini ∷ [])

-- From the start of the queue manager to the end.
unfoldable pub serve : Setting → List Operation
serve s =
    let env = s.env in
    only_if (check_log_source_for_mirroring env (codes "mqsc")) (mirror_mqsc_logs ∷ [])
    ++ only_if (is_switched_on env (codes "MQ_ENABLE_TRACE_STRMQM")) (end_mq_trace strmqm ∷ [])
    ++ only_if (is_switched_on env (codes "MQ_ENABLE_METRICS")) (gather_metrics ∷ [])
    ++ start_reaping ∷ reap_now ∷ mark_startup_complete ∷ set_ready ∷ await_signal ∷ []

unfoldable pub sequence : Setting → List Operation
sequence s =
    prepare_volumes s
    ++ (if s.init_flag then [] else prepare_queue_manager s ++ start_queue_manager ∷ serve s)

-- `if err != nil { return err }` after each call: the operations run, and whether there was an error
unfoldable pub run : (Operation → Bool) → List Operation → List Operation × Bool
run fails [] = ([], false)
run fails (op ∷ ops) =
    let (ran, failed) = run fails ops in
    if returns_error op && fails op then (op ∷ [], true) else (op ∷ ran, failed)

-- the operations so far, and then others
abbrev pub after : List Operation → List Operation × Bool → List Operation × Bool
after ops (ran, failed) = (ops ++ ran, failed)

abbrev pub is_none {ℓ} : {A : Type ℓ} → Option A → Bool
is_none none = true
is_none (some a) = false

-- doMain goes on only if the license is accepted.
unfoldable pub with_license : LicenseCheck → List Operation × Bool → List Operation × Bool
with_license accepted rest = rest
with_license (viewed text) rest = ([], true)
with_license read_failed rest = ([], true)
with_license not_set rest = ([], true)

-- `doMain`: the operations, and whether it returns an error. Where there is no name it returns the
-- error of another call, which is nil.
unfoldable pub do_main : Setting → List Operation × Bool
do_main s =
    let limit =
      only_if (is_true s.env (codes "MQ_ENABLE_SOFT_FILE_LIMIT_INCREASE"))
        (increase_file_limit ∷ []) in
    if not s.logger_configured
    then (limit, true)
    else if s.info_flag
    then (limit, false)
    else if not s.single_process
    then (limit, true)
    else if is_none (get_queue_manager_name s.env s.hostname)
    then (limit, false)
    else if s.fails clear_ready
    then (limit ++ clear_ready ∷ [], true)
    else after (limit ++ clear_ready ∷ [])
        (with_license (check_license s.env s.licenses) (run s.fails (sequence s)))
