-- ===== src/Main/Tests.antt =====
-- The theorems about doMain at a start that succeeds, one without a license, and one that fails.
use mq_container.Base.{
  codes, some, if◌then◌else◌, eq_text, none, true, false, refl, ◌≡◌, Bool, List, [], ◌∷◌, ◌++◌, Env,
  getenv, All, trim_space, trim_left, trim_right, drop_while, is_space,
}
use mq_container.Logging.{
  check_log_source_for_mirroring, get_mq_log_console_source, lower_env, lower,
}
use mq_container.License.{check_license}
use mq_container.QmName.{get_queue_manager_name, choose_name}
use mq_container.Main.{
  Operation, create_dir_structure, create_queue_manager, start_queue_manager, Setting, run,
  sequence, prepare_volumes, prepare_queue_manager, serve, simple_auth_enabled, with_license,
  do_main,
}
use mq_container.Main.Gate.{IsGated, do_main_unlicensed}
use mq_container.Main.Sequence.{is_set_ready, any}
use mq_container.Main.Needed.{needed_volumes, needed_creation, needed_start, set_ready_lem}

abbrev accepting : Env
accepting k = if eq_text k (codes "LICENSE") then some (codes "accept") else none

abbrev no_env : Env
no_env k = none

abbrev good : Setting
good = record {
  env = accepting;
  init_flag = false;
  info_flag = false;
  no_log_runtime_flag = false;
  dev_flag = false;
  logger_configured = true;
  single_process = true;
  hostname = some (codes "qm1");
  licenses = λ file. none;
  new_qm = true;
  fails = λ op. false;
}

abbrev unlicensed : Setting
unlicensed = record good { env = no_env }

starts : any is_set_ready (do_main good).0 ≡ true
unfolding do_main with_license check_license get_queue_manager_name choose_name run sequence
    prepare_volumes prepare_queue_manager serve simple_auth_enabled check_log_source_for_mirroring
    get_mq_log_console_source lower_env lower eq_text getenv trim_space trim_left trim_right
    drop_while is_space
starts = refl

set_ready_lem_example :
    All
      (λ op. good.fails op ≡ false)
      (needed_volumes good ++ needed_creation good ++ needed_start good)
set_ready_lem_example = set_ready_lem good starts

do_main_unlicensed_example : IsGated unlicensed (do_main unlicensed)
do_main_unlicensed_example = do_main_unlicensed unlicensed (λ e. cc)

abbrev creation_fails : Operation → Bool
creation_fails create_queue_manager = true
creation_fails op = false

abbrev some_operations : List Operation
some_operations = create_dir_structure ∷ create_queue_manager ∷ start_queue_manager ∷ []

stopped_early :
    run creation_fails some_operations ≡ (create_dir_structure ∷ create_queue_manager ∷ [], true)
unfolding run
stopped_early = refl
