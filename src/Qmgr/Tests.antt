-- ===== src/Qmgr/Tests.antt =====
-- The theorems about the queue manager's commands at a shell in which `dspmqinf` finds nothing.
use mq_container.Base.{
  Bool, true, false, [], ◌∷◌, none, some, Text, codes, eq_text, Env, if◌then◌else◌,
}
use mq_container.Qmgr.{CommandResult, Shell, Container}

abbrev name : Text
name = codes "QM1"

abbrev good : CommandResult
good = record { out = codes "QMNAME(QM1) STATUS(RUNNING)"; rc = some 0; is_error = false }

-- the first command fails, with exit code 94, and the others succeed
abbrev shell : Shell
shell [] command = record good { rc = some 94; is_error = true }
shell (c ∷ done) command = good

abbrev running : Shell
running done command = good

abbrev env : Env
env k =
    if eq_text k (codes "MQ_QMGR_LOG_FILE_PAGES")
    then some (codes "4096")
    else if eq_text k (codes "MQ_GRACE_PERIOD")
    then some (codes "45")
    else none

abbrev no_mounts : Text → Bool
no_mounts path = false

abbrev container : Container
container = record {
  env = env;
  mounts = some no_mounts;
  read_file = λ path. none;
  exists = λ path. false;
  mq_version = some (codes "9.4.2.0");
}

-- The container starts again, with another environment, and every file is there.
abbrev restarted : Container
restarted = record container { exists = λ path. true; env = λ k. none }
