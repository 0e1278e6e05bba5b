-- ===== src/Logging.antt =====
-- cmd/runmqserver/logging.go: what the environment says of the log on the console, and which messages
-- are mirrored there. What `json.Unmarshal` makes of a message and the host's name are arguments.
pub mod Source
pub mod Mirror
mod Tests
use mq_container.Base.{
  ℕ, suc, ◌+◌, Bool, true, false, not, ◌&&◌, ◌||◌, List, [], ◌∷◌, map, Option, none, some, Text,
  codes, eq_text, has_prefix, contains, trim_space, split_on, Env, getenv, leb, ◌==◌, if◌then◌else◌,
}
use mq_container.Base.Decimal.{is_digit}
use mq_container.MqscRedact.{to_upper}

-- `strings.ToLower` at the characters that it takes to an ASCII letter: the upper case letters, the
-- capital I with a dot and the Kelvin sign. Of the others no comparison with an ASCII text can tell.
unfoldable pub lower : ℕ → ℕ
lower c =
    if leb b'A' c && leb c b'Z'
    then c + 32
    else if c == 0x130
    then b'i'
    else if c == 0x212a
    then b'k'
    else c

-- `strings.ToLower(strings.TrimSpace(os.Getenv(key)))`
unfoldable pub lower_env : Env → Text → Text
lower_env env key = map lower (trim_space (getenv env key))

-- `getLogFormat`
unfoldable pub get_log_format : Env → Text
get_log_format env =
    let console = lower_env env (codes "MQ_LOGGING_CONSOLE_FORMAT") in
    let format = if eq_text console [] then lower_env env (codes "LOG_FORMAT") else console in
    if not (eq_text format []) && (eq_text format (codes "basic") || eq_text format (codes "json"))
    then format
    else codes "basic"

-- `getDebug`
unfoldable pub get_debug : Env → Bool
get_debug env =
    let debug = getenv env (codes "DEBUG") in
    eq_text debug (codes "true") || eq_text debug (codes "1")

-- `getMQLogConsoleSource`
unfoldable pub get_mq_log_console_source : Env → Text
get_mq_log_console_source env = lower_env env (codes "MQ_LOGGING_CONSOLE_SOURCE")

-- the permitted values, a part between two commas that is empty included
unfoldable pub is_permitted : Text → Bool
is_permitted src =
    eq_text src (codes "qmgr")
    || eq_text src (codes "web")
    || eq_text src (codes "mqsc")
    || eq_text src []

-- the loop of `isLogConsoleSourceValid`
unfoldable pub valid_loop : Bool → List Text → Bool
unfolding is_permitted
valid_loop ret_value [] = ret_value
valid_loop ret_value (src ∷ rest) =
    let valid = valid_loop true rest in if is_permitted (trim_space src) then valid else false

-- `isLogConsoleSourceValid`
unfoldable pub is_log_console_source_valid : Env → Bool
is_log_console_source_valid env =
    let source = get_mq_log_console_source env in
    if eq_text source [] then true else valid_loop false (split_on b',' source)

-- the loop of `checkLogSourceForMirroring`
unfoldable pub source_loop : Text → List Text → Bool
source_loop source [] = false
source_loop source (part ∷ rest) =
    let later = source_loop source rest in
    let arr = trim_space part in
    if eq_text arr (codes "qmgr")
    then (if eq_text source (codes "qmgr") then true else later)
    else if eq_text arr (codes "web")
    then (if eq_text source (codes "web") then true else later)
    else if eq_text arr (codes "mqsc")
    then (if eq_text source (codes "mqsc") then true else later)
    else later

-- `checkLogSourceForMirroring`
unfoldable pub check_log_source_for_mirroring : Env → Text → Bool
check_log_source_for_mirroring env source =
    let logsrcs = get_mq_log_console_source env in
    if eq_text logsrcs []
    then (if eq_text source (codes "qmgr") || eq_text source (codes "web") then true else false)
    else source_loop source (split_on b',' logsrcs)

-- `isExcludedMsgIdPresent`
unfoldable pub is_excluded_msg_id_present : Text → List Text → Bool
is_excluded_msg_id_present msg [] = false
is_excluded_msg_id_present msg (id ∷ rest) =
    let later = is_excluded_msg_id_present msg rest in
    if not (eq_text id []) && contains msg (trim_space id) then true else later

-- `canMQSCLogBeMirroredToConsole`
unfoldable pub can_mqsc_log_be_mirrored : Text → Bool
can_mqsc_log_be_mirrored message =
    not (eq_text message [])
    && not (has_prefix (trim_space message) (codes ": *"))
    && not (eq_text (trim_space message) (codes ":"))

-- `[0-9]+E:` at the head of a text; the flag is that a digit was read.
unfoldable pub digits_then_e : Bool → Text → Bool
digits_then_e seen [] = false
digits_then_e seen (c ∷ t) =
    let more = digits_then_e true t in
    if is_digit c then more else seen && has_prefix (c ∷ t) (codes "E:")

unfoldable pub error_at_head : Text → Bool
unfolding digits_then_e has_prefix
error_at_head (a ∷ m ∷ q ∷ t) = has_prefix (a ∷ m ∷ q ∷ []) (codes "AMQ") && digits_then_e false t
error_at_head _ = false

-- whether `AMQ[0-9]+E:` matches somewhere
unfoldable pub has_error_id : Text → Bool
unfolding error_at_head
has_error_id [] = false
has_error_id (c ∷ t) = error_at_head (c ∷ t) || has_error_id t

-- `determineMQSCLogLevel`
unfoldable pub determine_mqsc_log_level : Text → Text
determine_mqsc_log_level message = if has_error_id message then codes "ERROR" else codes "INFO"

-- What the mirror reads of a message in JSON: the member `host`, where it is there and a string.
pub record LogMessage : Type 0 where
  pub host : Option Text

-- `filterQMLogMessage`, where the host's name can be had or not; a message without a host is a panic,
-- `none`.
unfoldable pub filter_qm_log_message : Env → Option Text → LogMessage → Option Bool
filter_qm_log_message env none obj = some false
filter_qm_log_message env (some hostname) obj =
    if eq_text (getenv env (codes "MQ_MULTI_INSTANCE")) (codes "true")
    then elim obj.host [ none ↦ none | some host ↦ some (not (contains host hostname)) ]
    else some false

-- What the mirror function writes.
pub data Written : Type 0 where
  nothing panicked : Written
  unmarshal_error : Written
  message_line : Text → Written
  basic_line : LogMessage → Written
  mqsc_json : Text → Text → Written
  mqsc_line : Text → Written

abbrev pub is_json : Text → Bool
is_json [] = false
is_json (c ∷ msg) = c == b'{'

-- `arrLoggingConsoleExcludeIds`
unfoldable pub exclude_ids : Env → List Text
exclude_ids env = split_on b',' (map to_upper (getenv env (codes "MQ_LOGGING_CONSOLE_EXCLUDE_ID")))

-- the branch of the mirror function for a message in JSON
unfoldable pub mirror_json :
    Env → Option Text → (LogMessage → Written) → Bool → Option LogMessage → Bool × Written
mirror_json env hostname write is_qm_log none = (true, unmarshal_error)
mirror_json env hostname write is_qm_log (some obj) =
    elim (if is_qm_log then filter_qm_log_message env hostname obj else some false) [
      | none ↦ (false, panicked)
      | some true ↦ (false, nothing)
      | some false ↦ (true, write obj)
    ]

-- The two mirror functions of `configureLogger`: how a message in JSON and another one is written is
-- what sets them apart.
unfoldable pub mirror_with :
    (LogMessage → Written)
    → (Text → Written)
    → Env
    → Option Text
    → Option LogMessage
    → Text
    → Bool
    → Bool × Written
mirror_with write_json write_mqsc env hostname parsed msg is_qm_log =
    if is_excluded_msg_id_present msg (exclude_ids env)
    then (false, nothing)
    else if is_json msg
    then mirror_json env hostname write_json is_qm_log parsed
    else if check_log_source_for_mirroring env (codes "mqsc") && can_mqsc_log_be_mirrored msg
    then (true, write_mqsc (trim_space msg))
    else (true, nothing)

-- `case "json"` and `case "basic"` of `configureLogger`; `parsed` is what `processLogMessage` returns
-- for the message.
unfoldable pub mirror : Env → Option Text → Option LogMessage → Text → Bool → Bool × Written
mirror env hostname parsed msg is_qm_log =
    if eq_text (get_log_format env) (codes "json")
    then mirror_with (λ obj. message_line msg) (λ t. mqsc_json (determine_mqsc_log_level t) t) env
        hostname parsed msg is_qm_log
    else mirror_with basic_line mqsc_line env hostname parsed msg is_qm_log
