-- ===== src/Logging/Tests.antt =====
-- The theorems about logging at concrete settings and messages.
use mq_container.Base.{
  ◌≡◌, refl, inl, true, false, [], ◌||◌, none, some, codes, eq_text, contains, has_prefix,
  trim_space, trim_left, trim_right, is_space, drop_while, split_on, Env, getenv, if◌then◌else◌,
}
use mq_container.MqscRedact.{to_upper}
use mq_container.Logging.{
  lower_env, lower, get_log_format, get_mq_log_console_source, check_log_source_for_mirroring,
  source_loop, exclude_ids, mirror, mirror_with, mirror_json, filter_qm_log_message, LogMessage,
  is_excluded_msg_id_present,
}
use mq_container.Logging.Source.{has_part, check_log_source_lem}

abbrev settings : Env
settings k =
    if eq_text k (codes "MQ_LOGGING_CONSOLE_SOURCE")
    then some (codes "qmgr, MQSC")
    else if eq_text k (codes "MQ_LOGGING_CONSOLE_EXCLUDE_ID")
    then some (codes "amq5041i")
    else if eq_text k (codes "MQ_MULTI_INSTANCE")
    then some (codes "true")
    else none

mqsc_mirrored : check_log_source_for_mirroring settings (codes "mqsc") ≡ true
unfolding check_log_source_for_mirroring source_loop get_mq_log_console_source lower_env lower
    split_on getenv eq_text trim_space trim_left trim_right is_space drop_while
mqsc_mirrored = refl

check_log_source_lem_example : check_log_source_for_mirroring settings (codes "qmgr") ≡ (
    if eq_text (get_mq_log_console_source settings) []
    then eq_text (codes "qmgr") (codes "qmgr") || eq_text (codes "qmgr") (codes "web")
    else has_part (codes "qmgr") (split_on b',' (get_mq_log_console_source settings)))
check_log_source_lem_example = check_log_source_lem settings (codes "qmgr") (inl refl)

abbrev other_host : LogMessage
other_host = record { host = some (codes "qm-1") }

other_host_kept :
    (mirror settings (some (codes "qm-0")) (some other_host) (codes "{}") true).0 ≡ false
unfolding mirror mirror_with mirror_json filter_qm_log_message get_log_format lower_env lower
    exclude_ids to_upper is_excluded_msg_id_present split_on getenv eq_text contains has_prefix
    trim_space trim_left trim_right is_space drop_while
other_host_kept = refl
