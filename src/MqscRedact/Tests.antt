-- ===== src/MqscRedact/Tests.antt =====
-- Runs of `Redact` on the kinds of input that mqscredact_test.go has, and instances of the theorems.
use mq_container.Base.{◌≡◌, refl, some, Text, codes, trim_space, contains}
use mq_container.MqscRedact.{
  redact, redact_trimmed, round, main_loop, to_upper, start_output, is_sensitive_command,
  read_verb_char, get_parameter_string, read_parameter, quoted_part, find_end_of_parameter_string,
  next_loop, read_comment,
}
use mq_container.MqscRedact.Rounds.{Redacts}
use mq_container.MqscRedact.Account.{redact-Redacts}
use mq_container.Base.{arith}
use mq_container.MqscRedact.Values.{char, quoted, empty}
use mq_container.MqscRedact.Hiding.{around, redact-hides}

redact_password :
    redact (codes "  ALTER AUTHINFO(a) PASSWORD('se)cret') X(1)\n")
    ≡ some (codes "ALTER AUTHINFO(a) PASSWORD(*********) X(1)")
unfolding redact round main_loop to_upper start_output is_sensitive_command read_verb_char
    get_parameter_string read_parameter quoted_part find_end_of_parameter_string next_loop
    read_comment trim_space contains
redact_password = refl

redact_continued :
    redact (codes "SSL+\n* comment (\nCRYP(a b)")
    ≡ some (codes "SSL+\n* comment (\nCRYP(*********)")
unfolding redact round main_loop to_upper start_output is_sensitive_command read_verb_char
    get_parameter_string read_parameter quoted_part find_end_of_parameter_string next_loop
    read_comment trim_space contains
redact_continued = refl

redact-Redacts_example :
    (t : Text) × (redact (codes " PASSWORD(x) ") ≡ some t)
    × Redacts (trim_space (codes " PASSWORD(x) ")) (trim_space (codes " PASSWORD(x) ")) t
redact-Redacts_example = redact-Redacts (codes " PASSWORD(x) ")

redact-hides_example :
    redact_trimmed (around (codes "A B ") (codes "ldappwd") (codes " C(1)") (codes "se')'"))
    ≡ redact_trimmed (around (codes "A B ") (codes "ldappwd") (codes " C(1)") (codes "x"))
unfolding is_sensitive_command to_upper contains
redact-hides_example =
    redact-hides (codes "A B ") b'l' (codes "dappwd") (codes "se')'") (codes "x") (codes " C(1)")
      (ground arith) (ground arith) refl
      (char b's' refl (char b'e' refl (quoted b'\'' (codes ")") refl (ground arith) empty refl)))
      (char b'x' refl empty)
