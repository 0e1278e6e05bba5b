-- ===== src/QmName/Tests.antt =====
-- The theorems about queue manager names at concrete names.
use mq_container.Base.{◌≡◌, refl, none, some, Text, codes, contains, replace_char, Env}
use mq_container.QmName.{
  is_name_char, sanitize_queue_manager_name, get_queue_manager_name, choose_name,
  replace_chars_in_qm_name,
}
use mq_container.QmName.Valid.{replace_chars-injective}

abbrev host : Text
host = codes "mq-0.ibm"

abbrev no_env : Env
no_env k = none

dashes : sanitize_queue_manager_name host ≡ codes "mq0.ibm"
unfolding sanitize_queue_manager_name is_name_char
dashes = refl

directory : replace_chars_in_qm_name (codes "QM.1/A") ≡ codes "QM!1&A"
unfolding replace_chars_in_qm_name contains replace_char
directory = refl

from_host : get_queue_manager_name no_env (some host) ≡ some (codes "mq0.ibm")
unfolding get_queue_manager_name choose_name sanitize_queue_manager_name is_name_char
from_host = refl

replace_chars-injective_example : codes "Q.1" ≡ codes "Q.1"
replace_chars-injective_example =
    replace_chars-injective (codes "Q.1") (codes "Q.1") (refl, (refl, (refl, tt)))
      (refl, (refl, (refl, tt))) refl
