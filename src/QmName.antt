-- ===== src/QmName.antt =====
-- pkg/name/name.go, and `replaceCharsInQMName` of cmd/runmqserver/qmgr.go: the queue manager's name,
-- and the name of its data directory.
pub mod Valid
mod Tests
use mq_container.Base.{
  ℕ, Bool, true, false, not, ◌&&◌, ◌||◌, List, [], ◌∷◌, ◌++◌, Option, none, some, Text, codes,
  contains, eq_text, replace_char, filter, Env, leb, ◌==◌, if◌then◌else◌,
}

-- the characters that `[^a-zA-Z0-9._%/]` does not match
unfoldable pub is_name_char : ℕ → Bool
is_name_char c =
    (leb b'a' c && leb c b'z')
    || (leb b'A' c && leb c b'Z')
    || (leb b'0' c && leb c b'9')
    || c == b'.'
    || c == b'_'
    || c == b'%'
    || c == b'/'

-- `sanitizeQueueManagerName`
unfoldable pub sanitize_queue_manager_name : Text → Text
sanitize_queue_manager_name name = filter is_name_char name

abbrev pub from_hostname : Option Text → Option Text
from_hostname none = none
from_hostname (some hostname) = some (sanitize_queue_manager_name hostname)

-- what `GetQueueManagerName` does with what `os.LookupEnv` finds
unfoldable pub choose_name : Option Text → Option Text → Option Text
choose_name none hostname = from_hostname hostname
choose_name (some name) hostname = if eq_text name [] then from_hostname hostname else some name

-- `GetQueueManagerName`; `none` where the host name cannot be had
unfoldable pub get_queue_manager_name : Env → Option Text → Option Text
get_queue_manager_name env hostname = choose_name (env (codes "MQ_QMGR_NAME")) hostname

-- `replaceCharsInQMName`
unfoldable pub replace_chars_in_qm_name : Text → Text
replace_chars_in_qm_name qmname =
    let dots =
      if contains qmname (codes ".") then replace_char b'.' (codes "!") qmname else qmname in
    if contains dots (codes "/") then replace_char b'/' (codes "&") dots else dots
