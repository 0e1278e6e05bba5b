-- ===== src/MqIni/Stanza.antt =====
-- What dspmqinf prints is read back.
use mq_container.Base.{
  ℕ, ◌+◌, ◌<◌, ◌≡◌, refl, sym, ap, ◌∙◌, Bool, true, false, not, List, [], ◌∷◌, ◌++◌, some, Text,
  codes, eq_text, append_assoc, trim_space, split_on, all, All, ◌==◌, leb, arith, ◌⊎◌, inl, inr,
  is_space,
}
use mq_container.Base.Spaces.{trim_space-solid, trim_space-blank}
use mq_container.LogRotation.{byte_length, rune_bytes}
use mq_container.Keystore.Commands.{strip_cr, max_scan_token_size}
use mq_container.Keystore.Labels.{
  unlines, one_line, lines_of-unlines, trim_space-strip_cr, byte_length-append,
}
use mq_container.Qmgr.{Command, Shell}
use mq_container.Ready.{ok}
use mq_container.MqIni.{
  QueueManager, no_queue_manager, set_field, is_field, read_parts, read_lines,
  get_queue_manager_from_stanza, dspmqinf, get_queue_manager,
}

abbrev pub no_equals : Text → Bool
no_equals = all (λ c. not (c == b'='))

split_on-free : (s : Text) → no_equals s ≡ true → split_on b'=' s ≡ s ∷ []
unfolding split_on
split_on-free [] h = refl
split_on-free (c ∷ s) h = ground (arith, split_on-free s)

split_on-pair :
    (k s : Text) → no_equals k ≡ true → split_on b'=' (k ++ b'=' ∷ s) ≡ k ∷ split_on b'=' s
unfolding split_on
split_on-pair [] s h = refl
split_on-pair (c ∷ k) s h = ground (arith, split_on-pair k s)

-- A value on one line that ends in no white space, has no equals sign, and fits the scanner's buffer
pub record IsValue (v : Text) : Type 0 where
  pub before : Text
  pub end : ℕ
  pub ends : v ≡ before ++ end ∷ []
  pub solid : is_space end ≡ false
  pub on_one_line : one_line v ≡ true
  pub no_sign : no_equals v ≡ true
  pub short : byte_length v + 32 < max_scan_token_size

abbrev pub field_line : Text → Text → Text
field_line key value = codes "   " ++ key ++ b'=' ∷ value

field_line-parts :
    (c : ℕ) (k v : Text)
    → is_space c ≡ false
    → no_equals (c ∷ k) ≡ true
    → IsValue v
    → split_on b'=' (trim_space (strip_cr (field_line (c ∷ k) v))) ≡ (c ∷ k) ∷ v ∷ []
field_line-parts c k v e f h =
    let line = c ∷ k ++ b'=' ∷ v in
    let whole : line ≡ c ∷ (k ++ b'=' ∷ h.before) ++ h.end ∷ [] =
      ap (λ t. c ∷ k ++ b'=' ∷ t) h.ends
      ∙ ap (λ t. c ∷ t) (sym (append_assoc k (b'=' ∷ h.before) (h.end ∷ []))) in
    let trimmed : trim_space line ≡ line =
      ap trim_space whole ∙ trim_space-solid c (k ++ b'=' ∷ h.before) h.end e h.solid ∙ sym whole in
    let blanks : trim_space (field_line (c ∷ k) v) ≡ trim_space line =
      trim_space-blank _ ∙ trim_space-blank _ ∙ trim_space-blank line in
    ap (λ t. split_on b'=' t) (trim_space-strip_cr (field_line (c ∷ k) v) ∙ blanks ∙ trimmed)
    ∙ split_on-pair (c ∷ k) v f
    ∙ ap (λ xs. (c ∷ k) ∷ xs) (split_on-free v h.no_sign)

field_line-fits :
    (k v : Text)
    → byte_length k < 28
    → IsValue v
    → leb max_scan_token_size (byte_length (field_line k v)) ≡ false
unfolding byte_length rune_bytes
field_line-fits k v short h = ground (arith, byte_length-append k (b'=' ∷ v), h.short)

read_lines-field :
    (c : ℕ) (k v : Text) (ls : List Text) (qm : QueueManager)
    → is_space c ≡ false
    → no_equals (c ∷ k) ≡ true
    → byte_length (c ∷ k) < 28
    → IsValue v
    → read_lines (field_line (c ∷ k) v ∷ ls) qm ≡ read_lines ls (set_field (c ∷ k) v qm)
unfolding read_lines read_parts
read_lines-field c k v ls qm e f short h =
    let fits : leb max_scan_token_size (byte_length (field_line (c ∷ k) v)) ≡ false =
      field_line-fits (c ∷ k) v short h in
    rw (fits, field_line-parts c k v e f h) refl

-- The lines of a stanza; the path of the data stands there only where it was given.
abbrev pub data_path_line : Text → List Text
data_path_line [] = []
data_path_line (c ∷ t) = field_line (codes "DataPath") (c ∷ t) ∷ []

abbrev pub stanza_lines : QueueManager → List Text
stanza_lines qm =
    codes "QueueManager:"
    ∷ field_line (codes "Name") qm.qm_name
    ∷ field_line (codes "Directory") qm.directory
    ∷ field_line (codes "Prefix") qm.prefix
    ∷ field_line (codes "InstallationName") qm.installation_name
    ∷ data_path_line qm.data_path

pub record IsPrintable (qm : QueueManager) : Type 0 where
  pub qm_name_value : IsValue qm.qm_name
  pub directory_value : IsValue qm.directory
  pub prefix_value : IsValue qm.prefix
  pub installation_name_value : IsValue qm.installation_name
  pub data_path_value : (qm.data_path ≡ []) ⊎ IsValue qm.data_path

data_path-read :
    (path : Text) (qm : QueueManager)
    → (path ≡ []) ⊎ IsValue path
    → qm.data_path ≡ []
    → read_lines (data_path_line path) qm ≡ some (ok (record qm { data_path = path }))
unfolding read_lines set_field eq_text is_space byte_length rune_bytes
data_path-read [] qm h e = ap (λ p. some (ok (record qm { data_path = p }))) e
data_path-read (c ∷ t) qm (inl e) u = absurd (cc)
data_path-read (c ∷ t) qm (inr h) u =
    read_lines-field b'D' (codes "ataPath") (c ∷ t) [] qm refl refl (omega arith) h

-- The heading has no equals sign.
heading-read :
    (ls : List Text) (qm : QueueManager)
    → read_lines (codes "QueueManager:" ∷ ls) qm ≡ read_lines ls qm
unfolding read_lines read_parts is_field eq_text split_on strip_cr byte_length rune_bytes trim_space
heading-read ls qm = refl

stanza_lines-read :
    (qm : QueueManager)
    → IsPrintable qm
    → read_lines (stanza_lines qm) no_queue_manager ≡ some (ok qm)
unfolding set_field eq_text is_space byte_length rune_bytes
stanza_lines-read qm h =
    let q0 = no_queue_manager in
    let q1 : QueueManager = record q0 { qm_name = qm.qm_name } in
    let q2 : QueueManager = record q1 { directory = qm.directory } in
    let q3 : QueueManager = record q2 { prefix = qm.prefix } in
    let q4 : QueueManager = record q3 { installation_name = qm.installation_name } in
    let l4 = data_path_line qm.data_path in
    let l3 = field_line (codes "InstallationName") qm.installation_name ∷ l4 in
    let l2 = field_line (codes "Prefix") qm.prefix ∷ l3 in
    let l1 = field_line (codes "Directory") qm.directory ∷ l2 in
    heading-read (field_line (codes "Name") qm.qm_name ∷ l1) q0
    ∙ read_lines-field b'N' (codes "ame") qm.qm_name l1 q0 refl refl (omega arith) h.qm_name_value
    ∙ read_lines-field b'D' (codes "irectory") qm.directory l2 q1 refl refl (omega arith)
        h.directory_value
    ∙ read_lines-field b'P' (codes "refix") qm.prefix l3 q2 refl refl (omega arith) h.prefix_value
    ∙ read_lines-field b'I' (codes "nstallationName") qm.installation_name l4 q3 refl refl
        (omega arith) h.installation_name_value
    ∙ data_path-read qm.data_path q4 h.data_path_value refl

data_path_line-OneLine :
    (path : Text) → (path ≡ []) ⊎ IsValue path → All (λ l. one_line l ≡ true) (data_path_line path)
data_path_line-OneLine [] h = tt
data_path_line-OneLine (c ∷ t) (inl e) = absurd (cc)
data_path_line-OneLine (c ∷ t) (inr h) = (h.on_one_line, tt)

stanza_lines-OneLine :
    (qm : QueueManager) → IsPrintable qm → All (λ l. one_line l ≡ true) (stanza_lines qm)
stanza_lines-OneLine qm h = (
  refl,
  (
    h.qm_name_value.on_one_line,
    (
      h.directory_value.on_one_line,
      (
        h.prefix_value.on_one_line,
        (
          h.installation_name_value.on_one_line,
          data_path_line-OneLine qm.data_path h.data_path_value,
        ),
      ),
    ),
  ),
)

stanza-read :
    (qm : QueueManager)
    → IsPrintable qm
    → get_queue_manager_from_stanza (unlines (stanza_lines qm)) ≡ some (ok qm)
unfolding get_queue_manager_from_stanza
stanza-read qm h =
    ap (λ ls. read_lines ls no_queue_manager)
      (lines_of-unlines (stanza_lines qm) (stanza_lines-OneLine qm h))
    ∙ stanza_lines-read qm h

-- Where mqs.ini is there and dspmqinf succeeds with the stanza of a queue manager, whose values are on
-- one line, have no equals sign, end in no white space and fit the scanner's buffer, GetQueueManager
-- runs dspmqinf alone and returns that queue manager.
pub get_queue_manager_lem :
    (sh : Shell) (done : List Command) (name : Text) (qm : QueueManager)
    → IsPrintable qm
    → (sh done (dspmqinf name)).is_error ≡ false
    → (sh done (dspmqinf name)).out ≡ unlines (stanza_lines qm)
    → get_queue_manager true sh done name ≡ (done ++ dspmqinf name ∷ [], some (ok qm))
unfolding get_queue_manager
get_queue_manager_lem sh done name qm h sound out = rw (sound) (
    ap (λ o. (done ++ dspmqinf name ∷ [], get_queue_manager_from_stanza o)) out
    ∙ ap (λ r. (done ++ dspmqinf name ∷ [], r)) (stanza-read qm h))
