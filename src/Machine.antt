-- ===== src/Machine.antt =====
-- What the keystore code does outside itself: commands, files and the errors of both, as actions on
-- a state. `command.Run` of internal/command/command.go is a shell, and the calls of Go's `os`
-- package are tests of a path.
use mq_container.Base.{
  ◌≡◌, refl, ap, Bool, true, false, List, [], ◌∷◌, ◌++◌, Text, eq_text, if◌then◌else◌,
}
use mq_container.Qmgr.{Command, Shell}
use mq_container.Ready.{Outcome, ok, failed}

-- An action changes a state, and gives a value or an error.
abbrev pub Act : Type 0 → Type 0 → Type 0
Act S A = S → S × Outcome A

abbrev pub and_then : {S A B : Type 0} → (A → Act S B) → S → Outcome A → S × Outcome B
and_then next s (ok a) = next a s
and_then next s failed = (s, failed)

infixl 5 ◌>>=◌ ◌>>◌
abbrev pub ◌>>=◌ : {S A B : Type 0} → Act S A → (A → Act S B) → Act S B
◌>>=◌ act next s = and_then next (act s).0 (act s).1

abbrev pub ◌>>◌ : {S B : Type 0} → Act S (Unit {0}) → Act S B → Act S B
◌>>◌ act next = act >>= λ _. next

abbrev pub return : {S A : Type 0} → A → Act S A
return a s = (s, ok a)

abbrev pub fail : {S A : Type 0} → Act S A
fail s = (s, failed)

-- The commands that ran, the paths where a file is, and what was written to files.
pub record Machine : Type 0 where
  pub done : List Command
  pub files : Text → Bool
  pub written : List (Text × Text)

-- What commands give, which files there are after a command, from those before, and for which paths `os.Stat` fails although the file may be there, and
-- `os.Remove` and the writing of a file fail.
pub record Host : Type 0 where
  pub sh : Shell
  pub files_after : List Command → Command → (Text → Bool) → Text → Bool
  pub inaccessible : Text → Bool
  pub irremovable : Text → Bool
  pub unwritable : Text → Bool

abbrev pub set_file : Text → Bool → (Text → Bool) → Text → Bool
set_file path there files p = if eq_text p path then there else files p

pub data Stat : Type 0 where
  found missing stat_error : Stat

unfoldable pub stat : Host → Text → Machine → Stat
stat h path m = if h.inaccessible path then stat_error else if m.files path then found else missing

-- `os.Remove`: a missing file is an error too.
unfoldable pub remove : Host → Text → Act Machine (Unit {0})
remove h path m =
    if h.irremovable path
    then (m, failed)
    else if m.files path
    then (record m { files = set_file path false m.files }, ok tt)
    else (m, failed)

-- `os.WriteFile`, and a file that is created, written and closed.
unfoldable pub write_file : Host → Text → Text → Act Machine (Unit {0})
write_file h path contents m = if h.unwritable path then (m, failed) else (
  record m { files = set_file path true m.files; written = m.written ++ (path, contents) ∷ [] },
  ok tt,
)

-- `command.Run`, of which the callers read the output and whether there is an error
unfoldable pub run_command : Host → Command → Act Machine Text
run_command h c m =
    let res = h.sh m.done c in
    let m' : Machine = record m {
      done = m.done ++ c ∷ [];
      files = h.files_after m.done c m.files;
    } in
    (m', if res.is_error then failed else ok res.out)

-- An action in front of another, where it is known what it gives.
module _ {S A B : Type 0} (act : Act S A) (next : A → Act S B) where
  pub bind_ok : (s s' : S) (a : A) → act s ≡ (s', ok a) → (act >>= next) s ≡ next a s'
  bind_ok s s' a e = ap (λ (r : S × Outcome A). and_then next r.0 r.1) e

  pub bind_failed : (s s' : S) → act s ≡ (s', failed) → (act >>= next) s ≡ (s', failed)
  bind_failed s s' e = ap (λ (r : S × Outcome A). and_then next r.0 r.1) e

  pub bind_gives :
      (s : S) {b : B}
      → ((act >>= next) s).1 ≡ ok b
      → (a : A) × ((act s).1 ≡ ok a) × ((next a (act s).0).1 ≡ ok b)
  bind_gives s {b} e = gives (act s).0 (act s).1 e
    where
      gives :
          (t : S) (r : Outcome A)
          → (and_then next t r).1 ≡ ok b
          → (a : A) × (r ≡ ok a) × ((next a t).1 ≡ ok b)
      gives t (ok a) h = (a, refl, h)
      gives t failed h = absurd (cc)
