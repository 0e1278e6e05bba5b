-- ===== src/Mirror/Files.antt =====
-- The files that have had the path of a log, the newest first. A file is the list of its lines, and
-- its number is that of the files older than it, so it stays when newer ones are created.
use mq_container.Base.{
  ℕ, zero, suc, ◌+◌, ◌-◌, ◌≤◌, ◌<◌, ◌≡◌, refl, sym, List, [], ◌∷◌, ◌++◌, Text, length, ◌==◌,
  if◌then◌else◌, arith, append_assoc, append-nil, inl, inr, Bool-cases, length-append,
}

abbrev pub File : Type 0
File = List Text

abbrev pub latest : List File → ℕ
latest files = length files - 1

unfoldable pub write_line : Text → List File → List File
write_line line [] = []
write_line line (f ∷ older) = (f ++ line ∷ []) ∷ older

unfoldable pub content : ℕ → List File → File
content n [] = []
content n (f ∷ older) = if n == length older then f else content n older

abbrev pub drop : ℕ → File → File
drop n [] = []
drop zero (l ∷ ls) = l ∷ ls
drop (suc n) (l ∷ ls) = drop n ls

-- All lines behind a position in a file: the rest of the file, then the newer files in order.
unfoldable pub lines_from : ℕ → ℕ → List File → List Text
lines_from n k [] = []
lines_from n k (f ∷ older) = if n == length older then drop k f else lines_from n k older ++ f

-- A position in a file that is there.
pub record IsPlace (n k : ℕ) (files : List File) : Type 0 where
  pub there : n < length files
  pub within : k ≤ length (content n files)

pub drop-append : (k : ℕ) (xs ys : File) → k ≤ length xs → drop k (xs ++ ys) ≡ drop k xs ++ ys
drop-append zero [] [] h = refl
drop-append zero [] (y ∷ ys) h = refl
drop-append zero (x ∷ xs) ys h = refl
drop-append (suc k) [] ys h = absurd (omega arith)
drop-append (suc k) (x ∷ xs) ys h = drop-append k xs ys (omega arith)

pub drop-zero : (xs : File) → drop 0 xs ≡ xs
drop-zero [] = refl
drop-zero (x ∷ xs) = refl

pub drop-length : (xs : File) → drop (length xs) xs ≡ []
drop-length [] = refl
drop-length (x ∷ xs) = drop-length xs

pub length-drop : (k : ℕ) (xs : File) → k ≤ length xs → k + length (drop k xs) ≡ length xs
length-drop zero [] h = omega arith
length-drop (suc k) [] h = absurd (omega arith)
length-drop zero (x ∷ xs) h = omega arith
length-drop (suc k) (x ∷ xs) h = omega (arith, length-drop k xs (omega arith))

pub length-write_line :
    (line : Text) (files : List File) → length (write_line line files) ≡ length files
unfolding write_line
length-write_line line [] = refl
length-write_line line (f ∷ older) = refl

module _ (n k : ℕ) (line : Text) where
  -- A line that is written stands at the end of what is to come, and moves no position.
  pub lines_from-write_line :
      (files : List File)
      → IsPlace n k files
      → lines_from n k (write_line line files) ≡ lines_from n k files ++ line ∷ []
  unfolding lines_from write_line content
  lines_from-write_line [] p = absurd (omega (arith, p.there))
  lines_from-write_line (f ∷ older) p = elim (Bool-cases (n == length older)) [
    | inl e ↦ rw e (drop-append k f (line ∷ []) (ground (arith, p.within)))
    | inr e ↦ rw e (sym (append_assoc (lines_from n k older) f (line ∷ [])))
  ]

  pub write_line-IsPlace :
      (files : List File) → IsPlace n k files → IsPlace n k (write_line line files)
  unfolding write_line content
  write_line-IsPlace [] p = absurd (omega (arith, p.there))
  write_line-IsPlace (f ∷ older) p = record {
    there = p.there;
    within = ground (arith, p.within, length-append f (line ∷ []));
  }

module _ (n k : ℕ) (files : List File) (p : IsPlace n k files) where
  -- A new file has no lines yet.
  pub lines_from-created : lines_from n k ([] ∷ files) ≡ lines_from n k files
  unfolding lines_from
  lines_from-created = ground (arith, p.there, append-nil (lines_from n k files))

  pub created-IsPlace : IsPlace n k ([] ∷ files)
  unfolding content
  created-IsPlace = record {
    there = omega (arith, p.there);
    within = ground (arith, p.there, p.within);
  }

-- What is to come is the rest of the file, then what comes behind its end.
pub lines_from-content :
    (n k : ℕ) (files : List File)
    → n < length files
    → lines_from n k files
      ≡ drop k (content n files) ++ lines_from n (length (content n files)) files
unfolding lines_from content
lines_from-content n k [] h = absurd (omega arith)
lines_from-content n k (f ∷ older) h = ground (
  arith,
  lines_from-content n k older,
  drop-length f,
  append-nil (drop k f),
  append_assoc (drop k (content n older)) (lines_from n (length (content n older)) older) f,
)

-- Behind the end of the last file but one comes the last.
pub lines_from-next :
    (n : ℕ) (files : List File)
    → n + 2 ≡ length files
    → lines_from n (length (content n files)) files ≡ lines_from (n + 1) 0 files
unfolding lines_from content
lines_from-next n [] h = absurd (omega arith)
lines_from-next n (f ∷ []) h = absurd (omega arith)
lines_from-next n (f ∷ g ∷ older) h = ground (arith, drop-length g, drop-zero f)

-- A line is written to the newest file only.
pub content-write_line :
    (n : ℕ) (line : Text) (files : List File)
    → n + 1 < length files
    → content n (write_line line files) ≡ content n files
unfolding content write_line
content-write_line n line [] h = refl
content-write_line n line (f ∷ older) h = ground arith

pub content-created :
    (n : ℕ) (files : List File) → n < length files → content n ([] ∷ files) ≡ content n files
unfolding content
content-created n files h = ground arith

-- Nothing comes behind the end of the newest file.
pub lines_from_end :
    (n : ℕ) (files : List File)
    → n + 1 ≡ length files
    → lines_from n (length (content n files)) files ≡ []
unfolding lines_from content
lines_from_end n [] h = refl
lines_from_end n (f ∷ older) h = ground (arith, drop-length f)

pub lines_from-newest :
    (n : ℕ) (files : List File) → n + 1 ≡ length files → lines_from n 0 files ≡ content n files
unfolding lines_from content
lines_from-newest n [] h = refl
lines_from-newest n (f ∷ older) h = ground (arith, drop-zero f)
