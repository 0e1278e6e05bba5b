-- ===== src/LogRotation/Rotate.antt =====
-- What `performLogRotation` and `Init` do to the files.
use mq_container.Base.{
  if-elim, Text, ℕ, zero, suc, ◌+◌, ◌-◌, ◌<◌, ◌≡◌, refl, Bool, true, false, ◌&&◌, [], none, some,
  arith, fun_ext, ◌∙◌, leb, ltb, ◌==◌, if◌then◌else◌,
}
use native.Mathlib.Decide.{ℕ_discrete}
use mq_container.LogRotation.{
  RotatingLogger, Files, Faults, no_faults, update, content, touch, init_loop, init, rename_next,
  rename_loop, create_first_file, perform_log_rotation,
}

-- The files after the rotation: the first is empty, each other instance is the one before it, and
-- files that are no instance stay.
abbrev pub rotated : ℕ → Files → Files
rotated count files j =
    if j == 1 then some [] else if leb 2 j && leb j count then files (j - 1) else files j

-- Every instance up to `i` moves up by one, if there is none at `i`.
abbrev moved : ℕ → Files → Files
moved i files j =
    if leb 2 j && leb j i then files (j - 1) else if leb 2 i && j == 1 then none else files j

rename_next_lem :
    (files : Files) (i j : ℕ)
    → files (suc i) ≡ none
    → rename_next files i j ≡ (if j == suc i then files i else if j == i then none else files j)
rename_next_lem files i j h = ground arith

moved-next :
    (i : ℕ) (files : Files) (j : ℕ)
    → files (suc (suc i)) ≡ none
    → moved (suc i) (rename_next files (suc i)) j ≡ moved (suc (suc i)) files j
moved-next i files j h = rw (fun_ext (λ k. rename_next_lem files (suc i) k h)) (ground arith)

rename_loop-moved :
    (i : ℕ) (files : Files) (j : ℕ)
    → files i ≡ none
    → (rename_loop no_faults i files).0 j ≡ moved i files j
unfolding rename_loop
rename_loop-moved zero files j h = ground arith
rename_loop-moved (suc zero) files j h = ground arith
rename_loop-moved (suc (suc i)) files j h =
    let files' : Files = rename_next files (suc i) in
    rename_loop-moved (suc i) files' j (rename_next_lem files (suc i) (suc i) h ∙ ground arith)
    ∙ moved-next i files j h

rename_loop_done : (i : ℕ) (files : Files) → (rename_loop no_faults i files).1 ≡ true
unfolding rename_loop
rename_loop_done zero files = refl
rename_loop_done (suc zero) files = refl
rename_loop_done (suc (suc i)) files = rename_loop_done (suc i) (rename_next files (suc i))

-- With no fault, a rotation of one file at least empties the first file, makes each other instance
-- hold what the one before it held, a missing file included, and leaves all other files alone.
pub perform_log_rotation_lem :
    (r : RotatingLogger) (files : Files) (j : ℕ)
    → 0 < r.log_files_count
    → (perform_log_rotation r no_faults files).0 j ≡ rotated r.log_files_count files j
unfolding perform_log_rotation create_first_file
perform_log_rotation_lem r files j h = ground (
  arith,
  rename_loop_done r.log_files_count (update files r.log_files_count none),
  rename_loop-moved r.log_files_count (update files r.log_files_count none) j,
)

rename_loop_above :
    (faults : Faults) (i : ℕ) (files : Files) (k : ℕ)
    → i < k
    → (rename_loop faults i files).0 k ≡ files k
unfolding rename_loop
rename_loop_above faults zero files k h = refl
rename_loop_above faults (suc zero) files k h = refl
rename_loop_above faults (suc (suc i)) files k h =
    ground (arith, rename_loop_above faults (suc i) (rename_next files (suc i)) k)

-- Where a text is after some renames, and where it is if all of them were made.
abbrev Kept : ℕ → Text → Files × Bool → Type 0
Kept j t out = (k : ℕ) × (out.0 k ≡ some t) × (out.1 ≡ true → k ≡ suc j)

rename_loop-Kept :
    (faults : Faults) (i : ℕ) (files : Files) (j : ℕ) (t : Text)
    → 0 < j
    → j < i
    → files i ≡ none
    → files j ≡ some t
    → Kept j t (rename_loop faults i files)
unfolding rename_loop
rename_loop-Kept faults zero files j t pos lt free at = absurd (omega arith)
rename_loop-Kept faults (suc zero) files j t pos lt free at = absurd (omega arith)
rename_loop-Kept faults (suc (suc i)) files j t pos lt free at =
    if-elim (Kept j t) (faults.rename_to (suc (suc i))) (λ e. (j, at, λ k. cc))
      λ e. elim (ℕ_discrete j (suc i)) [
        | yes same ↦ (
          suc j,
          rename_loop_above faults (suc i) (rename_next files (suc i)) (suc j) (omega arith)
              ∙ ground (arith, rename_next_lem files (suc i) (suc j)),
          λ k. refl,
        )
        | no other ↦
            rename_loop-Kept faults (suc i) (rename_next files (suc i)) j t pos (omega arith)
              (ground (arith, rename_next_lem files (suc i) (suc i)))
              (ground (arith, rename_next_lem files (suc i) j))
      ]

-- Whatever calls of the operating system fail in a rotation, what an instance other than the last
-- holds is still the content of a file afterwards.
pub perform_log_rotation_keeps :
    (r : RotatingLogger) (faults : Faults) (files : Files) (j : ℕ) (t : Text)
    → 0 < j
    → j < r.log_files_count
    → files j ≡ some t
    → (k : ℕ) × ((perform_log_rotation r faults files).0 k ≡ some t)
unfolding perform_log_rotation create_first_file
perform_log_rotation_keeps r faults files j t pos lt at =
    if-elim (λ (out : Files × Bool). (k : ℕ) × (out.0 k ≡ some t)) faults.remove_last (λ e. (j, at))
      λ e.
        let start : Files = update files r.log_files_count none in
        let (k, kept, moved_up) =
          rename_loop-Kept faults r.log_files_count start j t pos lt (ground arith)
            (ground arith) in
        (
          k,
          created faults (rename_loop faults r.log_files_count start) k t kept
              (λ h. rw (moved_up h) (omega arith)),
        )
  where
    created :
        (faults : Faults) (out : Files × Bool) (k : ℕ) (t : Text)
        → out.0 k ≡ some t
        → (out.1 ≡ true → 1 < k)
        → (create_first_file faults out).0 k ≡ some t
    created faults (files, false) k t kept up = kept
    created faults (files, true) k t kept up = ground (arith, up refl)

init_loop_lem :
    (i n : ℕ) (files : Files) (j : ℕ)
    → (init_loop no_faults i n files).0 j
      ≡ (if leb i j && ltb j (i + n) then some (content (files j)) else files j)
unfolding init_loop
init_loop_lem i zero files j = ground arith
init_loop_lem i (suc n) files j = ground (arith, init_loop_lem (i + 1) n (touch files i) j)

-- With no fault, `Init` makes every instance exist, and changes no content.
pub init_lem :
    (r : RotatingLogger) (files : Files) (j : ℕ)
    → (init r no_faults files).0 j
      ≡ (if leb 1 j && leb j r.log_files_count then some (content (files j)) else files j)
unfolding init
init_lem r files j = ground (arith, init_loop_lem 1 r.log_files_count files j)
