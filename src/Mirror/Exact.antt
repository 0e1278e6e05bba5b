-- ===== src/Mirror/Exact.antt =====
-- The invariant of the reader between its turns: what was mirrored and what is to come.
use mq_container.Base.{
  ℕ, ◌+◌, ◌≤◌, ◌<◌, ◌≡◌, refl, sym, ap, ◌∙◌, Bool, false, List, [], ◌∷◌, ◌++◌, Text, length, arith,
  append_assoc, if-elim, not, ◌||◌, ◌==◌,
}
use mq_container.Mirror.{
  Pc, stat_first, open_first, wait_first, open_found, stat_open, seek, mirror_first, wait_next,
  mirror_rest, reopen, mirror_new, poll, finished, failed, refused, Tail, mirror_available_messages,
  mirror_messages, turn_at, same_file_or_rotated, Event, turn, written, moved, created, cancel,
  step, run,
}
use mq_container.Mirror.Files.{
  File, content, drop, lines_from, write_line, latest, IsPlace, lines_from-write_line,
  write_line-IsPlace, lines_from-created, created-IsPlace, lines_from-content, lines_from-next,
  length-drop, length-write_line, content-write_line, content-created,
}

-- Once a place has been chosen to begin at: what has been mirrored, and then all that is still to
-- come, is what stands behind that place.
pub record IsInStep (g k : ℕ) (s : Tail) : Type 0 where
  pub origin : IsPlace g k s.files
  pub place : IsPlace s.f s.position s.files
  pub exact : s.mirrored ++ lines_from s.f s.position s.files ≡ lines_from g k s.files

-- What the code knows of the two file numbers where it stands.
abbrev pub At : Pc → ℕ → ℕ → ℕ → List File → Type 0
At mirror_first f fi position files = fi ≡ f
At wait_next f fi position files = fi ≡ f
At (mirror_rest new) f fi position files = f < new × new < length files
At (reopen new) f fi position files =
    f < new × new < length files × position ≡ length (content f files)
At mirror_new f fi position files = fi ≡ f
At poll f fi position files = fi ≡ f
At finished f fi position files = Unit
At failed f fi position files = Unit
At _ f fi position files = ⊥

abbrev pub IsExact : ℕ → ℕ → Tail → Type 0
IsExact g k s = IsInStep g k s × At s.pc s.f s.fi s.position s.files

-- When the path is opened again, the file it names is the one after that which was read, and the rest
-- of the old file can be read before. All other calls may fail.
abbrev pub OneBehind : Pc → Bool → Tail → Type 0
OneBehind (mirror_rest new) fault s = fault ≡ false
OneBehind (reopen new) fault s = length s.files ≤ s.f + 2
OneBehind _ fault s = Unit

abbrev pub OneBehindAt : Event → Tail → Type 0
OneBehindAt (turn fault) s = OneBehind s.pc fault s
OneBehindAt _ s = Unit

abbrev pub RotatesSlowly : List Event → Tail → Type 0
RotatesSlowly [] s = Unit
RotatesSlowly (e ∷ events) s = OneBehindAt e s × RotatesSlowly events (step e s)

module _ (g k : ℕ) where
  pub mirror_available-IsInStep :
      (s : Tail) (pc : Pc)
      → IsInStep g k s
      → IsInStep g k (record (mirror_available_messages s) { pc = pc })
        × (mirror_available_messages s).position ≡ length (content s.f s.files)
  unfolding mirror_available_messages
  mirror_available-IsInStep s pc h =
      let p = h.place in
      let e = length-drop s.position (content s.f s.files) p.within in
      (
        record {
          origin = h.origin;
          place = record { there = p.there; within = omega (arith, e) };
          exact = ground (
            arith,
            h.exact,
            e,
            lines_from-content s.f s.position s.files p.there,
            append_assoc s.mirrored (drop s.position (content s.f s.files))
                (lines_from s.f (length (content s.f s.files)) s.files),
          );
        },
        e,
      )

  with_pc : (s : Tail) (pc : Pc) → IsInStep g k s → IsInStep g k (record s { pc = pc })
  with_pc s pc h = record { origin = h.origin; place = h.place; exact = h.exact }

  found-At :
      (f fi position : ℕ) (files : List File)
      → fi ≡ f
      → f < length files
      → At (same_file_or_rotated fi (latest files)) f fi position files
  unfolding same_file_or_rotated
  found-At f fi position files at there =
      if-elim (λ pc. At pc f fi position files) (fi == latest files) (λ e. at)
        (λ e. (ground arith, omega (arith, there)))

  reopen-IsExact :
      (s : Tail) (new : ℕ)
      → length s.files ≤ s.f + 2
      → IsInStep g k s
      → At (reopen new) s.f s.fi s.position s.files
      → IsExact g k (record s { f = latest s.files; position = 0; fi = new; pc = mirror_new })
  reopen-IsExact s new slow h at =
      let last : s.f + 1 ≡ latest s.files = omega (arith, at.0, at.1) in
      let two : s.f + 2 ≡ length s.files = omega (arith, at.0, at.1) in
      let next = ap (λ n. lines_from s.f n s.files) at.2 ∙ lines_from-next s.f s.files two in
      (
        record {
          origin = h.origin;
          place = record { there = omega (arith, last, two); within = omega arith };
          exact =
              ap (λ n. s.mirrored ++ lines_from n 0 s.files) (sym last)
              ∙ ap (λ ls. s.mirrored ++ ls) (sym next)
              ∙ h.exact;
        },
        omega (arith, at.0, at.1),
      )

  turn_at-IsExact :
      (pc : Pc) (fault : Bool) (s : Tail)
      → s.pc ≡ pc
      → OneBehind pc fault s
      → IsInStep g k s
      → At pc s.f s.fi s.position s.files
      → IsExact g k (turn_at pc fault s)
  unfolding turn_at mirror_messages mirror_available_messages
  turn_at-IsExact mirror_first fault s e slow h at =
      if-elim (IsExact g k) fault (λ _. (with_pc s wait_next h, at))
        (λ _. ((mirror_available-IsInStep s wait_next h).0, at))
  turn_at-IsExact wait_next fault s e slow h at =
      if-elim (IsExact g k) fault (λ _. (with_pc s failed h, tt))
        (λ _.
          if-elim (IsExact g k) s.linked
            (λ _. (with_pc s _ h, found-At s.f s.fi s.position s.files at h.place.there))
            (λ _.
              if-elim (IsExact g k) s.cancelled (λ _. (with_pc s failed h, tt))
                (λ _. (h, rw e at))))
  turn_at-IsExact (mirror_rest new) fault s e slow h at =
      let m = mirror_available-IsInStep s (reopen new) h in
      if-elim (IsExact g k) fault (λ bad. cc) (λ _. (m.0, (at.0, at.1, m.1)))
  turn_at-IsExact (reopen new) fault s e slow h at =
      if-elim (IsExact g k) (fault || not s.linked) (λ _. (with_pc s failed h, tt))
        (λ _. reopen-IsExact s new slow h at)
  turn_at-IsExact mirror_new fault s e slow h at =
      if-elim (IsExact g k) fault (λ _. (with_pc s poll h, at))
        (λ _. ((mirror_available-IsInStep s poll h).0, at))
  turn_at-IsExact poll fault s e slow h at =
      if-elim (IsExact g k) s.cancelled
        (λ _.
          if-elim (IsExact g k) s.closing (λ _. (with_pc s finished h, tt))
            (λ _. (record { origin = h.origin; place = h.place; exact = h.exact }, at)))
        (λ _. (with_pc s mirror_first h, at))
  turn_at-IsExact finished fault s e slow h at = (h, rw e tt)
  turn_at-IsExact failed fault s e slow h at = (h, rw e tt)
  turn_at-IsExact stat_first fault s e slow h at = absurd at
  turn_at-IsExact open_first fault s e slow h at = absurd at
  turn_at-IsExact wait_first fault s e slow h at = absurd at
  turn_at-IsExact open_found fault s e slow h at = absurd at
  turn_at-IsExact stat_open fault s e slow h at = absurd at
  turn_at-IsExact seek fault s e slow h at = absurd at
  turn_at-IsExact refused fault s e slow h at = absurd at

  write_line-At :
      (pc : Pc) (f fi position : ℕ) (line : Text) (files : List File)
      → At pc f fi position files
      → At pc f fi position (write_line line files)
  write_line-At mirror_first f fi position line files at = at
  write_line-At wait_next f fi position line files at = at
  write_line-At mirror_new f fi position line files at = at
  write_line-At poll f fi position line files at = at
  write_line-At finished f fi position line files at = at
  write_line-At failed f fi position line files at = at
  write_line-At (mirror_rest new) f fi position line files at =
      omega (arith, at, length-write_line line files)
  write_line-At (reopen new) f fi position line files at =
      let same = content-write_line f line files (omega (arith, at.0, at.1)) in
      (at.0, omega (arith, at.1, length-write_line line files), at.2 ∙ ap length (sym same))
  write_line-At stat_first f fi position line files at = absurd at
  write_line-At open_first f fi position line files at = absurd at
  write_line-At wait_first f fi position line files at = absurd at
  write_line-At open_found f fi position line files at = absurd at
  write_line-At stat_open f fi position line files at = absurd at
  write_line-At seek f fi position line files at = absurd at
  write_line-At refused f fi position line files at = absurd at

  created-At :
      (pc : Pc) (f fi position : ℕ) (files : List File)
      → f < length files
      → At pc f fi position files
      → At pc f fi position ([] ∷ files)
  created-At mirror_first f fi position files there at = at
  created-At wait_next f fi position files there at = at
  created-At mirror_new f fi position files there at = at
  created-At poll f fi position files there at = at
  created-At finished f fi position files there at = at
  created-At failed f fi position files there at = at
  created-At (mirror_rest new) f fi position files there at = omega (arith, at)
  created-At (reopen new) f fi position files there at =
      (at.0, omega (arith, at.1), at.2 ∙ ap length (sym (content-created f files there)))
  created-At stat_first f fi position files there at = absurd at
  created-At open_first f fi position files there at = absurd at
  created-At wait_first f fi position files there at = absurd at
  created-At open_found f fi position files there at = absurd at
  created-At stat_open f fi position files there at = absurd at
  created-At seek f fi position files there at = absurd at
  created-At refused f fi position files there at = absurd at

  step-IsExact : (e : Event) (s : Tail) → OneBehindAt e s → IsExact g k s → IsExact g k (step e s)
  unfolding step
  step-IsExact (turn fault) s slow h = turn_at-IsExact s.pc fault s refl slow h.0 h.1
  step-IsExact (written line) s slow h = (
    record {
      origin = write_line-IsPlace g k line s.files h.0.origin;
      place = write_line-IsPlace s.f s.position line s.files h.0.place;
      exact = ground (
        arith,
        h.0.exact,
        lines_from-write_line g k line s.files h.0.origin,
        lines_from-write_line s.f s.position line s.files h.0.place,
        append_assoc s.mirrored (lines_from s.f s.position s.files) (line ∷ []),
      );
    },
    write_line-At s.pc s.f s.fi s.position line s.files h.1,
  )
  step-IsExact moved s slow h =
      (record { origin = h.0.origin; place = h.0.place; exact = h.0.exact }, h.1)
  step-IsExact created s slow h = (
    record {
      origin = created-IsPlace g k s.files h.0.origin;
      place = created-IsPlace s.f s.position s.files h.0.place;
      exact = ground (
        arith,
        h.0.exact,
        lines_from-created g k s.files h.0.origin,
        lines_from-created s.f s.position s.files h.0.place,
      );
    },
    created-At s.pc s.f s.fi s.position s.files h.0.place.there h.1,
  )
  step-IsExact cancel s slow h =
      (record { origin = h.0.origin; place = h.0.place; exact = h.0.exact }, h.1)

  -- At most one rotation at a time: what has been mirrored and what is to come are exactly what
  -- stands behind the place where the reader began.
  pub run-IsExact :
      (events : List Event) (s : Tail)
      → RotatesSlowly events s
      → IsExact g k s
      → IsExact g k (run events s)
  unfolding run
  run-IsExact [] s slow h = h
  run-IsExact (e ∷ events) s slow h =
      run-IsExact events (step e s) slow.1 (step-IsExact e s slow.0 h)
