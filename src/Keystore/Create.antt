-- ===== src/Keystore/Create.antt =====
-- What `Create` leaves behind, and how it fails.
use mq_container.Base.{
  ◌≡◌, inl, inr, refl, false, List, [], ◌∷◌, ◌++◌, Text, codes, eq_text, arith, eq_text_refl,
  Bool-cases, if-elim, if◌then◌else◌, All, All-append, ◌∙◌, ap, sym,
}
use mq_container.Ready.{Outcome, ok, failed}
use mq_container.Machine.{
  Machine, Host, Stat, found, missing, stat_error, stat, remove, run_command, Act, and_then, return,
  ◌>>=◌, ◌>>◌,
}
use mq_container.Keystore.{
  KeyStore, create, create_command, refresh, refresh_at, remove_companions, without_ext,
  create_stash, stash_command,
}

-- Files may have gone, and no command has run.
record Shrinks (m m' : Machine) : Type 0 where
  stay_away : (p : Text) → m.files p ≡ false → m'.files p ≡ false
  done : m'.done ≡ m.done

Shrinks-refl : (m : Machine) → Shrinks m m
Shrinks-refl m = record { stay_away = λ p e. e; done = refl }

Shrinks-trans : {m m' m'' : Machine} → Shrinks m m' → Shrinks m' m'' → Shrinks m m''
Shrinks-trans a b = record {
  stay_away = λ p e. b.stay_away p (a.stay_away p e);
  done = b.done ∙ a.done;
}

-- what `refresh` removes
abbrev pub stale : KeyStore → List Text
stale ks =
    if eq_text ks.key_store_type (codes "cms")
    then (without_ext ks.filename ++ codes ".sth")
      ∷ (without_ext ks.filename ++ codes ".rdb")
      ∷ (without_ext ks.filename ++ codes ".crl")
      ∷ ks.filename
      ∷ []
    else ks.filename ∷ []

module _ (h : Host) where
  remove-Shrinks : (path : Text) (m : Machine) → Shrinks m (remove h path m).0
  unfolding remove
  remove-Shrinks path m =
      if-elim (λ (r : Machine × Outcome (Unit {0})). Shrinks m r.0) (h.irremovable path)
        (λ _. Shrinks-refl m)
        (λ _.
          if-elim (λ (r : Machine × Outcome (Unit {0})). Shrinks m r.0) (m.files path)
            (λ _. record { stay_away = λ p e. ground arith; done = refl }) (λ _. Shrinks-refl m))

  remove_gone :
      (path : Text) (m : Machine)
      → (remove h path m).1 ≡ ok tt
      → (remove h path m).0.files path ≡ false
  unfolding remove
  remove_gone path m e = ground (arith, eq_text_refl path)

  -- An action that only removes, and after which, if it succeeds, some paths have no file.
  record Clears (act : Act Machine (Unit {0})) (paths : List Text) : Type 0 where
    shrinks : (m : Machine) → Shrinks m (act m).0
    clears : (m : Machine) → (act m).1 ≡ ok tt → All (λ p. (act m).0.files p ≡ false) paths

  remove-Clears : (path : Text) → Clears (remove h path) (path ∷ [])
  remove-Clears path = record {
    shrinks = remove-Shrinks path;
    clears = λ m e. (remove_gone path m e, tt);
  }

  return-Clears : Clears (return tt) []
  return-Clears = record { shrinks = Shrinks-refl; clears = λ m e. tt }

  All-stay_away :
      {m m' : Machine} (paths : List Text)
      → Shrinks m m'
      → All (λ p. m.files p ≡ false) paths
      → All (λ p. m'.files p ≡ false) paths
  All-stay_away [] s a = tt
  All-stay_away (p ∷ paths) s a = (s.stay_away p a.0, All-stay_away paths s a.1)

  then-Shrinks :
      (next : Act Machine (Unit {0})) {qs : List Text} (m m' : Machine) (r : Outcome (Unit {0}))
      → Clears next qs
      → Shrinks m m'
      → Shrinks m (and_then (λ _. next) m' r).0
  then-Shrinks next m m' (ok a) b s = Shrinks-trans s (b.shrinks m')
  then-Shrinks next m m' failed b s = s

  then-Clears :
      (next : Act Machine (Unit {0})) (ps : List Text) {qs : List Text} (m' : Machine)
      (r : Outcome (Unit {0}))
      → Clears next qs
      → (r ≡ ok tt → All (λ p. m'.files p ≡ false) ps)
      → (and_then (λ _. next) m' r).1 ≡ ok tt
      → All (λ p. (and_then (λ _. next) m' r).0.files p ≡ false) (ps ++ qs)
  then-Clears next ps {qs} m' (ok a) b h e =
      All-append (λ p. (next m').0.files p ≡ false) ps qs (All-stay_away ps (b.shrinks m') (h refl))
        (b.clears m' e)
  then-Clears next ps m' failed b h e = absurd (cc)

  >>-Clears :
      (act next : Act Machine (Unit {0})) {ps qs : List Text}
      → Clears act ps
      → Clears next qs
      → Clears (act >> next) (ps ++ qs)
  >>-Clears act next {ps} a b = record {
    shrinks = λ m. then-Shrinks next m (act m).0 (act m).1 b (a.shrinks m);
    clears = λ m e. then-Clears next ps (act m).0 (act m).1 b (a.clears m) e;
  }

  refresh-Clears : (ks : KeyStore) → Clears (refresh h ks) (stale ks)
  unfolding refresh remove_companions
  refresh-Clears ks = elim (Bool-cases (eq_text ks.key_store_type (codes "cms"))) [
    | inl e ↦ rw e (
        >>-Clears (remove_companions h ks) (remove h ks.filename)
          (>>-Clears (remove h _) _ (remove-Clears _)
            (>>-Clears (remove h _) (remove h _) (remove-Clears _) (remove-Clears _)))
          (remove-Clears ks.filename))
    | inr e ↦ rw e (>>-Clears _ _ return-Clears (remove-Clears ks.filename))
  ]

  abbrev run_create : KeyStore → Act Machine (Unit {0})
  run_create ks = do _ ← run_command h (create_command ks); return tt

  abbrev created : KeyStore → Machine → Outcome (Unit {0}) → Machine × Outcome (Unit {0})
  created ks = and_then (λ _. run_create ks)

  created_lem :
      (ks : KeyStore) (m' : Machine) (r : Outcome (Unit {0}))
      → (created ks m' r).1 ≡ ok tt
      → r ≡ ok tt
        × (h.sh m'.done (create_command ks)).is_error ≡ false
        × created ks m' r ≡ ((run_command h (create_command ks) m').0, ok tt)
  unfolding run_command
  created_lem ks m' (ok tt) e = ground arith
  created_lem ks m' failed e = absurd (cc)

  missing_lem : (path : Text) (m : Machine) → stat h path m ≡ missing → m.files path ≡ false
  unfolding stat
  missing_lem path m e = ground arith

  All-stale : (P : Text → Type 0) (ks : KeyStore) → All P (stale ks) → P ks.filename
  All-stale P ks a = elim (Bool-cases (eq_text ks.key_store_type (codes "cms"))) [
    | inl e ↦ (rw e at a).1.1.1.0
    | inr e ↦ (rw e at a).0
  ]

  -- The create command succeeded, and it ran on a machine where no other command had run since, and
  -- which had no old key store: where one had been found, it was gone with the files beside it.
  abbrev pub CreatedFrom :
      KeyStore → Machine → Stat → Machine × Outcome (Unit {0}) → Machine → Type 0
  CreatedFrom ks m st r before =
      before.done ≡ m.done
      × before.files ks.filename ≡ false
      × (st ≡ found → All (λ p. before.files p ≡ false) (stale ks))
      × (h.sh m.done (create_command ks)).is_error ≡ false
      × r ≡ ((run_command h (create_command ks) before).0, ok tt)

  create_at :
      (ks : KeyStore) (m : Machine) (st : Stat)
      → stat h ks.filename m ≡ st
      → let begun = refresh_at h ks st m in
        let r = created ks begun.0 begun.1 in
        r.1 ≡ ok tt → (before : Machine) × CreatedFrom ks m st r before
  create_at ks m found s e =
      let c = refresh-Clears ks in
      let begun = refresh h ks m in
      let (fine, sound, ran) = created_lem ks begun.0 begun.1 e in
      let gone = c.clears m fine in
      let done = (c.shrinks m).done in
      (
        begun.0,
        (
          done,
          All-stale (λ p. begun.0.files p ≡ false) ks gone,
          λ _. gone,
          ap (λ d. (h.sh d (create_command ks)).is_error) (sym done) ∙ sound,
          ran,
        ),
      )
  create_at ks m missing s e =
      let (fine, sound, ran) = created_lem ks m (ok tt) e in
      (m, (refl, missing_lem ks.filename m s, λ q. cc, sound, ran))
  create_at ks m stat_error s e = absurd (cc)

  -- `Create` that succeeds ends with the create command, which succeeded. It ran on a machine where no
  -- other command had run since the call, and where there was no old key store: one that had been found
  -- was gone, with the files beside it.
  pub create_lem :
      (ks : KeyStore) (m : Machine)
      → (create h ks m).1 ≡ ok tt
      → (before : Machine) × CreatedFrom ks m (stat h ks.filename m) (create h ks m) before
  unfolding create
  create_lem ks m e = create_at ks m (stat h ks.filename m) refl e

  -- `CreateStash` that finds no stash file runs the command that makes one, and fails even where
  -- that command succeeds.
  pub create_stash_fails :
      (ks : KeyStore) (m : Machine)
      → stat h (without_ext ks.filename ++ codes ".sth") m ≡ missing
      → (create_stash h ks m).0.done ≡ m.done ++ stash_command ks ∷ []
        × (create_stash h ks m).1 ≡ failed
  unfolding create_stash run_command
  create_stash_fails ks m e = rw e (ground arith)
