-- ===== src/Tls/KeySets.antt =====
-- What the sets of keys come to: the label of the first one, or an error.
use mq_container.Base.{
  ◌≡◌, refl, ap, ◌∙◌, Bool, true, false, not, List, [], ◌∷◌, ◌++◌, Text, codes, eq_text, has_suffix,
  Env, arith, inl, inr, ◌⊎◌, if-elim, all, eq_text_refl,
}
use mq_container.Ready.{Outcome, ok, failed}
use mq_container.Machine.{Act, and_then, Host, bind_ok, bind_failed}
use mq_container.Tls.{Crypto, Mounts, TlsState, for_names, clean_path}
use mq_container.Tls.Keys.{PrivateKey, process_private_key, read_key_file, known_or_new_key, no_key}
use mq_container.Tls.Sets.{with_key, process_key_set, process_keys}

abbrev pub no_key_file : List Text → Bool
no_key_file = all (λ n. not (has_suffix n (codes ".key")))

module _ {S A : Type 0} (act : Text → A → Act S A) where
  for_names_failed :
      (before after : List Text) (n : Text)
      → ((a : A) (s : S) → (act n a s).1 ≡ failed)
      → (a : A) (s : S) → (for_names (before ++ n ∷ after) act a s).1 ≡ failed
  unfolding for_names
  for_names_failed [] after n fails a s = fails_first (act n a s).0 (act n a s).1 (fails a s)
    where
      fails_first :
          (t : S) (r : Outcome A) → r ≡ failed → (and_then (for_names after act) t r).1 ≡ failed
      fails_first t (ok b) e = absurd (cc)
      fails_first t failed e = refl
  for_names_failed (b ∷ before) after n fails a s =
      fails_later (for_names_failed before after n fails) (act b a s).0 (act b a s).1
    where
      fails_later :
          ((a' : A) (t : S) → (for_names (before ++ n ∷ after) act a' t).1 ≡ failed)
          → (t : S) (r : Outcome A)
          → (and_then (for_names (before ++ n ∷ after) act) t r).1 ≡ failed
      fails_later ih t (ok a') = ih a' t
      fails_later ih t failed = refl

module _ (c : Crypto) (mounts : Mounts) (env : Env) (h : Host) (keystore_dir key_dir : Text) where
  -- A set of keys that cannot be loaded: it has no private key, or the name of the trust store.
  abbrev pub CannotLoad : Text → Type 0
  CannotLoad key_set =
      (no_key_file (mounts.read_dir (clean_path key_dir key_set)) ≡ true)
      ⊎ (key_set ≡ codes "trust")

  skips_file :
      (set name : Text) (l : PrivateKey) (s : TlsState)
      → has_suffix name (codes ".key") ≡ false
      → read_key_file c mounts key_dir set name l s ≡ (s, ok l)
  unfolding read_key_file
  skips_file set name l s e = rw e refl

  skips_files :
      (set : Text) (names : List Text) (l : PrivateKey) (s : TlsState)
      → no_key_file names ≡ true
      → for_names names (read_key_file c mounts key_dir set) l s ≡ (s, ok l)
  unfolding for_names
  skips_files set [] l s e = refl
  skips_files set (n ∷ names) l s e =
      bind_ok (read_key_file c mounts key_dir set n l)
        (for_names names (read_key_file c mounts key_dir set)) s s l
        (skips_file set n l s (ground arith))
      ∙ skips_files set names l s (ground arith)

  no_key-fails :
      (set : Text) (keys : List Text) (s : TlsState)
      → no_key_file keys ≡ true
      → process_private_key c mounts key_dir set keys s ≡ (s, failed)
  unfolding process_private_key known_or_new_key
  no_key-fails set keys s e =
      bind_ok (for_names keys (read_key_file c mounts key_dir set) (no_key c mounts))
        (known_or_new_key c mounts) s s (no_key c mounts)
        (skips_files set keys (no_key c mounts) s e)

  CannotLoad-fails :
      (set label : Text) (s : TlsState)
      → CannotLoad set
      → (process_key_set c mounts env h keystore_dir key_dir set label s).1 ≡ failed
  unfolding process_key_set
  CannotLoad-fails set label s (inr e) =
      rw (ap (λ n. eq_text n (codes "trust")) e ∙ eq_text_refl (codes "trust"), process_key_set)
        refl
  CannotLoad-fails set label s (inl e) =
      if-elim (λ (act : Act TlsState Text). (act s).1 ≡ failed) (eq_text set (codes "trust"))
        (λ _. refl)
        (λ _.
          ap (λ (r : TlsState × Outcome Text). r.1)
            (bind_failed (process_private_key c mounts key_dir set keys)
              (λ k. with_key c mounts env h keystore_dir key_dir set label keys k k.key) s s
              (no_key-fails set keys s e)))
    where
      keys : List Text
      keys = mounts.read_dir (clean_path key_dir set)

  -- A set of keys without a private key, or with the name of the trust store, makes `processKeys` fail
  -- wherever it stands in the directory: no label is returned.
  pub process_keys-fails :
      (set : Text) (before after : List Text) (s : TlsState)
      → mounts.read_dir key_dir ≡ before ++ set ∷ after
      → CannotLoad set
      → (process_keys c mounts env h keystore_dir key_dir s).1 ≡ failed
  unfolding process_keys
  process_keys-fails set before after s e cannot =
      ap (λ names. (for_names names (process_key_set c mounts env h keystore_dir key_dir) [] s).1) e
      ∙ for_names_failed (process_key_set c mounts env h keystore_dir key_dir) before after set
          (λ label t. CannotLoad-fails set label t cannot) [] s
