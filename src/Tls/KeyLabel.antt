-- ===== src/Tls/KeyLabel.antt =====
-- The label that `processKeys` returns.
use mq_container.Base.{
  ◌≡◌, ◌≢◌, refl, sym, ap, ◌∙◌, Bool, true, not, ◌&&◌, List, [], ◌∷◌, Option, none, some, Text,
  codes, eq_text, has_suffix, Env, arith, Bool-cases, inl, inr, ◌⊎◌, if-elim, ltb,
}
use mq_container.Ready.{Outcome, ok, failed}
use mq_container.Machine.{Act, and_then, ◌>>=◌, ◌>>◌, return, Host, bind_gives}
use mq_container.Tls.{Crypto, Mounts, TlsState, of_option, for_names, clean_path}
use mq_container.Tls.Keys.{
  PrivateKey, ProcessedKey, Certificates, process_private_key, process_certificates, read_key_file,
  known_or_new_key, no_key, find_key,
}
use mq_container.Tls.Sets.{
  import_key_set, load_key_set, with_key, process_key_set, process_keys, first_label,
}

-- An action that leaves the state alone.
record ReadsOnly {A : Type 0} (act : Act TlsState A) : Type 0 where
  same : (s : TlsState) → (act s).0 ≡ s

return-ReadsOnly : {A : Type 0} (a : A) → ReadsOnly (return a)
return-ReadsOnly a = record { same = λ s. refl }

of_option-ReadsOnly : {A : Type 0} (o : Option A) → ReadsOnly (of_option o)
of_option-ReadsOnly none = record { same = λ s. refl }
of_option-ReadsOnly (some a) = record { same = λ s. refl }

>>=-ReadsOnly :
    {A B : Type 0} (act : Act TlsState A) (next : A → Act TlsState B)
    → ReadsOnly act
    → ((a : A) → ReadsOnly (next a))
    → ReadsOnly (act >>= next)
>>=-ReadsOnly {A} act next r k = record { same = λ s. then_same (act s).0 (act s).1 ∙ r.same s }
  where
    then_same : (t : TlsState) (o : Outcome A) → (and_then next t o).0 ≡ t
    then_same t (ok a) = (k a).same t
    then_same t failed = refl

ruleset reads = (return-ReadsOnly, of_option-ReadsOnly, >>=-ReadsOnly)

for_names-ReadsOnly :
    {A : Type 0} (names : List Text) (act : Text → A → Act TlsState A) (a : A)
    → ((n : Text) (b : A) → ReadsOnly (act n b))
    → ReadsOnly (for_names names act a)
unfolding for_names
for_names-ReadsOnly [] act a k = return-ReadsOnly a
for_names-ReadsOnly (n ∷ names) act a k =
    >>=-ReadsOnly (act n a) (for_names names act) (k n a) (λ b. for_names-ReadsOnly names act b k)

ok-injective {ℓ} : {A : Type ℓ} {a b : A} → ok a ≡ ok b → a ≡ b
ok-injective e = cc

not_empty : (t : Text) (b : Bool) → (not (eq_text t []) && b) ≡ true → t ≢ []
unfolding eq_text
not_empty [] b h = absurd (cc)
not_empty (x ∷ t) b h = λ q. absurd (cc)

new_label :
    (label previous set : Text) {a : Text}
    → previous ≡ []
    → (previous ≢ [] × a ≡ first_label label previous) ⊎ (a ≡ first_label label set)
    → a ≡ first_label label set
new_label label previous set q (inl (p, e)) = absurd (p q)
new_label label previous set q (inr e) = e

-- A label that is there stays.
kept_label :
    (label previous set : Text) {a : Text}
    → label ≢ []
    → (previous ≢ [] × a ≡ first_label label previous) ⊎ (a ≡ first_label label set)
    → a ≡ label
unfolding eq_text
kept_label [] previous set n found = absurd (n refl)
kept_label (x ∷ label) previous set n (inl (p, e)) = e
kept_label (x ∷ label) previous set n (inr e) = e

module _ (c : Crypto) (mounts : Mounts) (env : Env) (h : Host) (keystore_dir key_dir : Text) where
  read_key_file-ReadsOnly :
      (set name : Text) (l : PrivateKey) → ReadsOnly (read_key_file c mounts key_dir set name l)
  unfolding read_key_file
  read_key_file-ReadsOnly set name l =
      if-elim ReadsOnly (has_suffix name (codes ".key")) (λ _. search reads)
        (λ _. return-ReadsOnly l)

  -- Without earlier keys a key is new.
  known_or_new_key-new :
      (l : PrivateKey) (s : TlsState) {k : ProcessedKey}
      → s.keystore.key_label_lookup ≡ []
      → (known_or_new_key c mounts l s).1 ≡ ok k
      → k.previous_label ≡ [] × k.key ≢ none
  unfolding known_or_new_key find_key
  known_or_new_key-new l s none_yet e = (ground arith, λ q. ground arith)

  private_key-new :
      (set : Text) (keys : List Text) (s : TlsState) {k : ProcessedKey}
      → s.keystore.key_label_lookup ≡ []
      → (process_private_key c mounts key_dir set keys s).1 ≡ ok k
      → k.previous_label ≡ [] × k.key ≢ none
  unfolding process_private_key
  private_key-new set keys s none_yet e =
      let read = for_names keys (read_key_file c mounts key_dir set) (no_key c mounts) in
      let (l, first, second) = bind_gives read (known_or_new_key c mounts) s e in
      let same =
        (for_names-ReadsOnly keys (read_key_file c mounts key_dir set) (no_key c mounts)
            (read_key_file-ReadsOnly set)).same
          s in
      known_or_new_key-new l (read s).0
        (ap (λ (t : TlsState). t.keystore.key_label_lookup) same ∙ none_yet) second

  imported-label :
      (set label key : Text) (l : Certificates) (s : TlsState) {a : Text}
      → ((do
        public_certificate ← of_option l.public_certificate
        import_key_set c mounts env h keystore_dir set key public_certificate l.ca_certificate
        return (first_label label set))
          s).1
        ≡ ok a
      → a ≡ first_label label set
  imported-label set label key l s e =
      let (certificate, found, later) =
        bind_gives (of_option l.public_certificate)
          (λ public_certificate.
            import_key_set c mounts env h keystore_dir set key public_certificate l.ca_certificate
            >> return (first_label label set))
          s e in
      let (u, imported, last) =
        bind_gives (import_key_set c mounts env h keystore_dir set key certificate l.ca_certificate)
          (λ _. return (first_label label set)) (of_option l.public_certificate s).0 later in
      ok-injective (sym last)

  load_key_set-label :
      (set label key : Text) (k : ProcessedKey) (l : Certificates) (s : TlsState) {a : Text}
      → (load_key_set c mounts env h keystore_dir set label key k l s).1 ≡ ok a
      → (k.previous_label ≢ [] × a ≡ first_label label k.previous_label)
        ⊎ (a ≡ first_label label set)
  unfolding load_key_set
  load_key_set-label set label key k l s e =
      elim (Bool-cases (not (eq_text k.previous_label []) && not (ltb 0 l.new_public_count))) [
        | inl old ↦ inl (
          not_empty k.previous_label (not (ltb 0 l.new_public_count)) old,
          ok-injective (sym (rw (old, load_key_set) at e)),
        )
        | inr new ↦ inr (imported-label set label key l s (rw (new, load_key_set) at e))
      ]

  -- A set that is loaded when there were no keys gives its own name, or leaves an earlier label.
  with_key-label :
      (set label : Text) (keys : List Text) (k : ProcessedKey) (o : Option Text) (s : TlsState)
      {a : Text}
      → (with_key c mounts env h keystore_dir key_dir set label keys k o s).1 ≡ ok a
      → (label ≢ [] → a ≡ label) × (k.previous_label ≡ [] → o ≢ none → a ≡ first_label label set)
  unfolding with_key
  with_key-label set label keys k none s e = (λ n. ok-injective (sym e), λ q n. absurd (n refl))
  with_key-label set label keys k (some key) s e =
      let (l, read, loaded) =
        bind_gives (process_certificates c mounts key_dir set k.prefix keys)
          (load_key_set c mounts env h keystore_dir set label key k) s e in
      let found = load_key_set-label set label key k l _ loaded in
      (
        λ n. kept_label label k.previous_label set n found,
        λ q n. new_label label k.previous_label set q found,
      )

  loaded-label :
      (set label : Text) (keys : List Text) (s : TlsState) {a : Text}
      → ((process_private_key c mounts key_dir set keys >>= λ k.
            with_key c mounts env h keystore_dir key_dir set label keys k k.key)
          s).1
        ≡ ok a
      → (label ≢ [] → a ≡ label) × (s.keystore.key_label_lookup ≡ [] → a ≡ first_label label set)
  loaded-label set label keys s e =
      let (k, read, loaded) =
        bind_gives (process_private_key c mounts key_dir set keys)
          (λ k. with_key c mounts env h keystore_dir key_dir set label keys k k.key) s e in
      let found = with_key-label set label keys k k.key _ loaded in
      (
        found.0,
        λ none_yet. let fresh = private_key-new set keys s none_yet read in found.1 fresh.0 fresh.1,
      )

  process_key_set-label :
      (set label : Text) (s : TlsState) {a : Text}
      → (process_key_set c mounts env h keystore_dir key_dir set label s).1 ≡ ok a
      → (label ≢ [] → a ≡ label) × (s.keystore.key_label_lookup ≡ [] → a ≡ first_label label set)
  unfolding process_key_set
  process_key_set-label set label s e = elim (Bool-cases (eq_text set (codes "trust"))) [
    | inl bad ↦ absurd (cc (rw (bad, process_key_set) at e))
    | inr fine ↦
        loaded-label set label (mounts.read_dir (clean_path key_dir set)) s
          (rw (fine, process_key_set) at e)
  ]

  more_sets-label :
      (sets : List Text) (label : Text) (s : TlsState) {a : Text}
      → label ≢ []
      → (for_names sets (process_key_set c mounts env h keystore_dir key_dir) label s).1 ≡ ok a
      → a ≡ label
  unfolding for_names
  more_sets-label [] label s n e = ok-injective (sym e)
  more_sets-label (set ∷ sets) label s n e =
      let act = process_key_set c mounts env h keystore_dir key_dir in
      let (b, first, later) = bind_gives (act set label) (for_names sets act) s e in
      let same = (process_key_set-label set label s first).0 n in
      more_sets-label sets b _ (λ q. n (sym same ∙ q)) later ∙ same

  first_set-label :
      (set : Text) (sets : List Text) (s : TlsState) {label : Text}
      → mounts.read_dir key_dir ≡ set ∷ sets
      → set ≢ []
      → s.keystore.key_label_lookup ≡ []
      → (process_keys c mounts env h keystore_dir key_dir s).1 ≡ ok label
      → label ≡ set
  unfolding process_keys for_names eq_text
  first_set-label set sets s r n none_yet e =
      let act = process_key_set c mounts env h keystore_dir key_dir in
      let (b, first, later) =
        bind_gives (act set []) (for_names sets act) s
          (ap (λ names. (for_names names act [] s).1) (sym r) ∙ e) in
      let same = (process_key_set-label set [] s first).1 none_yet in
      more_sets-label sets b _ (λ q. n (sym same ∙ q)) later ∙ same

  fails_or_gives :
      (set : Text) (r : Outcome Text)
      → ((label : Text) → r ≡ ok label → label ≡ set)
      → (r ≡ failed) ⊎ (r ≡ ok set)
  fails_or_gives set failed h = inl refl
  fails_or_gives set (ok label) h = inr (ap (λ t. ok t) (h label refl))

  -- When no key has been loaded before, `processKeys` fails or returns the name of the first set in the
  -- directory, however many sets follow and whichever of them are duplicates.
  pub process_keys-label :
      (set : Text) (sets : List Text) (s : TlsState)
      → mounts.read_dir key_dir ≡ set ∷ sets
      → set ≢ []
      → s.keystore.key_label_lookup ≡ []
      → let r = (process_keys c mounts env h keystore_dir key_dir s).1 in
        (r ≡ failed) ⊎ (r ≡ ok set)
  process_keys-label set sets s r n none_yet =
      fails_or_gives set (process_keys c mounts env h keystore_dir key_dir s).1
        (λ label e. first_set-label set sets s r n none_yet e)
