-- ===== src/Tls/Known/Steps.antt =====
-- The code that fills the stores keeps the invariant of their certificates, on every path.
use mq_container.Base.{
  ℕ, zero, suc, ◌≡◌, Bool, true, false, List, [], ◌∷◌, Option, none, some, Text, inl, inr,
  Option-cases,
}
use mq_container.Ready.{Outcome, ok, failed}
use mq_container.Machine.{Act, and_then, ◌>>=◌, return, fail, Machine}
use mq_container.Keystore.{KeyStore}
use mq_container.Tls.{
  Crypto, TlsState, Which, cms, p12, store_of, set_store, on_machine, of_option, with_state,
  with_keystore, get_certificate_fingerprint, note_certificate, add_to_known_certificates,
  for_blocks, for_names, when,
}
use mq_container.Tls.Known.{IsKnown, note_certificate-IsKnown}

module _ (c : Crypto) where
  abbrev pub AreKnown : TlsState → Type 0
  AreKnown s = IsKnown c s.keystore × IsKnown c s.truststore

  -- An action that keeps the invariant, whether it succeeds or not.
  pub record Keeps {A : Type 0} (act : Act TlsState A) : Type 0 where
    pub keeps : (s : TlsState) → AreKnown s → AreKnown (act s).0

  pub return-Keeps : {A : Type 0} (a : A) → Keeps (return a)
  return-Keeps a = record { keeps = λ s h. h }

  pub fail-Keeps : {A : Type 0} → Keeps {A = A} fail
  fail-Keeps = record { keeps = λ s h. h }

  and_then-Keeps :
      {A B : Type 0} (next : A → Act TlsState B) (s : TlsState) (r : Outcome A)
      → ((a : A) → Keeps (next a))
      → AreKnown s
      → AreKnown (and_then next s r).0
  and_then-Keeps next s (ok a) k h = (k a).keeps s h
  and_then-Keeps next s failed k h = h

  pub >>=-Keeps :
      {A B : Type 0} (act : Act TlsState A) (next : A → Act TlsState B)
      → Keeps act
      → ((a : A) → Keeps (next a))
      → Keeps (act >>= next)
  >>=-Keeps act next a k = record {
    keeps = λ s h. and_then-Keeps next (act s).0 (act s).1 k (a.keeps s h);
  }

  pub on_machine-Keeps : {A : Type 0} (act : Act Machine A) → Keeps (on_machine act)
  on_machine-Keeps act = record { keeps = λ s h. h }

  pub with_state-Keeps :
      {A : Type 0} (act : TlsState → Act TlsState A)
      → ((s : TlsState) → Keeps (act s))
      → Keeps (with_state act)
  unfolding with_state
  with_state-Keeps act k = record { keeps = λ s h. (k s).keeps s h }

  pub of_option-Keeps : {A : Type 0} (o : Option A) → Keeps (of_option o)
  of_option-Keeps none = fail-Keeps
  of_option-Keeps (some a) = return-Keeps a

  pub when-Keeps : (b : Bool) (act : Act TlsState (Unit {0})) → Keeps act → Keeps (when b act)
  when-Keeps true act k = k
  when-Keeps false act k = return-Keeps tt

  pub with_keystore-Keeps :
      {A : Type 0} (which : Which) (use_it : KeyStore → Act Machine A)
      → Keeps (with_keystore which use_it)
  with_keystore-Keeps which use_it = record {
    keeps = λ s h.
        (>>=-Keeps (of_option (store_of which s).keystore) (λ ks. on_machine (use_it ks))
            (of_option-Keeps _) (λ ks. on_machine-Keeps (use_it ks))).keeps
          s h;
  }

  pub for_names-Keeps :
      {A : Type 0} (names : List Text) (act : Text → A → Act TlsState A) (a : A)
      → ((n : Text) (b : A) → Keeps (act n b))
      → Keeps (for_names names act a)
  unfolding for_names
  for_names-Keeps [] act a k = return-Keeps a
  for_names-Keeps (n ∷ names) act a k =
      >>=-Keeps (act n a) (for_names names act) (k n a) (λ b. for_names-Keeps names act b k)

  pub for_blocks-Keeps :
      {A : Type 0} (n : ℕ) (file : Text) (act : Text → A → Act TlsState A) (a : A)
      → ((block : Text) (b : A) → Keeps (act block b))
      → Keeps (for_blocks c n file act a)
  unfolding for_blocks
  for_blocks-Keeps zero [] act a k = return-Keeps a
  for_blocks-Keeps zero (x ∷ file) act a k = fail-Keeps
  for_blocks-Keeps (suc n) [] act a k = return-Keeps a
  for_blocks-Keeps (suc n) (x ∷ file) act a k = elim (Option-cases (c.decode (x ∷ file))) [
    | inl e ↦ rw (e, for_blocks) (return-Keeps a)
    | inr (b, e) ↦
        rw (e, for_blocks)
          (>>=-Keeps (act b.0 a) (for_blocks c n b.1 act) (k b.0 a)
            (λ a'. for_blocks-Keeps n b.1 act a' k))
  ]

  set_store-AreKnown :
      (which : Which) (block f : Text) (add : Bool) (s : TlsState)
      → get_certificate_fingerprint c block ≡ some f
      → AreKnown s
      → AreKnown (set_store which (note_certificate block f add (store_of which s)) s)
  set_store-AreKnown cms block f add s e h = (note_certificate-IsKnown c block f add _ e h.0, h.1)
  set_store-AreKnown p12 block f add s e h = (h.0, note_certificate-IsKnown c block f add _ e h.1)

  pub add_to_known-Keeps :
      (which : Which) (block : Text) (add : Bool)
      → Keeps (add_to_known_certificates c which block add)
  unfolding add_to_known_certificates
  add_to_known-Keeps which block add = record {
    keeps = λ s h. elim (Option-cases (get_certificate_fingerprint c block)) [
      | inl e ↦ rw (e, add_to_known_certificates) h
      | inr (f, e) ↦ rw (e, add_to_known_certificates) (set_store-AreKnown which block f add s e h)
    ];
  }

-- The rules by which `search` takes a do block apart.
pub ruleset kept = (
  >>=-Keeps, return-Keeps, fail-Keeps, on_machine-Keeps, of_option-Keeps, when-Keeps,
  with_state-Keeps, with_keystore-Keeps, add_to_known-Keeps, for_names-Keeps, for_blocks-Keeps,
)
