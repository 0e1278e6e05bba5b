-- ===== src/Tls/Known.antt =====
-- The sets of known certificates: whatever is mounted, and wherever an error stops the code, no
-- certificate is known or trusted twice in a store.
pub mod Steps
pub mod Runs
pub mod Loads
pub mod Whole
use mq_container.Base.{
  ℕ, zero, suc, ◌≡◌, refl, sym, ap, ◌∙◌, Bool, true, false, not, ◌&&◌, ◌||◌, List, [], ◌∷◌, ◌++◌,
  Option, none, some, Text, eq_text, map, arith, All, All-append, Bool-cases, inl, inr, ◌⊎◌,
  if-elim, if◌then◌else◌, eq_text→eq, eq_text_refl, length, Option-cases, subst,
}
use mathlib.Core.List.{map-append}
use mq_container.Ready.{Outcome, ok, failed}
use mq_container.Machine.{Act, and_then, ◌>>=◌, ◌>>◌, return, fail, Machine}
use mq_container.Keystore.{KeyStore}
use mq_container.Tls.{
  Certificate, Crypto, KeyStoreData, TlsState, Which, cms, p12, store_of, set_store, on_machine,
  of_option, with_keystore, member, get_certificate_fingerprint, note_certificate,
  add_to_known_certificates, for_blocks, for_names, when,
}

-- No text stands twice in a list.
abbrev pub Distinct : List Text → Type 0
Distinct [] = Unit
Distinct (t ∷ ts) = member t ts ≡ false × Distinct ts

abbrev pub fingerprint_of : Crypto → Text → Text
fingerprint_of c block = elim (get_certificate_fingerprint c block) [ none ↦ [] | some f ↦ f ]

-- What holds of the certificates of a store.
pub record IsKnown (c : Crypto) (d : KeyStoreData) : Type 0 where
  pub known_once : Distinct d.known_finger_prints
  pub trusted_known :
      All (λ b. member (fingerprint_of c b) d.known_finger_prints ≡ true) d.trusted_certs
  pub trusted_once : Distinct (map (fingerprint_of c) d.trusted_certs)

member-append : (t : Text) (us vs : List Text) → member t (us ++ vs) ≡ (member t us || member t vs)
unfolding member
member-append t [] vs = refl
member-append t (u ∷ us) vs = ground (arith, member-append t us vs)

eq_text_sym : (s t : Text) → eq_text s t ≡ false → eq_text t s ≡ false
eq_text_sym s t h = elim (Bool-cases (eq_text t s)) [
  | inl e ↦ absurd (cc (eq_text→eq t s e, eq_text_refl s))
  | inr e ↦ e
]

Distinct-snoc :
    (ts : List Text) (t : Text) → Distinct ts → member t ts ≡ false → Distinct (ts ++ t ∷ [])
unfolding member
Distinct-snoc [] t d m = (refl, tt)
Distinct-snoc (u ∷ ts) t d m = (
  ground (arith, member-append u ts (t ∷ []), eq_text_sym u t, d.0),
  Distinct-snoc ts t d.1 (ground arith),
)

member-weaken : (t : Text) (us vs : List Text) → member t us ≡ true → member t (us ++ vs) ≡ true
member-weaken t us vs h = rw (member-append t us vs, h) refl

-- A text that is in none of two lists, where one is in the other.
not_trusted :
    (c : Crypto) (f : Text) (known blocks : List Text)
    → member f known ≡ false
    → All (λ b. member (fingerprint_of c b) known ≡ true) blocks
    → member f (map (fingerprint_of c) blocks) ≡ false
unfolding member
not_trusted c f known [] h a = refl
not_trusted c f known (b ∷ blocks) h a = elim (Bool-cases (eq_text (fingerprint_of c b) f)) [
  | inl e ↦
      let same = eq_text→eq (fingerprint_of c b) f e in
      absurd (cc (a.0, h, ap (λ t. member t known) same))
  | inr e ↦ rw e (not_trusted c f known blocks h a.1)
]

All-known :
    (c : Crypto) (known more blocks : List Text)
    → All (λ b. member (fingerprint_of c b) known ≡ true) blocks
    → All (λ b. member (fingerprint_of c b) (known ++ more) ≡ true) blocks
All-known c known more [] a = tt
All-known c known more (b ∷ blocks) a =
    (member-weaken (fingerprint_of c b) known more a.0, All-known c known more blocks a.1)

fingerprint_is :
    (c : Crypto) (block f : Text)
    → get_certificate_fingerprint c block ≡ some f
    → fingerprint_of c block ≡ f
fingerprint_is c block f e = ground arith

member-last : (t : Text) (ts : List Text) → member t (ts ++ t ∷ []) ≡ true
unfolding member
member-last t ts = rw (member-append t ts (t ∷ []), eq_text_refl t) (last (member t ts))
  where
    last : (b : Bool) → (b || true) ≡ true
    last true = refl
    last false = refl

pub note_certificate-IsKnown :
    (c : Crypto) (block f : Text) (add : Bool) (d : KeyStoreData)
    → get_certificate_fingerprint c block ≡ some f
    → IsKnown c d
    → IsKnown c (note_certificate block f add d)
unfolding note_certificate
note_certificate-IsKnown c block f add d e h =
    if-elim (IsKnown c) (member f d.known_finger_prints) (λ _. h)
      (λ new. record {
        known_once = Distinct-snoc d.known_finger_prints f h.known_once new;
        trusted_known =
            if-elim
              (λ blocks.
                All (λ b. member (fingerprint_of c b) (d.known_finger_prints ++ f ∷ []) ≡ true)
                  blocks)
              add (λ _. All-append _ d.trusted_certs (block ∷ []) (older new) (newest, tt))
              (λ _. older new);
        trusted_once =
            if-elim (λ blocks. Distinct (map (fingerprint_of c) blocks)) add (λ _. with_newest new)
              (λ _. h.trusted_once);
      })
  where
    older :
        member f d.known_finger_prints ≡ false
        → All
            (λ b. member (fingerprint_of c b) (d.known_finger_prints ++ f ∷ []) ≡ true)
            d.trusted_certs
    older new = All-known c d.known_finger_prints (f ∷ []) d.trusted_certs h.trusted_known

    newest : member (fingerprint_of c block) (d.known_finger_prints ++ f ∷ []) ≡ true
    newest =
        ap (λ t. member t (d.known_finger_prints ++ f ∷ [])) (fingerprint_is c block f e)
        ∙ member-last f d.known_finger_prints

    with_newest :
        member f d.known_finger_prints ≡ false
        → Distinct (map (fingerprint_of c) (d.trusted_certs ++ block ∷ []))
    with_newest new = rw (map-append (fingerprint_of c) d.trusted_certs (block ∷ [])) (
        rw (fingerprint_is c block f e) (
          Distinct-snoc (map (fingerprint_of c) d.trusted_certs) f h.trusted_once
            (not_trusted c f d.known_finger_prints d.trusted_certs new h.trusted_known)))
