-- ===== src/TlsWatch/Latest.antt =====
-- Which certificate the metrics server serves.
use mathlib.Core.Option.{some-injective}
use mq_container.Base.{
  Bool, ◌&&◌, ◌≡◌, refl, sym, ap, subst, ◌∙◌, ◌⊎◌, inl, inr, true, List, [], ◌∷◌, ◌++◌,
  append_assoc, append-nil, Option, none, some, Text, arith, if◌then◌else◌, Bool-cases, if-elim,
}
use mq_container.TlsWatch.{
  content, Directory, lacks_newline, append_files, read_chain, read_key, Monitor, new_monitor,
  latest_cert, install_serial, install_pair, install, update_cert, watch, load_and_watch,
}

-- With both certificate files, the second one follows the first at once: a line feed that the first
-- lacks is put behind the second, not between them.
pub chain_of_two :
    (dir : Directory) (cert ca : Text)
    → dir.tls_crt ≡ content cert
    → dir.ca_crt ≡ content ca
    → read_chain dir ≡ some (cert ++ ca ++ (if lacks_newline cert then b'\n' ∷ [] else []))
unfolding read_chain append_files lacks_newline
chain_of_two dir cert ca e f =
    rw (e, f)
      (if-elim
        (λ t.
          some (cert ++ t) ≡ some (cert ++ ca ++ (if lacks_newline cert then b'\n' ∷ [] else [])))
        (lacks_newline cert)
        (λ l. rw l (ap (λ t. some t) (sym (append_assoc cert ca (b'\n' ∷ [])))))
        (λ l. rw l (ap (λ t. some t) (sym (append-nil (cert ++ ca))))))

module _ {ℓ} {Pair : Type ℓ} (x509_key_pair : Text → Text → Option Pair)
    (serial : Pair → Option Text) where
  -- the pair that an update from these files installs
  abbrev pub loaded : Directory → Option Pair
  loaded dir = latest_cert (update_cert x509_key_pair serial dir new_monitor).0

  -- a new pair, or else the one before
  abbrev pub instead : Option Pair → Option Pair → Option Pair
  instead before none = before
  instead before (some pair) = some pair

  -- the last of the directories that can be loaded, or what there was before
  abbrev pub last_loaded : Option Pair → List Directory → Option Pair
  last_loaded before [] = before
  last_loaded before (dir ∷ later) = last_loaded (instead before (loaded dir)) later

  install_serial_cert :
      (pair : Pair) (s : Option Text) (cm : Monitor Pair)
      → (install_serial x509_key_pair serial pair s cm).0.cert
        ≡ instead cm.cert (install_serial x509_key_pair serial pair s new_monitor).0.cert
  unfolding install_serial
  install_serial_cert pair none cm = refl
  install_serial_cert pair (some s) cm = refl

  install_pair_cert :
      (found : Option Pair) (cm : Monitor Pair)
      → (install_pair x509_key_pair serial found cm).0.cert
        ≡ instead cm.cert (install_pair x509_key_pair serial found new_monitor).0.cert
  unfolding install_pair
  install_pair_cert none cm = refl
  install_pair_cert (some pair) cm = install_serial_cert pair (serial pair) cm

  install_cert :
      (chain key : Option Text) (cm : Monitor Pair)
      → (install x509_key_pair serial chain key cm).0.cert
        ≡ instead cm.cert (install x509_key_pair serial chain key new_monitor).0.cert
  unfolding install
  install_cert none key cm = refl
  install_cert (some c) none cm = refl
  install_cert (some c) (some k) cm = install_pair_cert (x509_key_pair c k) cm

  -- After any updates, successful or not, the certificate that is served is that of the last update that
  -- was successful, or the one before if none was: a failed update leaves it in place.
  pub watch-latest :
      (later : List Directory) (cm : Monitor Pair)
      → latest_cert (watch x509_key_pair serial later cm) ≡ last_loaded (latest_cert cm) later
  unfolding watch latest_cert update_cert
  watch-latest [] cm = refl
  watch-latest (dir ∷ later) cm =
      watch-latest later (update_cert x509_key_pair serial dir cm).0
      ∙ ap (λ before. last_loaded before later)
          (install_cert (read_chain dir) (read_key dir.tls_key) cm)

  -- the certificate goes with its serial number
  abbrev pub HasCert : Monitor Pair → Type ℓ
  HasCert cm = (pair : Pair) × (cm.cert ≡ some pair) × (serial pair ≡ some cm.cert_serial)

  serial-HasCert :
      (pair : Pair) (s : Option Text) (cm : Monitor Pair)
      → serial pair ≡ s
      → HasCert cm ⊎ ((install_serial x509_key_pair serial pair s cm).1 ≡ true)
      → HasCert (install_serial x509_key_pair serial pair s cm).0
  unfolding install_serial
  serial-HasCert pair none cm e (inl h) = h
  serial-HasCert pair none cm e (inr h) = cc
  serial-HasCert pair (some s) cm e h = (pair, refl, e)

  pair-HasCert :
      (found : Option Pair) (cm : Monitor Pair)
      → HasCert cm ⊎ ((install_pair x509_key_pair serial found cm).1 ≡ true)
      → HasCert (install_pair x509_key_pair serial found cm).0
  unfolding install_pair
  pair-HasCert none cm (inl h) = h
  pair-HasCert none cm (inr h) = cc
  pair-HasCert (some pair) cm h = serial-HasCert pair (serial pair) cm refl h

  install-HasCert :
      (chain key : Option Text) (cm : Monitor Pair)
      → HasCert cm ⊎ ((install x509_key_pair serial chain key cm).1 ≡ true)
      → HasCert (install x509_key_pair serial chain key cm).0
  unfolding install
  install-HasCert none key cm (inl h) = h
  install-HasCert none key cm (inr h) = cc
  install-HasCert (some c) none cm (inl h) = h
  install-HasCert (some c) none cm (inr h) = cc
  install-HasCert (some c) (some k) cm h = pair-HasCert (x509_key_pair c k) cm h

  watch-HasCert :
      (later : List Directory) (cm : Monitor Pair)
      → HasCert cm
      → HasCert (watch x509_key_pair serial later cm)
  unfolding watch update_cert
  watch-HasCert [] cm h = h
  watch-HasCert (dir ∷ later) cm h =
      watch-HasCert later _ (install-HasCert (read_chain dir) (read_key dir.tls_key) cm (inl h))

  -- A monitor that was started has a certificate that goes with its serial number, whatever updates
  -- follow: there is never none to serve.
  pub load_and_watch-HasCert :
      (watch_set_up : Bool) (dir : Directory) (later : List Directory) (cm : Monitor Pair)
      → load_and_watch x509_key_pair serial watch_set_up dir later ≡ some cm
      → HasCert cm
  unfolding load_and_watch update_cert
  load_and_watch-HasCert watch_set_up dir later cm e =
      let first = (update_cert x509_key_pair serial dir new_monitor).0 in
      let last = watch x509_key_pair serial later first in
      elim (Bool-cases ((update_cert x509_key_pair serial dir new_monitor).1 && watch_set_up)) [
        | inl both ↦
            let same = sym (ap (λ b. if b then some last else none) both) ∙ e in
            subst HasCert (some-injective last cm same) (
              watch-HasCert later first (
                install-HasCert (read_chain dir) (read_key dir.tls_key) new_monitor
                  (inr (ground arith))))
        | inr other ↦ ground arith
      ]
