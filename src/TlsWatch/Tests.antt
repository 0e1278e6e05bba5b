-- ===== src/TlsWatch/Tests.antt =====
-- The theorems about the certificate of the metrics server at a rotation that fails once.
use mq_container.Base.{
  true, ◌≡◌, refl, [], ◌∷◌, Option, none, some, Text, codes, eq_text, if◌then◌else◌,
}
use mq_container.TlsWatch.{
  missing, content, Directory, lacks_newline, append_files, read_chain, Monitor, new_monitor,
  latest_cert, install_serial, install_pair, install, update_cert, watch, load_and_watch,
}
use mq_container.TlsWatch.Latest.{last_loaded, watch-latest, HasCert, load_and_watch-HasCert}

-- A pair is a chain with a key; the chain is the serial number.
abbrev pair_of : Text → Text → Option (Text × Text)
pair_of chain key = if eq_text chain [] then none else some (chain, key)

abbrev serial_of : Text × Text → Option Text
serial_of pair = some pair.0

abbrev old : Directory
old = record {
  tls_crt = content (codes "OLD");
  ca_crt = content (codes "CA");
  tls_key = content (codes "K1");
}

abbrev broken : Directory
broken = record old { tls_key = missing }

abbrev new : Directory
new = record { tls_crt = content (codes "NEW"); ca_crt = missing; tls_key = content (codes "K2") }

abbrev started : Monitor (Text × Text)
started = record { cert = some (codes "NEW", codes "K2"); cert_serial = codes "NEW" }

starts : load_and_watch pair_of serial_of true old (broken ∷ new ∷ broken ∷ []) ≡ some started
unfolding load_and_watch watch update_cert install install_pair install_serial read_chain
    append_files lacks_newline eq_text
starts = refl

watch-latest_example :
    latest_cert (watch pair_of serial_of (broken ∷ new ∷ []) new_monitor)
    ≡ last_loaded pair_of serial_of (latest_cert new_monitor) (broken ∷ new ∷ [])
watch-latest_example = watch-latest pair_of serial_of (broken ∷ new ∷ []) new_monitor

load_and_watch-HasCert_example : HasCert pair_of serial_of started
load_and_watch-HasCert_example =
    load_and_watch-HasCert pair_of serial_of true old (broken ∷ new ∷ broken ∷ []) started starts
