-- ===== src/Keystore/Labels.antt =====
-- What the lists of certificates are read as: the labels that were printed.
use mq_container.Base.{
  ℕ, ◌+◌, ◌<◌, ◌≤◌, ◌≡◌, refl, ap, ◌∙◌, sym, Bool, true, false, not, List, [], ◌∷◌, ◌++◌, Text,
  codes, has_prefix, trim_space, drop_while, leb, ◌==◌, arith, All, all, map, filter, Bool-cases,
  inl, inr, ◌⊎◌, is_space, trim_left,
}
use mq_container.Base.Spaces.{trim_space-snoc}
use mq_container.LogRotation.{byte_length, rune_bytes}
use mq_container.Ready.{ok}
use mq_container.Machine.{Machine, Host, run_command}
use mq_container.Keystore.{KeyStore}
use mq_container.Keystore.Commands.{
  lines_of, strip_cr, max_scan_token_size, scan, labels_in, is_personal, is_listed,
  is_personal_mark, is_listed_mark, read_labels, get_certificate_labels, list_all_certificates,
  list_command,
}

-- A list entry as the tools print it: a personal certificate, the default one, or a trusted one.
pub data Mark : Type 0 where
  personal default trusted : Mark

pub record Entry : Type 0 where
  pub mark : Mark
  pub label : Text

abbrev pub mark_text : Mark → Text
mark_text personal = codes "-"
mark_text default = codes "*-"
mark_text trusted = codes "!"

abbrev pub entry_line : Entry → Text
entry_line e = mark_text e.mark ++ 9 ∷ e.label

abbrev pub unlines : List Text → Text
unlines [] = []
unlines (l ∷ ls) = l ++ 10 ∷ unlines ls

abbrev pub heading : List Text
heading = codes "Certificates found" ∷ codes "* default, - personal, ! trusted, # secret key" ∷ []

abbrev pub listing : List Entry → Text
listing entries = unlines (heading ++ map entry_line entries)

abbrev pub one_line : Text → Bool
one_line = all (λ c. not (c == 10))

-- A label on one line that the scanner's buffer has room for
pub record IsPrintable (e : Entry) : Type 0 where
  pub on_one_line : one_line e.label ≡ true
  pub short : byte_length e.label + 3 < max_scan_token_size

pub lines_of-append : (l s : Text) → one_line l ≡ true → lines_of (l ++ 10 ∷ s) ≡ l ∷ lines_of s
unfolding lines_of
lines_of-append [] s h = refl
lines_of-append (c ∷ l) s h = ground (arith, lines_of-append l s)

pub lines_of-unlines :
    (ls : List Text) → All (λ l. one_line l ≡ true) ls → lines_of (unlines ls) ≡ ls
unfolding lines_of
lines_of-unlines [] h = refl
lines_of-unlines (l ∷ ls) h =
    lines_of-append l (unlines ls) h.0 ∙ ap (λ t. l ∷ t) (lines_of-unlines ls h.1)

strip_cr-cases : (s : Text) → (strip_cr s ≡ s) ⊎ (s ≡ strip_cr s ++ 13 ∷ [])
unfolding strip_cr
strip_cr-cases [] = inl refl
strip_cr-cases (c ∷ []) = elim (Bool-cases (c == 13)) [
  | inl e ↦ inr (ground arith)
  | inr e ↦ inl (rw e)
]
strip_cr-cases (c ∷ d ∷ s) = elim (strip_cr-cases (d ∷ s)) [
  | inl e ↦ inl (ap (λ t. c ∷ t) e)
  | inr e ↦ inr (ap (λ t. c ∷ t) e)
]

pub trim_space-strip_cr : (s : Text) → trim_space (strip_cr s) ≡ trim_space s
unfolding is_space
trim_space-strip_cr s = elim (strip_cr-cases s) [
  | inl e ↦ ap trim_space e
  | inr e ↦ sym (ap trim_space e ∙ trim_space-snoc (strip_cr s) 13 refl)
]

-- The tab behind the mark is white space.
trim_space-tab : (s : Text) → trim_space (9 ∷ s) ≡ trim_space s
unfolding trim_space trim_left
trim_space-tab s = refl

strip_cr-tab : (m l : Text) → strip_cr (m ++ 9 ∷ l) ≡ m ++ 9 ∷ strip_cr l
unfolding strip_cr
strip_cr-tab [] [] = refl
strip_cr-tab [] (c ∷ l) = refl
strip_cr-tab (c ∷ []) l = ap (λ t. c ∷ t) (strip_cr-tab [] l)
strip_cr-tab (c ∷ d ∷ m) l = ap (λ t. c ∷ t) (strip_cr-tab (d ∷ m) l)

pub byte_length-append : (s t : Text) → byte_length (s ++ t) ≡ byte_length s + byte_length t
unfolding byte_length
byte_length-append [] t = omega arith
byte_length-append (c ∷ s) t = omega (arith, byte_length-append s t)

mark_length : (m : Mark) → byte_length (mark_text m) ≤ 2
unfolding byte_length rune_bytes
mark_length personal = omega arith
mark_length default = omega arith
mark_length trusted = omega arith

entry_line-fits :
    (e : Entry) → IsPrintable e → leb max_scan_token_size (byte_length (entry_line e)) ≡ false
unfolding byte_length rune_bytes
entry_line-fits e h =
    ground (arith, byte_length-append (mark_text e.mark) (9 ∷ e.label), mark_length e.mark)

scan-entries :
    (entries : List Entry)
    → All IsPrintable entries
    → scan (map entry_line entries)
      ≡ ok (map (λ (e : Entry). mark_text e.mark ++ 9 ∷ strip_cr e.label) entries)
unfolding scan
scan-entries [] h = refl
scan-entries (e ∷ entries) h =
    rw (entry_line-fits e h.0)
      (rw (scan-entries entries h.1) (rw (strip_cr-tab (mark_text e.mark) e.label) refl))

abbrev is_trusted : Mark → Bool
is_trusted trusted = true
is_trusted _ = false

abbrev pub trimmed_labels : List Entry → List Text
trimmed_labels = map (λ (e : Entry). trim_space e.label)

abbrev pub personal_entries : List Entry → List Entry
personal_entries = filter (λ (e : Entry). not (is_trusted e.mark))

is_listed-mark : (m : Mark) (l : Text) → is_listed (mark_text m ++ 9 ∷ l) ≡ true
unfolding is_listed is_personal has_prefix
is_listed-mark personal l = refl
is_listed-mark default l = refl
is_listed-mark trusted l = refl

is_personal-mark : (m : Mark) (l : Text) → is_personal (mark_text m ++ 9 ∷ l) ≡ not (is_trusted m)
unfolding is_personal has_prefix
is_personal-mark personal l = refl
is_personal-mark default l = refl
is_personal-mark trusted l = refl

drop_while-listed : (m : Mark) (l : Text) → drop_while is_listed_mark (mark_text m ++ 9 ∷ l) ≡ 9 ∷ l
unfolding drop_while
drop_while-listed personal l = refl
drop_while-listed default l = refl
drop_while-listed trusted l = refl

drop_while-personal :
    (m : Mark) (l : Text)
    → is_trusted m ≡ false
    → drop_while is_personal_mark (mark_text m ++ 9 ∷ l) ≡ 9 ∷ l
unfolding drop_while
drop_while-personal personal l h = refl
drop_while-personal default l h = refl
drop_while-personal trusted l h = cc

label-trimmed : (l : Text) → trim_space (9 ∷ strip_cr l) ≡ trim_space l
label-trimmed l = trim_space-tab (strip_cr l) ∙ trim_space-strip_cr l

listed-entries :
    (entries : List Entry)
    → labels_in is_listed is_listed_mark
        (map (λ (e : Entry). mark_text e.mark ++ 9 ∷ strip_cr e.label) entries)
      ≡ trimmed_labels entries
unfolding labels_in
listed-entries [] = refl
listed-entries (e ∷ entries) = rw (is_listed-mark e.mark (strip_cr e.label)) (
    rw (drop_while-listed e.mark (strip_cr e.label))
      (rw (label-trimmed e.label) (rw (listed-entries entries) refl)))

personal-entries :
    (entries : List Entry)
    → labels_in is_personal is_personal_mark
        (map (λ (e : Entry). mark_text e.mark ++ 9 ∷ strip_cr e.label) entries)
      ≡ trimmed_labels (personal_entries entries)
unfolding labels_in
personal-entries [] = refl
personal-entries (e ∷ entries) = elim (Bool-cases (is_trusted e.mark)) [
  | inl t ↦ rw (is_personal-mark e.mark (strip_cr e.label)) (rw t (personal-entries entries))
  | inr t ↦ rw (is_personal-mark e.mark (strip_cr e.label)) (
      rw (drop_while-personal e.mark (strip_cr e.label) t)
        (rw t (rw (label-trimmed e.label) (rw (personal-entries entries) refl))))
]

one_line-entries :
    (entries : List Entry)
    → All IsPrintable entries
    → All (λ l. one_line l ≡ true) (map entry_line entries)
one_line-entries [] h = tt
one_line-entries (e ∷ entries) h =
    (one_line-mark e.mark e.label h.0.on_one_line, one_line-entries entries h.1)
  where
    one_line-mark :
        (m : Mark) (l : Text) → one_line l ≡ true → one_line (mark_text m ++ 9 ∷ l) ≡ true
    one_line-mark personal l e = e
    one_line-mark default l e = e
    one_line-mark trusted l e = e

-- The lines of a listing, as the scanner gives them.
scan-listing :
    (entries : List Entry)
    → All IsPrintable entries
    → scan (lines_of (listing entries))
      ≡ ok (heading ++ map (λ (e : Entry). mark_text e.mark ++ 9 ∷ strip_cr e.label) entries)
unfolding scan strip_cr byte_length rune_bytes
scan-listing entries h =
    rw
      (lines_of-unlines (heading ++ map entry_line entries)
        (refl, (refl, one_line-entries entries h)))
      (rw (scan-entries entries h) refl)

read_labels_scanned :
    (is_entry : Text → Bool) (is_mark : ℕ → Bool) (out : Text) (ls : List Text)
    → scan (lines_of out) ≡ ok ls
    → read_labels is_entry is_mark out ≡ ok (labels_in is_entry is_mark ls)
unfolding read_labels
read_labels_scanned is_entry is_mark out ls e = rw (e, read_labels) refl

-- The heading has no entry.
skips :
    (is_entry : Text → Bool) (is_mark : ℕ → Bool) (ls rest : List Text)
    → All (λ l. is_entry l ≡ false) ls
    → labels_in is_entry is_mark (ls ++ rest) ≡ labels_in is_entry is_mark rest
unfolding labels_in
skips is_entry is_mark [] rest h = refl
skips is_entry is_mark (l ∷ ls) rest h = rw h.0 (skips is_entry is_mark ls rest h.1)

no_entry : All (λ l. is_listed l ≡ false × is_personal l ≡ false) heading
unfolding is_listed is_personal has_prefix
no_entry = ((refl, refl), ((refl, refl), tt))

read_labels-listing :
    (is_entry : Text → Bool) (is_mark : ℕ → Bool) (entries : List Entry)
    → All (λ l. is_entry l ≡ false) heading
    → All IsPrintable entries
    → read_labels is_entry is_mark (listing entries)
      ≡ ok (
          labels_in is_entry is_mark
            (map (λ (e : Entry). mark_text e.mark ++ 9 ∷ strip_cr e.label) entries))
read_labels-listing is_entry is_mark entries none p =
    read_labels_scanned is_entry is_mark (listing entries) _ (scan-listing entries p)
    ∙ ap ok (skips is_entry is_mark heading _ none)

module _ (h : Host) (ks : KeyStore) (m : Machine) (entries : List Entry) where
  -- When the list command succeeds and prints some entries under its heading, `ListAllCertificates`
  -- gives the labels of all of them, and `GetCertificateLabels` those of the entries that are not
  -- marked as trusted, in order, without white space around them.
  pub labels_printed :
      (h.sh m.done (list_command ks)).is_error ≡ false
      → (h.sh m.done (list_command ks)).out ≡ listing entries
      → All IsPrintable entries
      → (list_all_certificates h ks m).1 ≡ ok (trimmed_labels entries)
        × (get_certificate_labels h ks m).1 ≡ ok (trimmed_labels (personal_entries entries))
  unfolding list_all_certificates get_certificate_labels run_command
  labels_printed fine out p =
      rw (fine, out)
        (
          read_labels-listing is_listed is_listed_mark entries (no_entry.0.0, (no_entry.1.0.0, tt))
                p
              ∙ ap ok (listed-entries entries),
          read_labels-listing is_personal is_personal_mark entries
                (no_entry.0.1, (no_entry.1.0.1, tt)) p
              ∙ ap ok (personal-entries entries),
        )
