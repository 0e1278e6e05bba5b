-- ===== src/Metrics/Tests.antt =====
-- The theorems about metrics at two classes, one of them with an element per queue.
use mq_container.Base.{
  ◌≡◌, refl, true, false, List, [], ◌∷◌, Option, none, some, Text, codes, eq_text, length, ◌+◌,
  contains, has_prefix, if◌then◌else◌,
}
use mq_container.Base.Decimal.{ℤ, pos}
use mq_container.Metrics.{
  Element, MetricClass, MetricLookup, MetricData, make_key, is_processed, find, add_if_new,
  initialise_lookup, initialise_elements, initialise_types, initialise_classes, initialise_metrics,
  update_metrics, normalised,
}
use mq_container.Metrics.Update.{with_values, update_metrics-find}
use mq_container.Metrics.Initialise.{IsInitial, initialise_metrics-IsInitial}
use mq_container.Metrics.Exporter.{
  Vec, Exporter, new_exporter, describe, create_vec, set_vec, find_vec, collect,
}
use mq_container.Metrics.Exported.{distinct, absent, vec_of}
use mq_container.Metrics.Response.{Each, SentAs, KeptAs, collect_lem}
use mq_container.Metrics.Scrapes.{scrapes, scrapes-Succeed}
use mq_container.Metrics.Server.{Event, connection, published, request, stop, timeout, start, run}
use mq_container.Metrics.Gather.{IsWellFormed, process_metrics-IsWellFormed}

abbrev commits : Element
commits = record {
  description = codes "Commits";
  is_delta = true;
  published = (codes "@self", pos 3) ∷ [];
}

abbrev classes : List MetricClass
classes =
    record {
      class_name = codes "QM";
      types =
          record { type_name = codes "SYNC"; object_topic = codes "t"; elements = commits ∷ [] }
          ∷ record { type_name = codes "PUT"; object_topic = codes "%s"; elements = commits ∷ [] }
          ∷ [];
    }
    ∷ []

abbrev names : Text → Option MetricLookup
names key =
    if eq_text key (codes "QM/SYNC/Commits")
    then some (record { metric_name = codes "commit_total"; enabled = true })
    else none

abbrev same : Element → Text → ℤ → ℤ
same e label value = value

abbrev first_map : List (Text × MetricData ℤ)
first_map =
    (
      codes "QM/SYNC/Commits",
      record {
        name = codes "commit_total";
        help = codes "Commits";
        object_type = false;
        nha_type = false;
        delta = true;
        values = [];
      },
    )
    ∷ []

initialised : initialise_metrics names classes ≡ (first_map, true)
unfolding initialise_metrics initialise_classes initialise_types initialise_elements
    initialise_lookup add_if_new find make_key is_processed contains has_prefix eq_text
initialised = refl

initialise_metrics-IsInitial_example : IsInitial {V = ℤ} names (initialise_metrics names classes).0
initialise_metrics-IsInitial_example = initialise_metrics-IsInitial ℤ names classes

update_metrics-find_example :
    find (codes "QM/SYNC/Commits") (update_metrics same classes first_map).1
    ≡ with_values (normalised same commits) (find (codes "QM/SYNC/Commits") first_map)
unfolding make_key is_processed contains has_prefix eq_text
update_metrics-find_example =
    update_metrics-find same classes first_map [] [] (codes "QM/SYNC/Commits") commits refl tt

abbrev sum : ℤ → ℤ → ℤ
sum (pos a) (pos b) = pos (a + b)
sum a b = b

-- the map after an update
abbrev published_map : List (Text × MetricData ℤ)
published_map =
    (
      codes "QM/SYNC/Commits",
      record {
        name = codes "commit_total";
        help = codes "Commits";
        object_type = false;
        nha_type = false;
        delta = true;
        values = (codes "@self", pos 3) ∷ [];
      },
    )
    ∷ []

abbrev described : Exporter ℤ
described = record (describe (new_exporter (codes "QM1")) first_map) { first_collect = false }

collect_lem_example :
    (e' : Exporter ℤ) × (vecs : List (Vec ℤ)) × (collect
        (codes "@self")
        (codes "@nha")
        (pos 0)
        sum
        described
        published_map
      ≡ some (e', vecs))
    × Each (SentAs (codes "@self") (codes "@nha") (pos 0) sum described) published_map vecs
    × Each (KeptAs e') published_map vecs
    × (e'.qm_name ≡ described.qm_name)
    × (e'.first_collect ≡ false)
unfolding distinct absent vec_of describe set_vec find_vec create_vec eq_text
collect_lem_example =
    collect_lem (codes "@self") (codes "@nha") (pos 0) sum described published_map refl (
      (
        create_vec (record {
          name = codes "commit_total";
          help = codes "Commits";
          object_type = false;
          nha_type = false;
          delta = true;
          values = [];
        }),
        refl,
      ),
      tt,
    )

scrapes-Succeed_example :
    (sent : List (List (Vec ℤ))) × (scrapes
        (codes "@self")
        (codes "@nha")
        (pos 0)
        sum
        same
        (describe (new_exporter (codes "QM1")) (initialise_metrics names classes).0)
        (initialise_metrics names classes).0
        (classes ∷ classes ∷ [])
      ≡ some sent)
    × (length sent ≡ 2)
scrapes-Succeed_example =
    scrapes-Succeed (codes "@self") (codes "@nha") (pos 0) sum same names classes (codes "QM1")
      (classes ∷ classes ∷ [])

abbrev two_connections : List Event
two_connections =
    connection true (some classes)
    ∷ published (some classes)
    ∷ request true
    ∷ published none
    ∷ timeout
    ∷ connection true (some classes)
    ∷ published (some classes)
    ∷ stop
    ∷ []

process_metrics-IsWellFormed_example : IsWellFormed (run names same two_connections start)
process_metrics-IsWellFormed_example = process_metrics-IsWellFormed names same two_connections
