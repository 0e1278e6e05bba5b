-- ===== src/MqVersion/Tests.antt =====
-- Versions read and compared, and instances of the theorems.
use mq_container.Base.{◌≡◌, ◌↔◌, refl, some, codes, arith, split_on, trim_space}
use mq_container.Base.Decimal.{pos, negsuc, atoi}
use mq_container.MqVersion.{
  Vrmf, valid, invalid, release, non_numeric, zero_version, wrong_number_of_parts, negative_part,
  minor, parse_vrmf, parse_part, to_string, compare, compare_version, entries,
}
use mq_container.MqVersion.RoundTrip.{IsVrmf, parse_vrmf-to_string}
use mq_container.MqVersion.Order.{Before, compare-Before}

abbrev base : Vrmf
base = record { version = 9; release = 2; minor = 1; fix = 0 }

abbrev newer : Vrmf
newer = record { version = 9; release = 10; minor = 0; fix = 0 }

abbrev newest : Vrmf
newest = record { version = 10; release = 0; minor = 0; fix = 1 }

parse_errors :
    (parse_vrmf (codes "9.x.1.0") ≡ invalid (non_numeric release))
    × (parse_vrmf (codes "0.1.1.1") ≡ invalid zero_version)
    × (parse_vrmf (codes "9.2") ≡ invalid (wrong_number_of_parts 2))
    × (parse_vrmf (codes "9.2.-1.0") ≡ invalid (negative_part minor))
unfolding parse_vrmf parse_part split_on atoi
parse_errors = (refl, refl, refl, refl)

parse_base : parse_vrmf (codes "9.2.1.0") ≡ valid base
unfolding parse_vrmf parse_part split_on atoi
parse_base = refl

compare_installed : compare_version (some (codes "9.10.0.0\n")) (codes "9.2.1.0") ≡ valid (pos 1)
unfolding compare_version compare parse_vrmf parse_part split_on atoi trim_space
compare_installed = refl

base-IsVrmf : IsVrmf base
base-IsVrmf = omega arith

parse_vrmf-to_string_example : parse_vrmf (to_string base) ≡ valid base
parse_vrmf-to_string_example = parse_vrmf-to_string base base-IsVrmf

compare-Before_example : (compare base newer ≡ negsuc 0) ↔ Before (entries base) (entries newer)
compare-Before_example = compare-Before base newer
