-- ===== src/MqVersion.antt =====
-- internal/mqversion/mqversion.go: the four parts of an MQ version, read, written and compared. What
-- `dspmqver` prints is an argument; `none` where the command fails.
pub mod RoundTrip
pub mod Order
mod Tests
use mq_container.Base.{
  ℕ, zero, suc, Bool, true, false, List, [], ◌∷◌, ◌++◌, Option, none, some, Text, split_on,
  trim_space, length, ltb, ◌==◌, if◌then◌else◌,
}
use mq_container.Base.Decimal.{ℤ, pos, negsuc, atoi, itoa}

-- `vmrfPartNames`
pub data Part : Type 0 where
  version release minor fix : Part

pub data VersionError : Type 0 where
  command_failed : VersionError
  wrong_number_of_parts : ℕ → VersionError
  empty_part : Part → VersionError
  non_numeric : Part → VersionError
  negative_part : Part → VersionError
  zero_version : VersionError
  in_check_version : VersionError → VersionError

pub data Parsed {ℓ} (A : Type ℓ) : Type ℓ where
  invalid : VersionError → Parsed A
  valid : A → Parsed A

infixl 5 ◌>>=◌
abbrev pub ◌>>=◌ {ℓ κ} : {A : Type ℓ} {B : Type κ} → Parsed A → (A → Parsed B) → Parsed B
invalid reason >>= next = invalid reason
valid a >>= next = next a

-- `type vrmf [4]int`
pub record Vrmf : Type 0 where
  pub version : ℕ
  pub release : ℕ
  pub minor : ℕ
  pub fix : ℕ

abbrev pub is_version : Part → Bool
is_version version = true
is_version _ = false

-- the checks on the number that a part holds
abbrev pub checked_part : Part → Option ℤ → Parsed ℕ
checked_part p none = invalid (non_numeric p)
checked_part p (some (negsuc n)) = invalid (negative_part p)
checked_part p (some (pos zero)) = if is_version p then invalid zero_version else valid 0
checked_part p (some (pos (suc n))) = valid (suc n)

-- the body of the loop of `parseVRMF`
unfoldable pub parse_part : Part → Text → Parsed ℕ
parse_part p [] = invalid (empty_part p)
parse_part p (c ∷ value) = checked_part p (atoi (c ∷ value))

abbrev pub parse_parts : List Text → Parsed Vrmf
parse_parts (a ∷ b ∷ c ∷ d ∷ []) = do
  v ← parse_part version a
  r ← parse_part release b
  m ← parse_part minor c
  f ← parse_part fix d
  valid (record { version = v; release = r; minor = m; fix = f })
parse_parts parts = invalid (wrong_number_of_parts (length parts))

-- `parseVRMF`
unfoldable pub parse_vrmf : Text → Parsed Vrmf
parse_vrmf vrmf_string = parse_parts (split_on b'.' vrmf_string)

-- `vrmf.String`
unfoldable pub to_string : Vrmf → Text
to_string v =
    itoa v.version ++ (b'.' ∷ itoa v.release ++ (b'.' ∷ itoa v.minor ++ (b'.' ∷ itoa v.fix)))

abbrev pub entries : Vrmf → List ℕ
entries v = v.version ∷ v.release ∷ v.minor ∷ v.fix ∷ []

-- the loop of `compare`
unfoldable pub compare_entries : List ℕ → List ℕ → ℤ
compare_entries (a ∷ v) (b ∷ to) =
    let rest = compare_entries v to in if ltb a b then negsuc 0 else if ltb b a then pos 1 else rest
compare_entries _ _ = pos 0

-- `vrmf.compare`
unfoldable pub compare : Vrmf → Vrmf → ℤ
unfolding compare_entries
compare v to = compare_entries (entries v) (entries to)

-- `Get`, from the output of `dspmqver -b -f 2`
unfoldable pub get : Option Text → Parsed Text
get none = invalid command_failed
get (some mq_version) = valid (trim_space mq_version)

abbrev in_check : Parsed Vrmf → Parsed Vrmf
in_check (valid v) = valid v
in_check (invalid e) = invalid (in_check_version e)

-- `Compare`
unfoldable pub compare_version : Option Text → Text → Parsed ℤ
unfolding get
compare_version output check_version = do
  current_version ← get output
  current_vrmf ← parse_vrmf current_version
  compare_vrmf ← in_check (parse_vrmf check_version)
  valid (compare current_vrmf compare_vrmf)
