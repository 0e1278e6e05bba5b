-- ===== src/MqVersion/Order.antt =====
-- `compare` is a total order on versions, the lexicographic one.
use mq_container.Base.{ℕ, zero, suc, ◌<◌, ◌≡◌, ◌↔◌, ◌⊎◌, List, [], ◌∷◌, arith}
use mq_container.Base.Decimal.{ℤ, pos, negsuc}
use mq_container.MqVersion.{Vrmf, compare, entries}

abbrev pub negate : ℤ → ℤ
negate (pos zero) = pos 0
negate (pos (suc n)) = negsuc n
negate (negsuc n) = pos (suc n)

-- `v` is before `to`: at the first part where they differ it has the smaller number.
abbrev pub Before : List ℕ → List ℕ → Type 0
Before (a ∷ v) (b ∷ to) = (a < b) ⊎ ((a ≡ b) × Before v to)
Before [] to = ⊥
Before (a ∷ v) [] = ⊥

-- `compare` is -1 exactly when the version is before the other one.
pub compare-Before : (v to : Vrmf) → (compare v to ≡ negsuc 0) ↔ Before (entries v) (entries to)
unfolding compare
compare-Before v to = (λ h. ground arith, λ h. ground arith)

-- `compare` is 0 exactly when the versions are equal.
pub compare-eq : (v to : Vrmf) → (compare v to ≡ pos 0) ↔ (v ≡ to)
unfolding compare
compare-eq v to = (λ h. ground arith, λ h. ground arith)

-- Swapping the versions changes the sign of what `compare` returns.
pub compare_swap : (v to : Vrmf) → compare to v ≡ negate (compare v to)
unfolding compare
compare_swap v to = ground arith

-- If `compare` puts one version before a second and that before a third, it puts the first before
-- the third.
pub compare_trans :
    (u v w : Vrmf) → compare u v ≡ negsuc 0 → compare v w ≡ negsuc 0 → compare u w ≡ negsuc 0
unfolding compare
compare_trans u v w h k = ground arith
