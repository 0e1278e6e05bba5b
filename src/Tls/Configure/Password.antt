-- ===== src/Tls/Configure/Password.antt =====
-- The random password of the key stores.
use mq_container.Base.{
  ℕ, zero, suc, ◌%◌, ◌<◌, ◌≡◌, refl, Bool, true, ◌&&◌, ◌||◌, List, [], ◌∷◌, Text, All, all, length,
  leb, arith,
}
use mq_container.Tls.Configure.{valid_chars, char_at, generate_random_password}

abbrev pub is_alphanumeric : ℕ → Bool
is_alphanumeric c =
    (leb b'A' c && leb c b'Z') || (leb b'a' c && leb c b'z') || (leb b'0' c && leb c b'9')

char_at-all :
    (p : ℕ → Bool) (n : ℕ) (s : Text) → all p s ≡ true → n < length s → p (char_at n s) ≡ true
unfolding char_at
char_at-all p n [] a h = absurd (omega arith)
char_at-all p zero (c ∷ s) a h = ground (arith)
char_at-all p (suc n) (c ∷ s) a h = char_at-all p n s (ground arith) (omega arith)

-- Whatever the random bytes are, the password has a letter or a digit for each of them.
pub generate_random_password_lem :
    (bytes : List ℕ)
    → All (λ c. is_alphanumeric c ≡ true) (generate_random_password bytes)
      × length (generate_random_password bytes) ≡ length bytes
unfolding generate_random_password
generate_random_password_lem [] = (tt, refl)
generate_random_password_lem (b ∷ bytes) =
    let rest = generate_random_password_lem bytes in
    (
      (char_at-all is_alphanumeric (b % length valid_chars) valid_chars refl (omega arith), rest.0),
      omega (arith, rest.1),
    )
