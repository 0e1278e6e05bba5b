-- ===== src/Tls/Blocks.antt =====
-- The loop over the PEM blocks of a file, and the blocks it visits.
use mq_container.Base.{
  ℕ, zero, suc, ◌≤◌, ◌<◌, ◌≡◌, refl, List, [], ◌∷◌, none, some, Text, length, arith, Option-cases,
  inl, inr,
}
use mq_container.Ready.{Outcome, ok, failed}
use mq_container.Machine.{Act, and_then}
use mq_container.Tls.{Crypto, for_blocks, for_names}

-- `pem.Decode` that finds a block leaves less than it was given.
abbrev pub Consumes : Crypto → Type 0
Consumes c = (t : Text) (b : Text × Text) → c.decode t ≡ some b → length b.1 < length t

-- The blocks of a file, up to its end or to where no further block is found.
pub data Blocks (c : Crypto) : Text → List Text → Type 0 where
  end_of_file : Blocks c [] []
  no_block : (x : ℕ) (file : Text) → c.decode (x ∷ file) ≡ none → Blocks c (x ∷ file) []
  a_block :
      (x : ℕ) (file block rest : Text) (blocks : List Text)
      → c.decode (x ∷ file) ≡ some (block, rest)
      → Blocks c rest blocks
      → Blocks c (x ∷ file) (block ∷ blocks)

module _ {S A : Type 0} (c : Crypto) (consumes : Consumes c) (act : Text → A → Act S A) where
  and_then-same :
      (f g : A → Act S A) (s : S) (r : Outcome A)
      → ((a : A) (t : S) → f a t ≡ g a t)
      → and_then f s r ≡ and_then g s r
  and_then-same f g s (ok a) h = h a s
  and_then-same f g s failed h = refl

  -- Where `pem.Decode` that finds a block leaves less than it was given, every file has a finite list
  -- of blocks, and with as many rounds as the file has characters, or more, the loop ends: it does
  -- what its body does for each of these blocks in order, an error ending it.
  pub for_blocks_lem :
      (n : ℕ) (file : Text)
      → length file ≤ n
      → (blocks : List Text) × Blocks c file blocks
        × ((a : A) (s : S) → for_blocks c n file act a s ≡ for_names blocks act a s)
  unfolding for_blocks for_names
  for_blocks_lem zero [] h = ([], end_of_file, λ a s. refl)
  for_blocks_lem zero (x ∷ file) h = absurd (omega arith)
  for_blocks_lem (suc n) [] h = ([], end_of_file, λ a s. refl)
  for_blocks_lem (suc n) (x ∷ file) h = elim (Option-cases (c.decode (x ∷ file))) [
    | inl e ↦ ([], no_block x file e, λ a s. rw (e, for_blocks) refl)
    | inr (b, e) ↦
        let less = consumes (x ∷ file) b e in
        let (blocks, are, same) = for_blocks_lem n b.1 (omega (arith, less)) in
        (
          b.0 ∷ blocks,
          a_block x file b.0 b.1 blocks e are,
          λ a s.
              rw (e, for_blocks)
                (and_then-same (for_blocks c n b.1 act) (for_names blocks act) (act b.0 a s).0
                  (act b.0 a s).1 same),
        )
  ]
