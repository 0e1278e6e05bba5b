-- ===== src/Logging/Mirror.antt =====
-- Which messages the mirror functions keep back, and what they write of a message.
use mq_container.Base.{
  ℕ, ◌≡◌, ◌≢◌, refl, ap, ◌∙◌, Bool, true, false, List, [], ◌∷◌, ◌++◌, Option, Text, codes, eq_text,
  contains, has_prefix, trim_space, Env, arith, All,
}
use mq_container.Base.Decimal.{is_digit}
use mq_container.Logging.{
  is_excluded_msg_id_present, exclude_ids, LogMessage, nothing, mirror_with, mirror, error_at_head,
  digits_then_e, has_error_id,
}

-- The ids that count: those that are not empty, trimmed.
excluded-member :
    (msg id : Text) (before after : List Text)
    → id ≢ []
    → contains msg (trim_space id) ≡ true
    → is_excluded_msg_id_present msg (before ++ id ∷ after) ≡ true
unfolding is_excluded_msg_id_present eq_text
excluded-member msg [] [] after h c = elim (h refl) [ ]
excluded-member msg (i ∷ id) [] after h c = rw c refl
excluded-member msg id (b ∷ before) after h c =
    ground (arith, excluded-member msg id before after h c)

-- A message with an excluded id is not mirrored, in either format, whatever it holds.
pub excluded_not_mirrored :
    (env : Env) (hostname : Option Text) (parsed : Option LogMessage) (msg id : Text) (q : Bool)
    (before after : List Text)
    → exclude_ids env ≡ before ++ id ∷ after
    → id ≢ []
    → contains msg (trim_space id) ≡ true
    → mirror env hostname parsed msg q ≡ (false, nothing)
unfolding mirror mirror_with
excluded_not_mirrored env hostname parsed msg id q before after e h c =
    let member = excluded-member msg id before after h c in
    let present = ap (λ ids. is_excluded_msg_id_present msg ids) e ∙ member in ground arith

digits-then_e :
    (digits after : Text)
    → All (λ c. is_digit c ≡ true) digits
    → digits_then_e true (digits ++ codes "E:" ++ after) ≡ true
unfolding digits_then_e has_prefix
digits-then_e [] after h = refl
digits-then_e (d ∷ digits) after h = rw (h.0, digits-then_e digits after h.1)

-- A message that holds "AMQ", some digits and "E:" is found to be an error, wherever that stands.
pub error_found :
    (before digits after : Text) (d : ℕ)
    → All (λ c. is_digit c ≡ true) (d ∷ digits)
    → has_error_id (before ++ codes "AMQ" ++ d ∷ digits ++ codes "E:" ++ after) ≡ true
unfolding has_error_id error_at_head digits_then_e has_prefix
error_found [] digits after d h = rw (h.0, digits-then_e digits after h.1)
error_found (c ∷ before) digits after d h = ground (arith, error_found before digits after d h)
