-- ===== src/Main/Gate.antt =====
-- What doMain does before the license is accepted.
use mq_container.Base.{
  Option, none, some, ◌≡◌, ◌≢◌, refl, Bool, true, false, not, List, [], ◌∷◌, append-nil, ◌⊎◌, inl,
  inr, All, All-append, if-elim, codes,
}
use mq_container.License.{LicenseCheck, accepted, viewed, read_failed, not_set, check_license}
use mq_container.License.Accept.{check_license-accepted}
use mq_container.QmName.{get_queue_manager_name}
use mq_container.Main.{
  is_none, Operation, increase_file_limit, clear_ready, Setting, only_if, is_true, run, sequence,
  with_license, do_main,
}

-- Operations that leave the volumes and the queue manager alone.
abbrev pub IsHarmless : Operation → Type 0
IsHarmless op = (op ≡ increase_file_limit) ⊎ (op ≡ clear_ready)

unlicensed :
    (l : LicenseCheck) (rest : List Operation × Bool)
    → l ≢ accepted
    → with_license l rest ≡ ([], true)
unfolding with_license
unlicensed accepted rest h = elim (h refl) [ ]
unlicensed (viewed text) rest h = refl
unlicensed read_failed rest h = refl
unlicensed not_set rest h = refl

none-is_none : {A : Type 0} (o : Option A) → is_none o ≡ true → o ≡ none
none-is_none none e = refl
none-is_none (some a) e = cc

limit-IsHarmless : (b : Bool) → All IsHarmless (only_if b (increase_file_limit ∷ []))
limit-IsHarmless true = (inl refl, tt)
limit-IsHarmless false = tt

-- What doMain may do where the license is not accepted.
abbrev pub IsGated : Setting → List Operation × Bool → Type 0
IsGated s out =
    All IsHarmless out.0
    × ((out.1 ≡ true) ⊎ (s.info_flag ≡ true) ⊎ (get_queue_manager_name s.env s.hostname ≡ none))

-- Where LICENSE is not set to accept, doMain does nothing but raise the limit of open files and remove the
-- signals of an earlier run; and it returns an error, unless it only shows information or has no name
-- for the queue manager.
pub do_main_unlicensed :
    (s : Setting) → s.env (codes "LICENSE") ≢ some (codes "accept") → IsGated s (do_main s)
unfolding do_main
do_main_unlicensed s h =
    let limit = limit-IsHarmless (is_true s.env (codes "MQ_ENABLE_SOFT_FILE_LIMIT_INCREASE")) in
    let refused = λ (e : check_license s.env s.licenses ≡ accepted).
      h ((check_license-accepted s.env s.licenses).0 e) in
    let cleared = All-append IsHarmless _ (clear_ready ∷ []) limit (inr refl, tt) in
    if-elim (IsGated s) (not s.logger_configured) (λ e. (limit, inl refl))
      (λ e.
        if-elim (IsGated s) s.info_flag (λ i. (limit, inr (inl i)))
          (λ i.
            if-elim (IsGated s) (not s.single_process) (λ p. (limit, inl refl))
              (λ p.
                if-elim (IsGated s) (is_none (get_queue_manager_name s.env s.hostname))
                  (λ n. (limit, inr (inr (none-is_none _ n))))
                  (λ n.
                    if-elim (IsGated s) (s.fails clear_ready) (λ c. (cleared, inl refl))
                      (λ c.
                        rw
                          (
                            unlicensed (check_license s.env s.licenses) (run s.fails (sequence s))
                                refused,
                            append-nil,
                          )
                          (cleared, inl refl))))))
