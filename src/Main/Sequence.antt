-- ===== src/Main/Sequence.antt =====
-- The operations doMain runs before the signal for chkmqready, and those run when it is set.
use mq_container.Base.{
  ◌≡◌, refl, sym, ap, ◌∙◌, Bool, true, false, not, ◌&&◌, ◌||◌, List, [], ◌∷◌, ◌++◌, inl, inr, All,
  Bool-cases, if-elim, arith, codes, if◌then◌else◌,
}
use mq_container.License.{LicenseCheck, accepted, viewed, read_failed, not_set, check_license}
use mq_container.QmName.{get_queue_manager_name}
use mq_container.Main.{
  is_none, Operation, returns_error, increase_file_limit, clear_ready, start_queue_manager,
  set_ready, Setting, only_if, is_true, run, prepare_volumes, prepare_queue_manager, serve,
  sequence, with_license, do_main,
}

abbrev pub is_set_ready : Operation → Bool
is_set_ready set_ready = true
is_set_ready op = false

abbrev pub any {ℓ} : {A : Type ℓ} → (A → Bool) → List A → Bool
any p [] = false
any p (x ∷ xs) = p x || any p xs

abbrev pub stops : (Operation → Bool) → Operation → Bool
stops fails op = returns_error op && fails op

-- If something that no operation of the first part is was run, the whole first part succeeded.
run-any :
    (fails : Operation → Bool) (p : Operation → Bool) (first rest : List Operation)
    → any p first ≡ false
    → any p (run fails (first ++ rest)).0 ≡ true
    → All (λ op. stops fails op ≡ false) first
unfolding run
run-any fails p [] rest h e = tt
run-any fails p (op ∷ first) rest h e = elim (Bool-cases (stops fails op)) [
  | inl x ↦ ground arith
  | inr x ↦ (x, run-any fails p first rest (ground arith) (ground arith))
]

volumes_first : (s : Setting) → any is_set_ready (prepare_volumes s) ≡ false
unfolding prepare_volumes
volumes_first s = ground arith

manager_first : (s : Setting) → any is_set_ready (prepare_queue_manager s) ≡ false
unfolding prepare_queue_manager
manager_first s = ground arith

-- the operations before the queue manager has started
abbrev pub to_start : Setting → List Operation
to_start s = prepare_volumes s ++ (prepare_queue_manager s ++ start_queue_manager ∷ [])

any-append {ℓ} :
    {A : Type ℓ} (p : A → Bool) (xs ys : List A)
    → any p xs ≡ false
    → any p ys ≡ false
    → any p (xs ++ ys) ≡ false
any-append p [] ys h k = k
any-append p (x ∷ xs) ys h k = ground (arith, any-append p xs ys)

to_start_first : (s : Setting) → any is_set_ready (to_start s) ≡ false
to_start_first s =
    any-append is_set_ready (prepare_volumes s) _ (volumes_first s)
      (any-append is_set_ready (prepare_queue_manager s) _ (manager_first s) refl)

regroup {ℓ} :
    {A : Type ℓ} (xs ys : List A) (z : A) (zs : List A)
    → xs ++ (ys ++ z ∷ zs) ≡ (xs ++ (ys ++ z ∷ [])) ++ zs
regroup [] [] z zs = refl
regroup [] (y ∷ ys) z zs = ap (λ t. y ∷ t) (regroup [] ys z zs)
regroup (x ∷ xs) ys z zs = ap (λ t. x ∷ t) (regroup xs ys z zs)

sequence-append : (s : Setting) → s.init_flag ≡ false → sequence s ≡ to_start s ++ serve s
unfolding sequence
sequence-append s e =
    ap
      (λ b.
        prepare_volumes s
        ++ (if b then [] else prepare_queue_manager s ++ start_queue_manager ∷ serve s))
      e
    ∙ regroup (prepare_volumes s) (prepare_queue_manager s) start_queue_manager (serve s)

volumes_only : (s : Setting) → s.init_flag ≡ true → any is_set_ready (sequence s) ≡ false
unfolding sequence
volumes_only s e =
    ap
      (λ b. any is_set_ready (
        prepare_volumes s
        ++ (if b then [] else prepare_queue_manager s ++ start_queue_manager ∷ serve s)))
      e
    ∙ any-append is_set_ready (prepare_volumes s) [] (volumes_first s) refl

-- What is run is a part of what there is to run.
any-run :
    (fails : Operation → Bool) (p : Operation → Bool) (ops : List Operation)
    → any p ops ≡ false
    → any p (run fails ops).0 ≡ false
unfolding run
any-run fails p [] h = refl
any-run fails p (op ∷ ops) h = elim (Bool-cases (stops fails op)) [
  | inl e ↦ ground arith
  | inr e ↦ let rest = any-run fails p ops (ground arith) in ground arith
]

pub ready_run :
    (s : Setting)
    → any is_set_ready (run s.fails (sequence s)).0 ≡ true
    → All (λ op. stops s.fails op ≡ false) (to_start s)
ready_run s e = elim (Bool-cases s.init_flag) [
  | inl i ↦ let none = any-run s.fails is_set_ready (sequence s) (volumes_only s i) in ground arith
  | inr i ↦
      run-any s.fails is_set_ready (to_start s) (serve s) (to_start_first s)
        (ap (λ ops. any is_set_ready (run s.fails ops).0) (sym (sequence-append s i)) ∙ e)
]

pub ready_licensed :
    (l : LicenseCheck) (rest : List Operation × Bool)
    → any is_set_ready (with_license l rest).0 ≡ true
    → any is_set_ready rest.0 ≡ true
unfolding with_license
ready_licensed accepted rest e = e
ready_licensed (viewed text) rest e = cc
ready_licensed read_failed rest e = cc
ready_licensed not_set rest e = cc

any_left_out {ℓ} :
    {A : Type ℓ} (p : A → Bool) (xs ys : List A) → any p xs ≡ false → any p (xs ++ ys) ≡ any p ys
any_left_out p [] ys h = refl
any_left_out p (x ∷ xs) ys h = ground (arith, any_left_out p xs ys)

limit_first : (b : Bool) → any is_set_ready (only_if b (increase_file_limit ∷ [])) ≡ false
limit_first true = refl
limit_first false = refl

cleared_first :
    (b : Bool) → any is_set_ready (only_if b (increase_file_limit ∷ []) ++ clear_ready ∷ []) ≡ false
cleared_first true = refl
cleared_first false = refl

-- doMain sets the signal only where the part behind the license does.
pub ready_gated :
    (s : Setting)
    → any is_set_ready (do_main s).0 ≡ true
    → any is_set_ready (with_license (check_license s.env s.licenses) (run s.fails (sequence s))).0
      ≡ true
unfolding do_main
ready_gated s =
    let limited = is_true s.env (codes "MQ_ENABLE_SOFT_FILE_LIMIT_INCREASE") in
    let rest = with_license (check_license s.env s.licenses) (run s.fails (sequence s)) in
    let motive = λ (out : List Operation × Bool).
      any is_set_ready out.0 ≡ true → any is_set_ready rest.0 ≡ true in
    let early = limit_first limited in
    let cleared = cleared_first limited in
    if-elim motive (not s.logger_configured) (λ x e. ground arith)
      (λ x.
        if-elim motive s.info_flag (λ y e. ground arith)
          (λ y.
            if-elim motive (not s.single_process) (λ z e. ground arith)
              (λ z.
                if-elim motive (is_none (get_queue_manager_name s.env s.hostname))
                  (λ n e. ground arith)
                  (λ n.
                    if-elim motive (s.fails clear_ready) (λ c e. ground arith)
                      (λ c e.
                        sym (
                          any_left_out is_set_ready
                            (only_if limited (increase_file_limit ∷ []) ++ clear_ready ∷ []) rest.0
                            cleared)
                        ∙ e)))))
