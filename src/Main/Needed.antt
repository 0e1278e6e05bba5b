-- ===== src/Main/Needed.antt =====
-- What the signal for chkmqready means: which operations have succeeded when it is set.
use mq_container.Base.{
  ◌≡◌, refl, sym, ap, ◌∙◌, Bool, true, false, not, ◌&&◌, List, [], ◌∷◌, ◌++◌, All, all, arith,
  codes, if◌then◌else◌,
}
use mq_container.License.{check_license}
use mq_container.Logging.{check_log_source_for_mirroring}
use mq_container.Main.{
  Operation, start_queue_manager, create_volume, clean_volume, write_file, copy_file,
  create_dir_structure, configure_default_tls_keystores, configure_tls, process_fips_type,
  fips_post_init, post_init, create_queue_manager, update_command_level, log_container_details,
  start_mq_trace, end_mq_trace, crtmqdir, crtmqm, strmqm, configure_native_ha,
  mirror_web_server_logs, mirror_system_error_logs, mirror_queue_manager_error_logs,
  mirror_mq_simple_auth_logs, update_qm_ini, is_switched_on, simple_auth_enabled, Setting, only_if,
  is_true, run, prepare_volumes, prepare_queue_manager, sequence, do_main,
}
use mq_container.Main.Sequence.{
  is_set_ready, any, stops, to_start, ready_run, ready_licensed, ready_gated,
}

-- What has to succeed on the volumes, before the queue manager: of the operations up to there, only the
-- start of the signal handler and the cleaning of the scratch volume may go wrong.
abbrev pub needed_volumes : Setting → List Operation
needed_volumes s =
    let etc = codes "/etc/mqm/web/installations/Installation1/servers/mqweb/" in
    let tracing = is_switched_on s.env (codes "MQ_ENABLE_TRACE_CRTMQDIR") in
    create_volume (codes "/mnt/mqm/data")
      ∷ create_volume (codes "/mnt/mqm/scratch")
      ∷ create_volume (codes "/mnt/mqm/tmp")
      ∷ create_volume (codes "/mnt/mqm-log/log")
      ∷ create_volume (codes "/mnt/mqm-data/qmgrs")
      ∷ create_volume (codes "/run/scratch/runmqserver")
      ∷ create_volume (codes "/run/mqm")
      ∷ clean_volume (codes "/run/scratch")
      ∷ clean_volume (codes "/run/mqm")
      ∷ write_file (codes "/run/15-tls.mqsc")
      ∷ write_file (codes "/run/10-native-ha.ini")
      ∷ write_file (codes "/run/10-native-ha-instance.ini")
      ∷ write_file (codes "/run/10-native-ha-keystore.ini")
      ∷ copy_file
          (if s.dev_flag && is_true s.env (codes "MQ_DEV")
            then etc ++ codes "mqwebcontainer.xml.dev"
            else etc ++ codes "mqwebcontainer.xml.default")
          (codes "/run/mqwebcontainer.xml")
      ∷ copy_file (etc ++ codes "tls.xml.default") (codes "/run/tls.xml")
      ∷ copy_file (etc ++ codes "configDropins/defaults/jvm.options.default")
          (codes "/run/jvm.options")
      ∷ create_dir_structure
      ∷ only_if (not s.no_log_runtime_flag) (log_container_details ∷ [])
    ++ only_if (is_true s.env (codes "MQ_ENABLE_CLEAN_TMP_ON_START"))
        (clean_volume (codes "/tmp") ∷ clean_volume (codes "/mnt/mqm/tmp") ∷ [])
    ++ only_if tracing (start_mq_trace crtmqdir ∷ end_mq_trace crtmqdir ∷ [])

-- What has to succeed for the queue manager up to its creation, and from there to its start: of the
-- operations there, only the two that decide on FIPS cryptography and report it may go wrong.
abbrev pub needed_creation : Setting → List Operation
needed_creation s =
    let env = s.env in
    configure_default_tls_keystores
      ∷ configure_tls
      ∷ post_init
      ∷ create_queue_manager
      ∷ only_if (is_true env (codes "MQ_NATIVE_HA")) (configure_native_ha ∷ [])
    ++ only_if (check_log_source_for_mirroring env (codes "web")) (mirror_web_server_logs ∷ [])
    ++ only_if (is_switched_on env (codes "MQ_ENABLE_TRACE_CRTMQM")) (start_mq_trace crtmqm ∷ [])

abbrev pub needed_start : Setting → List Operation
needed_start s =
    let env = s.env in
    let simple_auth = s.dev_flag && simple_auth_enabled env in
    update_command_level
      ∷ start_queue_manager
      ∷ only_if (check_log_source_for_mirroring env (codes "qmgr"))
          (mirror_system_error_logs ∷ mirror_queue_manager_error_logs s.new_qm ∷ [])
    ++ only_if simple_auth (mirror_mq_simple_auth_logs s.new_qm ∷ update_qm_ini ∷ [])
    ++ only_if (is_switched_on env (codes "MQ_ENABLE_TRACE_CRTMQM")) (end_mq_trace crtmqm ∷ [])
    ++ only_if (is_switched_on env (codes "MQ_ENABLE_TRACE_STRMQM")) (start_mq_trace strmqm ∷ [])

abbrev succeeds : (Operation → Bool) → Operation → Bool
succeeds fails op = not (fails op)

volumes_needed :
    (s : Setting)
    → all (λ op. not (stops s.fails op)) (prepare_volumes s) ≡ true
    → all (succeeds s.fails) (needed_volumes s) ≡ true
unfolding prepare_volumes
volumes_needed s a = ground arith

all-append {ℓ} :
    {A : Type ℓ} (p : A → Bool) (xs ys : List A) → all p (xs ++ ys) ≡ (all p xs && all p ys)
all-append p [] ys = refl
all-append p (x ∷ xs) ys = ground (arith, all-append p xs ys)

module _ (fails : Operation → Bool) (new_qm web ha log simple_auth crt str : Bool) where
  -- the two parts of the operations for the queue manager, with the tests as they turn out
  abbrev creating : List Operation
  creating =
      process_fips_type
        ∷ configure_default_tls_keystores
        ∷ configure_tls
        ∷ only_if web (mirror_web_server_logs ∷ [])
      ++ post_init ∷ only_if ha (configure_native_ha ∷ [])
      ++ fips_post_init ∷ only_if crt (start_mq_trace crtmqm ∷ [])
      ++ create_queue_manager ∷ []

  abbrev starting : List Operation
  starting =
      only_if crt (end_mq_trace crtmqm ∷ [])
      ++ only_if log (mirror_system_error_logs ∷ mirror_queue_manager_error_logs new_qm ∷ [])
      ++ only_if simple_auth (mirror_mq_simple_auth_logs new_qm ∷ [])
      ++ update_command_level ∷ only_if str (start_mq_trace strmqm ∷ [])
      ++ only_if simple_auth (update_qm_ini ∷ [])
      ++ start_queue_manager ∷ []

  all-parts :
      (p : Operation → Bool)
      → all p (
          (process_fips_type
              ∷ configure_default_tls_keystores
              ∷ configure_tls
              ∷ only_if web (mirror_web_server_logs ∷ [])
            ++ post_init ∷ only_if ha (configure_native_ha ∷ [])
            ++ fips_post_init ∷ only_if crt (start_mq_trace crtmqm ∷ [])
            ++ create_queue_manager ∷ only_if crt (end_mq_trace crtmqm ∷ [])
            ++ only_if log (mirror_system_error_logs ∷ mirror_queue_manager_error_logs new_qm ∷ [])
            ++ only_if simple_auth (mirror_mq_simple_auth_logs new_qm ∷ [])
            ++ update_command_level ∷ only_if str (start_mq_trace strmqm ∷ [])
            ++ only_if simple_auth (update_qm_ini ∷ []))
          ++ start_queue_manager ∷ [])
        ≡ (all p creating && all p starting)
  all-parts p = simp (all-append p) (ground arith)

  creating_needed :
      all (λ op. not (stops fails op)) creating ≡ true
      → all (succeeds fails) (
          configure_default_tls_keystores
            ∷ configure_tls
            ∷ post_init
            ∷ create_queue_manager
            ∷ only_if ha (configure_native_ha ∷ [])
          ++ only_if web (mirror_web_server_logs ∷ [])
          ++ only_if crt (start_mq_trace crtmqm ∷ []))
        ≡ true
  creating_needed a = ground arith

  starting_needed :
      all (λ op. not (stops fails op)) starting ≡ true
      → all (succeeds fails) (
          update_command_level
            ∷ start_queue_manager
            ∷ only_if log (mirror_system_error_logs ∷ mirror_queue_manager_error_logs new_qm ∷ [])
          ++ only_if simple_auth (mirror_mq_simple_auth_logs new_qm ∷ update_qm_ini ∷ [])
          ++ only_if crt (end_mq_trace crtmqm ∷ [])
          ++ only_if str (start_mq_trace strmqm ∷ []))
        ≡ true
  starting_needed a = ground arith

all-join {ℓ} :
    {A : Type ℓ} (p : A → Bool) (xs ys : List A)
    → all p xs ≡ true
    → all p ys ≡ true
    → all p (xs ++ ys) ≡ true
all-join p xs ys h k = all-append p xs ys ∙ ap (λ b. b && all p ys) h ∙ k

and-parts : (a b : Bool) → (a && b) ≡ true → (a ≡ true) × (b ≡ true)
and-parts true b h = (refl, h)
and-parts false b h = cc

manager_needed :
    (s : Setting)
    → all (λ op. not (stops s.fails op)) (prepare_queue_manager s ++ start_queue_manager ∷ [])
      ≡ true
    → (all (succeeds s.fails) (needed_creation s) ≡ true)
      × (all (succeeds s.fails) (needed_start s) ≡ true)
unfolding prepare_queue_manager
manager_needed s a =
    let env = s.env in
    let web = check_log_source_for_mirroring env (codes "web") in
    let ha = is_true env (codes "MQ_NATIVE_HA") in
    let log = check_log_source_for_mirroring env (codes "qmgr") in
    let simple_auth = s.dev_flag && simple_auth_enabled env in
    let crt = is_switched_on env (codes "MQ_ENABLE_TRACE_CRTMQM") in
    let str = is_switched_on env (codes "MQ_ENABLE_TRACE_STRMQM") in
    let c = creating s.fails s.new_qm web ha log simple_auth crt str in
    let t = starting s.fails s.new_qm web ha log simple_auth crt str in
    let p : Operation → Bool = λ op. not (stops s.fails op) in
    let both = sym (all-parts s.fails s.new_qm web ha log simple_auth crt str p) ∙ a in
    let (x, y) = and-parts (all p c) (all p t) both in
    (
      creating_needed s.fails s.new_qm web ha log simple_auth crt str x,
      starting_needed s.fails s.new_qm web ha log simple_auth crt str y,
    )

all_stop_free :
    (fails : Operation → Bool) (ops : List Operation)
    → All (λ op. stops fails op ≡ false) ops
    → all (λ op. not (stops fails op)) ops ≡ true
all_stop_free fails [] a = refl
all_stop_free fails (op ∷ ops) (e, a) = rw (e, all_stop_free fails ops a) refl

succeeds-All :
    (fails : Operation → Bool) (ops : List Operation)
    → all (succeeds fails) ops ≡ true
    → All (λ op. fails op ≡ false) ops
succeeds-All fails [] h = tt
succeeds-All fails (op ∷ ops) h = (ground arith, succeeds-All fails ops (ground arith))

all_needed :
    (s : Setting)
    → all (λ op. not (stops s.fails op)) (to_start s) ≡ true
    → all (succeeds s.fails) (needed_volumes s ++ needed_creation s ++ needed_start s) ≡ true
all_needed s a =
    let p : Operation → Bool = λ op. not (stops s.fails op) in
    let manager = prepare_queue_manager s ++ start_queue_manager ∷ [] in
    let both : (all p (prepare_volumes s) && all p manager) ≡ true =
      sym (all-append p (prepare_volumes s) manager) ∙ a in
    let (x, y) = and-parts (all p (prepare_volumes s)) (all p manager) both in
    let v = volumes_needed s x in
    let (c, t) = manager_needed s y in
    all-join (succeeds s.fails) (needed_volumes s ++ needed_creation s) (needed_start s)
      (all-join (succeeds s.fails) (needed_volumes s) (needed_creation s) v c) t

-- The signal for chkmqready is set only after each operation up to the start of the queue manager
-- succeeded, and that one too: on the volumes all but the start of the signal handler and the cleaning of
-- the scratch volume, and then all but the two that decide on FIPS cryptography and report it, those
-- included that the environment and the flags ask for.
pub set_ready_lem :
    (s : Setting)
    → any is_set_ready (do_main s).0 ≡ true
    → All (λ op. s.fails op ≡ false) (needed_volumes s ++ needed_creation s ++ needed_start s)
set_ready_lem s e =
    let none_stopped = all_stop_free s.fails (to_start s) (
      ready_run s (
        ready_licensed (check_license s.env s.licenses) (run s.fails (sequence s))
          (ready_gated s e))) in
    succeeds-All s.fails (needed_volumes s ++ needed_creation s ++ needed_start s)
      (all_needed s none_stopped)
