-- ===== src/Qmgr/Arguments.antt =====
-- What becomes of the environment's numbers in the commands' arguments.
use mq_container.Base.{
  ℕ, ◌≤◌, ◌≡◌, ◌≢◌, ◌⊎◌, refl, Bool, false, List, [], ◌∷◌, ◌++◌, append_assoc, none, Text, codes,
  eq_text, Env, getenv, inl, inr,
}
use mq_container.Base.Decimal.{max_int, atoi, itoa}
use mq_container.Base.Decimal.RoundTrip.{itoa-ne-nil, atoi-itoa}
use mq_container.Ready.{ok, QmStatus, status}
use mq_container.Qmgr.{
  Command, Shell, Container, first_args, page_args, get_create_queue_manager_args, end_args,
  grace_period, itoa_int, output, stop_queue_manager,
}

ne_nil : (t : Text) → t ≢ [] → eq_text t [] ≡ false
unfolding eq_text
ne_nil [] h = elim (h refl) [ ]
ne_nil (c ∷ t) h = refl

number_args : (n : ℕ) → n ≤ max_int → page_args (itoa n) ≡ codes "-lf" ∷ itoa n ∷ []
unfolding page_args
number_args n le = rw (ne_nil (itoa n) (itoa-ne-nil n), atoi-itoa n le) refl

period_text :
    (t : Text) (n : ℕ)
    → n ≤ max_int
    → (t ≡ itoa n) ⊎ ((atoi t ≡ none) × (n ≡ 30))
    → itoa_int (grace_period (atoi t)) ≡ itoa n
unfolding itoa_int
period_text t n le (inl e) = rw (e, atoi-itoa n le) refl
period_text t n le (inr (e, th)) = rw (e, th) refl

-- A number of log file pages is passed on to `crtmqm`, right before the queue manager's name, which is
-- the last argument.
pub pages_passed_on :
    (c : Container) (mounts : Text → Bool) (name : Text) (dev_mode : Bool) (n : ℕ)
    → n ≤ max_int
    → getenv c.env (codes "MQ_QMGR_LOG_FILE_PAGES") ≡ itoa n
    → (first : List Text) × (get_create_queue_manager_args c mounts name dev_mode
        ≡ first ++ codes "-lf" ∷ itoa n ∷ name ∷ [])
unfolding get_create_queue_manager_args
pages_passed_on c mounts name dev_mode n le e = (
  first_args c mounts dev_mode,
  rw (e, number_args n le)
      (append_assoc (first_args c mounts dev_mode) (codes "-lf" ∷ itoa n ∷ []) (name ∷ [])),
)

-- Outside a multi instance set up, stopQueueManager asks for the status, and if that succeeds ends the
-- queue manager with the grace period that is set; without a number there it is 30 seconds.
pub grace_period_passed_on :
    (sh : Shell) (done : List Command) (env : Env) (name : Text) (st : QmStatus) (n : ℕ)
    → n ≤ max_int
    → eq_text (getenv env (codes "MQ_MULTI_INSTANCE")) (codes "true") ≡ false
    → status (output (sh done (codes "dspmq" ∷ codes "-n" ∷ codes "-m" ∷ name ∷ []))) ≡ ok st
    → (getenv env (codes "MQ_GRACE_PERIOD") ≡ itoa n)
      ⊎ ((atoi (getenv env (codes "MQ_GRACE_PERIOD")) ≡ none) × (n ≡ 30))
    → (stop_queue_manager sh done env name).0
      ≡ done
        ++ (codes "dspmq" ∷ codes "-n" ∷ codes "-m" ∷ name ∷ [])
          ∷ (codes "endmqm" ∷ codes "-w" ∷ codes "-r" ∷ codes "-tp" ∷ itoa n ∷ name ∷ [])
          ∷ []
unfolding stop_queue_manager end_args itoa_int
grace_period_passed_on sh done env name st n le m s e =
    rw
      (
        stop_queue_manager,
        s,
        end_args,
        m,
        period_text (getenv env (codes "MQ_GRACE_PERIOD")) n le e,
      )
      (append_assoc done _ _)
