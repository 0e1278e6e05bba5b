-- ===== src/Qmgr/Commands.antt =====
-- Which commands are run to create and to start the queue manager, and when that succeeds.
use mathlib.Core.Option.{some-injective, none-ne-some}
use mq_container.Base.{
  subst, ◌≡◌, ◌≢◌, refl, sym, Bool, true, false, List, [], ◌∷◌, ◌++◌, Option, none, some, Text,
  codes, arith, ◌↔◌, ◌⊎◌, if◌then◌else◌, Bool-cases, inl, inr, Option-cases,
}
use mq_container.QmName.{replace_chars_in_qm_name}
use mq_container.Ready.{ok, failed}
use mq_container.Qmgr.{
  Command, Shell, has_rc, Container, get_queue_manager_data_dir, get_create_queue_manager_args,
  get_create_standby_queue_manager_args, new_queue_manager, create_with_mounts, create_after_mounts,
  create_queue_manager, existing_queue_manager, start_queue_manager,
}

abbrev pub dspmqinf : Text → Command
dspmqinf name = codes "dspmqinf" ∷ name ∷ []

-- The command that creates a queue manager, or makes one known that another container created.
abbrev pub creating : Container → (Text → Bool) → Text → Bool → Command
creating c mounts name dev_mode =
    if c.exists
      (get_queue_manager_data_dir mounts (replace_chars_in_qm_name name) ++ codes "/qm.ini")
    then codes "addmqinf" ∷ get_create_standby_queue_manager_args name
    else codes "crtmqm" ∷ get_create_queue_manager_args c mounts name dev_mode

existing-ne-created :
    (c : Container) (data_dir : Text) → existing_queue_manager c data_dir ≢ ok true
unfolding existing_queue_manager
existing-ne-created c data_dir h = elim (Option-cases (c.read_file (data_dir ++ codes "/qm.ini"))) [
  | inl e ↦ ground arith
  | inr (t, e) ↦ ground arith
]

created_with_mounts :
    (sh : Shell) (done : List Command) (c : Container) (mounts : Text → Bool) (name : Text)
    (dev_mode : Bool)
    → ((create_with_mounts sh done c mounts name dev_mode).1 ≡ ok true) ↔ (
        ((sh done (dspmqinf name)).is_error ≡ true)
        × ((sh (done ++ dspmqinf name ∷ []) (creating c mounts name dev_mode)).is_error ≡ false))
unfolding create_with_mounts new_queue_manager
created_with_mounts sh done c mounts name dev_mode =
    elim (Bool-cases (sh done (dspmqinf name)).is_error) [
      | inl e ↦ rw e (λ h. (refl, ground arith), λ h. ground arith)
      | inr e ↦
          let never =
            existing-ne-created c
              (get_queue_manager_data_dir mounts (replace_chars_in_qm_name name)) in
          rw e (λ h. elim (never h) [ ], λ h. cc)
    ]

created :
    (sh : Shell) (done : List Command) (c : Container) (found : Option (Text → Bool)) (name : Text)
    (dev_mode : Bool)
    → ((create_after_mounts sh done c found name dev_mode).1 ≡ ok true) ↔ (
        (mounts : Text → Bool) × (found ≡ some mounts)
        × ((sh done (dspmqinf name)).is_error ≡ true)
        × ((sh (done ++ dspmqinf name ∷ []) (creating c mounts name dev_mode)).is_error ≡ false))
unfolding create_after_mounts
created sh done c none name dev_mode = (λ h. cc, λ h. elim (none-ne-some h.0 h.1) [ ])
created sh done c (some mounts) name dev_mode =
    let known = created_with_mounts sh done c mounts name dev_mode in
    (
      λ h. let both = known.0 h in (mounts, refl, both.0, both.1),
      λ h. known.1 (
        h.2,
        subst (λ m. (sh (done ++ dspmqinf name ∷ []) (creating c m name dev_mode)).is_error ≡ false)
            (sym (some-injective mounts h.0 h.1)) h.3,
      ),
    )

-- createQueueManager says that it created a queue manager exactly when the mounts are found, there
-- was none, and the command that creates it succeeded.
pub create_queue_manager_lem :
    (sh : Shell) (done : List Command) (c : Container) (name : Text) (dev_mode : Bool)
    → ((create_queue_manager sh done c name dev_mode).1 ≡ ok true) ↔ (
        (mounts : Text → Bool) × (c.mounts ≡ some mounts)
        × ((sh done (dspmqinf name)).is_error ≡ true)
        × ((sh (done ++ dspmqinf name ∷ []) (creating c mounts name dev_mode)).is_error ≡ false))
unfolding create_queue_manager
create_queue_manager_lem sh done c name dev_mode = created sh done c c.mounts name dev_mode

-- A command that creates the queue manager, or makes it known.
abbrev pub IsCreation : Text → Command → Type 0
IsCreation name command =
    ((args : List Text) × (command ≡ codes "crtmqm" ∷ args ++ name ∷ []))
    ⊎ (command ≡ codes "addmqinf" ∷ get_create_standby_queue_manager_args name)

-- Once such a command succeeded, `dspmqinf` finds the queue manager.
abbrev pub Remembers : Shell → Text → Type 0
Remembers sh name =
    (done between : List Command) (command : Command)
    → IsCreation name command
    → (sh done command).is_error ≡ false
    → (sh (done ++ command ∷ between) (dspmqinf name)).is_error ≡ false

-- startQueueManager runs one command, and fails exactly when this fails with another exit code than
-- those of a standby queue manager and of a replica.
pub start_queue_manager_lem :
    (sh : Shell) (done : List Command) (name : Text)
    → ((start_queue_manager sh done name).1 ≡ failed) ↔ (
        ((sh done (codes "strmqm" ∷ codes "-x" ∷ name ∷ [])).is_error ≡ true)
        × (has_rc 30 (sh done (codes "strmqm" ∷ codes "-x" ∷ name ∷ [])).rc ≡ false)
        × (has_rc 94 (sh done (codes "strmqm" ∷ codes "-x" ∷ name ∷ [])).rc ≡ false))
unfolding start_queue_manager
start_queue_manager_lem sh done name = (λ h. ground arith, λ h. ground arith)
