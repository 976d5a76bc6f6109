-- ===== src/Web/ManualRuns/Outcomes.antt =====
-- internal/web/server.go, `runAdhoc`: its answers, and the runs that it starts, as steps of the manager.
use codex_queue_bot.Base.{
  ℕ, suc, ◌≡◌, ◌≢◌, refl, ◌⊎◌, inl, inr, Bool, true, false, ◌||◌, Option, none, some, Text, text_eq,
  text_eq_iff, arith, is_empty, Bool-cases, Option-cases,
}
use codex_queue_bot.Base.Trim.{trim}
use codex_queue_bot.Jobs.Names.{go_space}
use codex_queue_bot.Jobs.State.{adhoc, Entry, target_busy}
use codex_queue_bot.Jobs.Adhoc.{reserve}
use codex_queue_bot.Jobs.Manager.{Manager, commit}
use codex_queue_bot.Jobs.Manager.Targets.{
  reserve_adhoc, key_by_id, Error, target_busy_error, target_not_found, shutting_down, ok, err,
}
use codex_queue_bot.Jobs.Worker.{adhoc_seek_slot}
use codex_queue_bot.Jobs.System.{System, Step, spawn, starting_adhoc}
use codex_queue_bot.Console.Api.Routes.{TargetRef, no_target, bad_target, target}
use codex_queue_bot.Web.ManualRuns.{
  Reply, replied, running, error_status, begin_run, run_adhoc, too_long,
}

abbrev pub IsPrompt : Text → Type 0
IsPrompt prompt = (is_empty prompt ≡ false) × (too_long prompt ≡ false)

-- Why a request is turned away, by its status.
pub data Refusal (supported : Bool) (ref : TargetRef) (body : Option Text) (m : Manager)
    : ℕ → Type 0 where
  no_id : ((id : ℕ) → ref ≢ target id) → Refusal supported ref body m 400
  unreadable : body ≡ none → Refusal supported ref body m 400
  bad_prompt :
      (text : Text)
      → body ≡ some text
      → (is_empty (trim go_space text) ≡ true) ⊎ (too_long (trim go_space text) ≡ true)
      → Refusal supported ref body m 400
  unsupported : supported ≡ false → Refusal supported ref body m 503
  closing : (m.shutting_down || m.root_done) ≡ true → Refusal supported ref body m 503
  unknown :
      (id : ℕ)
      → ref ≡ target id
      → (key_by_id m.entries id m.order ≡ none)
        ⊎ ((key : Text) × ((key_by_id m.entries id m.order ≡ some key) × (m.entries key ≡ none)))
      → Refusal supported ref body m 404
  busy :
      (id : ℕ) (key : Text) (e : Entry)
      → ref ≡ target id
      → key_by_id m.entries id m.order ≡ some key
      → m.entries key ≡ some e
      → target_busy e ≡ true
      → Refusal supported ref body m 409

-- What a run that starts has behind it: the target of the path, which is known and idle, and the
-- prompt of the body. The target is the run's afterwards, under the next number of manual runs.
pub record IsGranted (supported : Bool) (ref : TargetRef) (body : Option Text) (s : System)
    (m : Manager) (key : Text) (run_id : ℕ) (prompt : Text) : Type 0 where
  pub id : ℕ
  pub text : Text
  pub before : Entry
  pub after : Entry
  pub asked : ref ≡ target id
  pub given : body ≡ some text
  pub trimmed : prompt ≡ trim go_space text
  pub fits : IsPrompt prompt
  pub supports : supported ≡ true
  pub open_now : (s.manager.shutting_down || s.manager.root_done) ≡ false
  pub named : key_by_id s.manager.entries id s.manager.order ≡ some key
  pub there : s.manager.entries key ≡ some before
  pub idle : target_busy before ≡ false
  pub numbered : run_id ≡ suc s.manager.next_adhoc_run_id
  pub counted : m.next_adhoc_run_id ≡ run_id
  pub kept : m.entries key ≡ some after
  pub owner : after.arbiter.owner ≡ adhoc
  pub owner_run_id : after.arbiter.owner_run_id ≡ run_id
  pub cancel : after.arbiter.cancel ≡ some s.spawned
  pub others :
      (other : Text) → text_eq key other ≡ false → m.entries other ≡ s.manager.entries other
  pub step : Step s (
      spawn s m
        (record { key = key; kind = adhoc; run_id = run_id; context = s.spawned })
        adhoc_seek_slot)

-- A request is turned away for a reason, and the manager is as it was; or a worker starts on the target.
abbrev pub Outcome : Bool → TargetRef → Option Text → System → Manager × Reply → Type 0
Outcome supported ref body s (m, reply) =
    ((status : ℕ) × ((reply ≡ replied status)
        × ((m ≡ s.manager) × Refusal supported ref body s.manager status)))
    ⊎ ((key : Text) × ((run_id : ℕ) × ((prompt : Text) × ((reply ≡ running key run_id prompt)
              × IsGranted supported ref body s m key run_id prompt))))

module _ (context : ℕ) (key : Text) (e : Entry) (m : Manager) where
  abbrev reserved_run : Manager
  reserved_run =
      commit key (reserve (suc m.next_adhoc_run_id) context e)
        (record m { next_adhoc_run_id = suc m.next_adhoc_run_id })

  reserved_entry :
      reserved_run.entries key ≡ some (reserve (suc m.next_adhoc_run_id) context e).entry
  unfolding commit reserve
  reserved_entry = rw ((text_eq_iff key key).1 refl) refl

  reserved_others :
      (other : Text) → text_eq key other ≡ false → reserved_run.entries other ≡ m.entries other
  unfolding commit reserve
  reserved_others other h = rw h refl

  reserved_count : reserved_run.next_adhoc_run_id ≡ suc m.next_adhoc_run_id
  unfolding commit reserve
  reserved_count = refl

-- The reservation refuses for one of the reasons, or gives out a run.
reserve_adhoc-cases :
    (supported : Bool) (context id : ℕ) (body : Option Text) (m : Manager)
    → ((error : Error) × ((reserve_adhoc context id m ≡ (m, err error))
          × Refusal supported (target id) body m (error_status error)))
      ⊎ ((key : Text) × (e : Entry) × (key_by_id m.entries id m.order ≡ some key)
          × (m.entries key ≡ some e)
          × ((m.shutting_down || m.root_done) ≡ false)
          × (target_busy e ≡ false)
          × (reserve_adhoc context id m
              ≡ (reserved_run context key e m, ok (key, suc m.next_adhoc_run_id))))
unfolding reserve_adhoc
reserve_adhoc-cases supported context id body m =
    elim (Option-cases (key_by_id m.entries id m.order)) [
      | inl missing ↦
          inl (target_not_found, (ground (arith, missing), unknown id refl (inl missing)))
      | inr (key, at) ↦ elim (Option-cases (m.entries key)) [
        | inl gone ↦
            inl (
              target_not_found,
              (ground (arith, at, gone), unknown id refl (inr (key, (at, gone)))),
            )
        | inr (e, there) ↦ elim (Bool-cases (m.shutting_down || m.root_done)) [
          | inl ends ↦ inl (shutting_down, (ground (arith, at, there, ends), closing ends))
          | inr going ↦ elim (Bool-cases (target_busy e)) [
            | inl taken ↦ inl (
              target_busy_error,
              (ground (arith, at, there, going, taken), busy id key e refl at there taken),
            )
            | inr free ↦
                inr (key, e, at, there, going, free, ground (arith, at, there, going, free))
          ]
        ]
      ]
    ]

begin_run_outcome :
    (supported : Bool) (s : System) (id : ℕ) (text : Text)
    → IsPrompt (trim go_space text)
    → Outcome supported
        (target id)
        (some text)
        s
        (begin_run supported s.spawned id (trim go_space text) s.manager)
unfolding begin_run
begin_run_outcome false s id text fits = inl (503, (refl, (refl, unsupported refl)))
begin_run_outcome true s id text fits =
    elim (reserve_adhoc-cases true s.spawned id (some text) s.manager) [
      | inl (error, (is, reason)) ↦ rw is (inl (error_status error, (refl, (refl, reason))))
      | inr (key, e, at, there, going, free, is) ↦ rw is (
          inr (
            key,
            (
              suc s.manager.next_adhoc_run_id,
              (
                trim go_space text,
                (
                  refl,
                  record {
                    id = id;
                    text = text;
                    before = e;
                    after = (reserve (suc s.manager.next_adhoc_run_id) s.spawned e).entry;
                    asked = refl;
                    given = refl;
                    trimmed = refl;
                    fits = fits;
                    supports = refl;
                    open_now = going;
                    named = at;
                    there = there;
                    idle = free;
                    numbered = refl;
                    counted = reserved_count s.spawned key e s.manager;
                    kept = reserved_entry s.spawned key e s.manager;
                    owner = unfold reserve in refl;
                    owner_run_id = unfold reserve in refl;
                    cancel = unfold reserve in refl;
                    others = reserved_others s.spawned key e s.manager;
                    step =
                        starting_adhoc id (reserved_run s.spawned key e s.manager) key
                          (suc s.manager.next_adhoc_run_id) is;
                  },
                ),
              ),
            ),
          ))
    ]

module _ (supported : Bool) (s : System) where
  -- Whatever is asked of `runAdhoc` in whatever state of the manager: either the request is turned away
  -- for the reason that its status tells, and the manager stays as it was; or one step of the system
  -- starts a manual run of the target of the path, which is known and was idle, while no shutdown goes
  -- on, with the text of the body, trimmed, as its prompt, which is not blank and not too long. The
  -- arbiter of that target then belongs to the run, under the next number of manual runs and with the
  -- new worker's context, and the other targets are as they were.
  pub run_adhoc_outcome :
      (ref : TargetRef) (body : Option Text)
      → Outcome supported ref body s (run_adhoc supported s.spawned ref body s.manager)
  unfolding run_adhoc
  run_adhoc_outcome no_target body = inl (400, (refl, (refl, no_id (λ id h. ground (arith, h)))))
  run_adhoc_outcome bad_target body = inl (400, (refl, (refl, no_id (λ id h. ground (arith, h)))))
  run_adhoc_outcome (target id) none = inl (400, (refl, (refl, unreadable refl)))
  run_adhoc_outcome (target id) (some text) = elim (Bool-cases (is_empty (trim go_space text))) [
    | inl blank ↦ rw blank (inl (400, (refl, (refl, bad_prompt text refl (inl blank)))))
    | inr filled ↦ rw filled (elim (Bool-cases (too_long (trim go_space text))) [
      | inl long ↦ rw long (inl (400, (refl, (refl, bad_prompt text refl (inr long)))))
      | inr short ↦ rw short (begin_run_outcome supported s id text (filled, short))
    ])
  ]
