-- ===== src/Console/Adhoc/Requests.antt =====
-- The requests of the dialog of frontend/src/components/adhoc-run-dialog.tsx.
use codex_queue_bot.Base.{
  ℕ, ◌≡◌, refl, ◌↔◌, ◌⊎◌, inl, inr, ◌≤◌, Bool, true, false, ◌||◌, [], ◌∷◌, Option, none, some, Text,
  arith, ◌==◌, any, All, List, length, Bool-cases,
}
use codex_queue_bot.Console.Api.{Settled, returned, failed}
use codex_queue_bot.Console.Api.Types.{AdhocRunResult}
use codex_queue_bot.Console.Adhoc.{
  Dialog, initial, run, Event, opened, prompt_typed, submitted, abort_clicked, closed,
  request_settled, step, has, open_for, reset, abort_current, close, typed, blank, submit_event,
  settled, show, forget,
}

-- A call of `fetch` that was aborted fails at once: nothing else happens before it settles.
abbrev pub IsTimely : Event → Dialog → Type 0
IsTimely (request_settled one outcome) dialog = Unit {0}
IsTimely _ dialog = any (λ one. has one dialog.aborted_ones) dialog.pending ≡ false

abbrev pub AllTimely : List Event → Dialog → Type 0
AllTimely [] dialog = Unit
AllTimely (event ∷ events) dialog = IsTimely event dialog × AllTimely events (step event dialog)

abbrev IsCalm : Dialog → Type 0
IsCalm dialog = (dialog.pending ≡ []) × (dialog.busy ≡ false) × (dialog.controller ≡ none)

abbrev IsWaiting : Dialog → ℕ → Type 0
IsWaiting dialog one =
    (dialog.pending ≡ one ∷ [])
    × (dialog.busy ≡ true)
    × (dialog.controller ≡ some one)
    × ((dialog.open_now ≡ true) ⊎ (has one dialog.aborted_ones ≡ true))

record Inv (dialog : Dialog) : Type 0 where
  shown : (dialog.target ≡ none) ⊎ (dialog.open_now ≡ true)
  requests : IsCalm dialog ⊎ ((one : ℕ) × IsWaiting dialog one)

waiting-Inv :
    (dialog : Dialog) (one : ℕ)
    → (dialog.target ≡ none) ⊎ (dialog.open_now ≡ true)
    → IsWaiting dialog one
    → Inv dialog
waiting-Inv dialog one h w = record { shown = h; requests = inr (one, w) }

calm-Inv :
    (dialog : Dialog)
    → (dialog.target ≡ none) ⊎ (dialog.open_now ≡ true)
    → IsCalm dialog
    → Inv dialog
calm-Inv dialog h c = record { shown = h; requests = inl c }

opened-Inv :
    (target : ℕ) (dialog : Dialog)
    → IsTimely (opened target) dialog
    → Inv dialog
    → Inv (step (opened target) dialog)
unfolding step has open_for reset abort_current
opened-Inv target dialog timely v = elim v.requests [
  | inl calm ↦ calm-Inv _ (ground (arith, v.shown)) (ground (arith, calm, v.shown))
  | inr (one, waiting) ↦
      waiting-Inv _ one (ground (arith, v.shown, waiting, timely)) (ground (arith, waiting, timely))
]

typed-Inv : (text : Text) (dialog : Dialog) → Inv dialog → Inv (step (prompt_typed text) dialog)
unfolding step typed has
typed-Inv text dialog v = elim v.requests [
  | inl calm ↦ calm-Inv _ (ground (arith, v.shown)) (ground (arith, calm))
  | inr (one, waiting) ↦ waiting-Inv _ one (ground (arith, v.shown)) (ground (arith, waiting))
]

submit_event-Inv :
    (target : Option ℕ) (dialog : Dialog)
    → dialog.target ≡ target
    → Inv dialog
    → Inv (submit_event target dialog)
unfolding submit_event
submit_event-Inv none dialog at v = v
submit_event-Inv (some target) dialog at v =
    elim (Bool-cases (dialog.busy || blank dialog.prompt)) [
      | inl held ↦ rw held v
      | inr clear ↦ rw clear (elim v.requests [
        | inl calm ↦ elim (Bool-cases (blank dialog.prompt)) [
          | inl empty ↦ rw empty (calm-Inv _ v.shown calm)
          | inr filled ↦ rw filled (
              waiting-Inv _ dialog.controllers (ground (arith, v.shown))
                (ground (arith, calm, v.shown, at)))
        ]
        | inr (one, waiting) ↦
            absurd (busy_is_held dialog.busy (blank dialog.prompt) waiting.1 clear)
      ])
    ]
  where
    busy_is_held : (busy empty : Bool) → busy ≡ true → (busy || empty) ≡ false → ⊥
    busy_is_held busy empty h k = ground arith

abort-Inv : (dialog : Dialog) → Inv dialog → Inv (step abort_clicked dialog)
unfolding step abort_current has
abort-Inv dialog v = elim v.requests [
  | inl calm ↦ calm-Inv _ (ground (arith, v.shown)) (ground (arith, calm))
  | inr (one, waiting) ↦ waiting-Inv _ one (ground (arith, v.shown)) (ground (arith, waiting))
]

closed-Inv : (dialog : Dialog) → Inv dialog → Inv (step closed dialog)
unfolding step close abort_current has
closed-Inv dialog v = elim v.requests [
  | inl calm ↦ calm-Inv _ (ground (arith, v.shown)) (ground (arith, calm))
  | inr (one, waiting) ↦ waiting-Inv _ one (ground (arith, v.shown)) (ground (arith, waiting))
]

settled-Inv :
    (one : ℕ) (outcome : Settled AdhocRunResult) (dialog : Dialog)
    → Inv dialog
    → Inv (step (request_settled one outcome) dialog)
unfolding step settled show forget has
settled-Inv one (returned result) dialog v = elim v.requests [
  | inl calm ↦ calm-Inv _ (ground (arith, v.shown, calm)) (ground (arith, calm))
  | inr (other, waiting) ↦ elim (Bool-cases (other == one)) [
    | inl same ↦ calm-Inv _ (ground (arith, v.shown, waiting)) (ground (arith, waiting, same))
    | inr differs ↦
        waiting-Inv _ other (ground (arith, v.shown, waiting)) (ground (arith, waiting, differs))
  ]
]
settled-Inv one (failed failure) dialog v = elim v.requests [
  | inl calm ↦ calm-Inv _ (ground (arith, v.shown, calm)) (ground (arith, calm))
  | inr (other, waiting) ↦ elim (Bool-cases (other == one)) [
    | inl same ↦ calm-Inv _ (ground (arith, v.shown, waiting)) (ground (arith, waiting, same))
    | inr differs ↦
        waiting-Inv _ other (ground (arith, v.shown, waiting)) (ground (arith, waiting, differs))
  ]
]

step-Inv :
    (event : Event) (dialog : Dialog) → IsTimely event dialog → Inv dialog → Inv (step event dialog)
unfolding step
step-Inv (opened target) dialog h v = opened-Inv target dialog h v
step-Inv (prompt_typed text) dialog h v = typed-Inv text dialog v
step-Inv submitted dialog h v = submit_event-Inv dialog.target dialog refl v
step-Inv abort_clicked dialog h v = abort-Inv dialog v
step-Inv closed dialog h v = closed-Inv dialog v
step-Inv (request_settled one outcome) dialog h v = settled-Inv one outcome dialog v

run-Inv :
    (events : List Event) (dialog : Dialog)
    → AllTimely events dialog
    → Inv dialog
    → Inv (run events dialog)
unfolding run
run-Inv [] dialog h v = v
run-Inv (event ∷ events) dialog h v =
    run-Inv events (step event dialog) h.1 (step-Inv event dialog h.0 v)

initial-Inv : Inv initial
unfolding initial
initial-Inv = record { shown = inl refl; requests = inl (refl, refl, refl) }

-- The request is that of the controller at hand, and aborted where the dialog is closed.
abbrev pub IsControlled : Dialog → ℕ → Type 0
IsControlled dialog one =
    (dialog.controller ≡ some one)
    × ((dialog.open_now ≡ true) ⊎ (has one dialog.aborted_ones ≡ true))

-- After any events in which an aborted call fails before anything else happens: at most one request
-- is under way, the dialog is busy exactly while one is, it is the request of the controller at
-- hand, so that the abort button reaches it, and with the dialog closed it has been aborted.
pub requests-IsControlled :
    (events : List Event)
    → AllTimely events initial
    → (length (run events initial).pending ≤ 1)
      × (((run events initial).busy ≡ true) ↔ (length (run events initial).pending ≡ 1))
      × All (IsControlled (run events initial)) (run events initial).pending
requests-IsControlled events timely =
    controlled (run events initial) (run-Inv events initial timely initial-Inv)
  where
    controlled :
        (dialog : Dialog)
        → Inv dialog
        → (length dialog.pending ≤ 1)
          × ((dialog.busy ≡ true) ↔ (length dialog.pending ≡ 1))
          × All (IsControlled dialog) dialog.pending
    controlled dialog v = elim v.requests [
      | inl calm ↦ (ground (arith, calm), ground (arith, calm), rw calm.0 tt)
      | inr (other, waiting) ↦ (
        ground (arith, waiting),
        ground (arith, waiting),
        rw waiting.0 ((waiting.2, waiting.3), tt),
      )
    ]
