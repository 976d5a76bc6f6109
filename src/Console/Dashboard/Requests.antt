-- ===== src/Console/Dashboard/Requests.antt =====
-- frontend/src/App.tsx, `DashboardPage`: what its handlers send, against what the page shows at the time.
use codex_queue_bot.Base.{
  ℕ, ◌≡◌, refl, ◌⊎◌, inl, inr, true, false, not, ◌&&◌, List, [], ◌∷◌, Text, codes, includes, arith,
  is_empty, get_elem?, All, Bool-cases, Option-cases,
}
use codex_queue_bot.Base.Sets.{distinct}
use codex_queue_bot.Console.Api.{Settled, returned, failed, message_of}
use codex_queue_bot.Console.Api.Types.{Target, Dashboard}
use codex_queue_bot.Console.Labels.{
  RowButton, start_queue, start_keepalive, open_adhoc, stop_task, row_disabled,
}
use codex_queue_bot.Console.Dashboard.{
  ToolbarButton, start_selected, keep_selected_alive, stop_selected, stop_all, stop_all_confirmed,
  stop_confirmed, row_event, toggle_event, set_confirm_stop, action_began, not_logged_in,
  DashboardPage, Event, load_settled, stream, row, toolbar, act_settled, act_reloaded, toggled,
  all_toggled, adhoc_changed, confirm_changed, snapshot, state, auth_expired, stream_error,
  unmounted, initial, listed, targets, step, run, set_dashboard, loaded, toggle, select_all,
  row_clicked, toolbar_clicked, toolbar_disabled,
}
use codex_queue_bot.Console.Dashboard.Selection.{
  Arrives, Inv, step-Inv, initial-Inv, listed-get_elem?,
}

-- What the page may send while it shows these targets: one of three actions, on some of the targets
-- and on none twice, or a stop that names none.
pub record Sendable (shown : List Target) (request : Text × List Text) : Type 0 where
  pub command :
      ((request.0 ≡ codes "queue.start") × (is_empty request.1 ≡ false))
      ⊎ (((request.0 ≡ codes "keepalive.start") × (is_empty request.1 ≡ false))
          ⊎ (request.0 ≡ codes "task.stop"))
  pub chosen : All (λ name. listed shown name ≡ true) request.1
  pub once : distinct request.1 ≡ true

-- The lists of targets that an event brings are such.
abbrev pub Brings : (List Target → Type 0) → Event → Type 0
Brings P (load_settled (returned next)) = P next.targets
Brings P (stream (snapshot next)) = P next.targets
Brings P (stream (state next)) = P next.targets
Brings P (act_reloaded (returned next)) = P next.targets
Brings P _ = Unit {0}

-- `P` holds of every list of targets that is shown, and so `Q` of every request that may be sent.
module _ (P : List Target → Type 0) (Q : Text × List Text → Type 0)
    (granting : (shown : List Target) (request : Text × List Text)
      → P shown
      → Sendable shown request
      → Q request) where
  abbrev Good : DashboardPage → Type 0
  Good page = P (targets page) × All Q page.sent

  loaded-Good :
      (outcome : Settled Dashboard) (page : DashboardPage)
      → Brings P (load_settled outcome)
      → Good page
      → Good (loaded outcome page)
  unfolding loaded targets set_dashboard
  loaded-Good (returned next) page h g = (h, g.1)
  loaded-Good (failed failure) page h g =
      elim (Bool-cases (includes not_logged_in (message_of failure []))) [
        | inl expired ↦ rw expired g
        | inr other ↦ rw other g
      ]

  action_began-Good :
      (name : Text) (chosen : List Text) (page : DashboardPage)
      → Sendable (targets page) (name, chosen)
      → Good page
      → Good (action_began name chosen page)
  unfolding action_began targets
  action_began-Good name chosen page sendable g =
      (g.0, (granting (targets page) (name, chosen) g.0 sendable, g.1))

  row_clicked-Good :
      (button : RowButton) (target : Target) (page : DashboardPage)
      → listed (targets page) target.name ≡ true
      → Good page
      → Good (row_clicked button target page)
  unfolding row_clicked targets
  row_clicked-Good start_queue target page h g =
      action_began-Good _ _ page
        (record { command = inl (refl, refl); chosen = (h, tt); once = refl }) g
  row_clicked-Good start_keepalive target page h g =
      action_began-Good _ _ page
        (record { command = inr (inl (refl, refl)); chosen = (h, tt); once = refl }) g
  row_clicked-Good open_adhoc target page h g = g
  row_clicked-Good stop_task target page h g =
      action_began-Good _ _ page
        (record { command = inr (inr refl); chosen = (h, tt); once = refl }) g

  row_event-Good :
      (button : RowButton) (index : ℕ) (page : DashboardPage)
      → Good page
      → Good (row_event button (get_elem? (targets page) index) page)
  unfolding row_event
  row_event-Good button index page g = elim (Option-cases (get_elem? (targets page) index)) [
    | inl missing ↦ rw missing g
    | inr (target, at) ↦ rw at (elim (Bool-cases (row_disabled target button)) [
      | inl disabled ↦ rw disabled g
      | inr enabled ↦
          rw enabled (row_clicked-Good button target page (listed-get_elem? _ index target at) g)
    ])
  ]

  selected-Good :
      (name : Text) (page : DashboardPage)
      → ((name ≡ codes "queue.start") × (is_empty page.selected ≡ false))
        ⊎ (((name ≡ codes "keepalive.start") × (is_empty page.selected ≡ false))
            ⊎ (name ≡ codes "task.stop"))
      → Inv page
      → Good page
      → Good (action_began name page.selected page)
  selected-Good name page command v =
      action_began-Good name page.selected page
        (record { command = command; chosen = v.chosen; once = v.once })

  toolbar_clicked-Good :
      (button : ToolbarButton) (page : DashboardPage)
      → toolbar_disabled button page ≡ false
      → Inv page
      → Good page
      → Good (toolbar_clicked button page)
  unfolding toolbar_clicked toolbar_disabled set_confirm_stop targets
  toolbar_clicked-Good stop_all page h v g = g
  toolbar_clicked-Good start_selected page h v g =
      selected-Good _ page (inl (refl, ground arith)) v g
  toolbar_clicked-Good keep_selected_alive page h v g =
      selected-Good _ page (inr (inl (refl, ground arith))) v g
  toolbar_clicked-Good stop_selected page h v g = selected-Good _ page (inr (inr refl)) v g

  stop_confirmed-Good : (page : DashboardPage) → Good page → Good (stop_confirmed page)
  unfolding stop_confirmed set_confirm_stop targets
  stop_confirmed-Good page g =
      elim (Bool-cases (page.confirm_stop && not (is_empty (targets page)))) [
        | inl asked ↦ rw asked (
            action_began-Good (codes "task.stop") [] page
              (record { command = inr (inr refl); chosen = tt; once = refl }) g)
        | inr stale ↦ rw stale g
      ]

  step-Good :
      (event : Event) (page : DashboardPage)
      → Brings P event
      → Inv page
      → Good page
      → Good (step event page)
  unfolding step set_dashboard targets toggle_event toggle select_all
  step-Good (load_settled outcome) page h v g = loaded-Good outcome page h g
  step-Good (stream (snapshot next)) page h v g = (h, g.1)
  step-Good (stream (state next)) page h v g = (h, g.1)
  step-Good (stream auth_expired) page h v g = g
  step-Good (stream stream_error) page h v g = g
  step-Good (stream unmounted) page h v g = g
  step-Good (row button index) page h v g = row_event-Good button index page g
  step-Good stop_all_confirmed page h v g = stop_confirmed-Good page g
  step-Good (toolbar button) page h v g = elim (Bool-cases (toolbar_disabled button page)) [
    | inl disabled ↦ rw disabled g
    | inr enabled ↦ rw enabled (toolbar_clicked-Good button page enabled v g)
  ]
  step-Good (act_settled (returned result)) page h v g = g
  step-Good (act_settled (failed failure)) page h v g = g
  step-Good (act_reloaded outcome) page h v g = loaded-Good outcome page h g
  step-Good (toggled index) page h v g = elim (Option-cases (get_elem? (targets page) index)) [
    | inl missing ↦ rw missing g
    | inr (target, at) ↦ rw at g
  ]
  step-Good all_toggled page h v g = g
  step-Good (adhoc_changed true) page h v g = g
  step-Good (adhoc_changed false) page h v g = g
  step-Good (confirm_changed shown) page h v g = g

  run-Good :
      (events : List Event) (page : DashboardPage)
      → All Arrives events
      → All (Brings P) events
      → Inv page
      → Good page
      → All Q (run events page).sent
  unfolding run
  run-Good [] page a b v g = g.1
  run-Good (event ∷ events) page a b v g =
      run-Good events (step event page) a.1 b.1 (step-Inv event page a.0 v)
        (step-Good event page b.0 v g)

  pub sent-Good :
      (events : List Event)
      → P []
      → All Arrives events
      → All (Brings P) events
      → All Q (run events initial).sent
  unfolding initial targets
  sent-Good events p a b = run-Good events initial a b initial-Inv (p, tt)
