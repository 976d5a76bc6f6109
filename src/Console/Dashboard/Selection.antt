-- ===== src/Console/Dashboard/Selection.antt =====
-- The selection of the dashboard, and what the console asks the server to act on.
use codex_queue_bot.Base.{
  ℕ, ◌≡◌, refl, ◌⊎◌, inl, inr, Bool, true, false, not, ◌&&◌, List, [], ◌∷◌, map, Option, none, some,
  Text, codes, includes, length-map, arith, text_eq, text_eq_iff, any, is_empty, get_elem?, zero,
  suc, All, All-append, Bool-cases, Option-cases,
}
use codex_queue_bot.Console.Api.{Settled, returned, failed, message_of}
use codex_queue_bot.Console.Api.Types.{Target, Dashboard}
use codex_queue_bot.Console.Labels.{
  RowButton, start_queue, start_keepalive, open_adhoc, stop_task, row_disabled,
}
use codex_queue_bot.Console.Dashboard.{
  ToolbarButton, start_selected, keep_selected_alive, stop_selected, stop_all, stop_all_confirmed,
  stop_confirmed, row_event, toggle_event, set_confirm_stop, action_began, not_logged_in,
  DashboardPage, Event, load_settled, stream, row, toolbar, act_settled, act_reloaded, toggled,
  all_toggled, adhoc_changed, confirm_changed, snapshot, state, auth_expired, stream_error,
  unmounted, initial, listed, targets, selected_all, step, run, set_dashboard, loaded, toggle,
  select_all, row_clicked, toolbar_clicked, toolbar_disabled,
}
use codex_queue_bot.Base.Sets.{
  distinct, distinct-keep, distinct-append, All-keep, All-keep_of_All, All-of_distinct, In,
}

abbrev pub names : List Target → List Text
names = map (λ target. target.name)

-- A dashboard of the server: no two of its targets share a name.
abbrev pub IsServed : Dashboard → Type 0
IsServed dashboard = distinct (names dashboard.targets) ≡ true

-- Every dashboard that an event brings is one of the server's.
abbrev pub Arrives : Event → Type 0
Arrives (load_settled (returned next)) = IsServed next
Arrives (stream (snapshot next)) = IsServed next
Arrives (stream (state next)) = IsServed next
Arrives (act_reloaded (returned next)) = IsServed next
Arrives _ = Unit

-- An empty list of targets stands for all of them: only `task.stop` is ever sent with it.
abbrev pub IsProper : Text × List Text → Type 0
IsProper (name, targets) = (is_empty targets ≡ false) ⊎ (name ≡ codes "task.stop")

pub record Holds (shown : List Target) (selected : List Text) (sent : List (Text × List Text))
    : Type 0 where
  pub chosen : All (λ name. listed shown name ≡ true) selected
  pub once : distinct selected ≡ true
  pub named : distinct (names shown) ≡ true
  pub proper : All IsProper sent

-- The selection lies within the targets that are shown, without repetition, as are the targets; and
-- what was sent is proper.
abbrev pub Inv : DashboardPage → Type 0
Inv page = Holds (targets page) page.selected page.sent

set_dashboard-Inv :
    (next : Dashboard) (page : DashboardPage)
    → IsServed next
    → Inv page
    → Inv (set_dashboard next page)
unfolding set_dashboard targets
set_dashboard-Inv next page h v = record {
  chosen = All-keep (listed next.targets) page.selected;
  once = distinct-keep (listed next.targets) page.selected v.once;
  named = h;
  proper = v.proper;
}

loaded-Inv :
    (outcome : Settled Dashboard) (page : DashboardPage)
    → Arrives (load_settled outcome)
    → Inv page
    → Inv (loaded outcome page)
unfolding loaded targets
loaded-Inv (returned next) page h v = set_dashboard-Inv next page h v
loaded-Inv (failed failure) page h v =
    elim (Bool-cases (includes not_logged_in (message_of failure []))) [
      | inl expired ↦ rw expired v
      | inr other ↦ rw other v
    ]

listed_cons :
    (target : Target) (rest : List Target) (items : List Text)
    → All (λ name. listed rest name ≡ true) items
    → All (λ name. listed (target ∷ rest) name ≡ true) items
unfolding listed
listed_cons target rest [] h = tt
listed_cons target rest (item ∷ items) h = (ground arith, listed_cons target rest items h.1)

listed-names : (shown : List Target) → All (λ name. listed shown name ≡ true) (names shown)
unfolding listed
listed-names [] = tt
listed-names (target ∷ rest) = (
  ground (arith, text_eq_iff target.name target.name),
  listed_cons target rest (names rest) (listed-names rest),
)

select_all-Inv : (page : DashboardPage) → Inv page → Inv (select_all page)
unfolding select_all targets
select_all-Inv page v = elim (Bool-cases (selected_all page)) [
  | inl all ↦ rw all (record { chosen = tt; once = refl; named = v.named; proper = v.proper })
  | inr some_left ↦ rw some_left (record {
    chosen = listed-names (targets page);
    once = v.named;
    named = v.named;
    proper = v.proper;
  })
]

toggle-Inv :
    (name : Text) (page : DashboardPage)
    → listed (targets page) name ≡ true
    → Inv page
    → Inv (toggle name page)
unfolding toggle targets
toggle-Inv name page h v = elim (Bool-cases (any (text_eq name) page.selected)) [
  | inl old ↦ rw old (record {
    chosen = All-keep_of_All _ (λ item. not (text_eq item name)) page.selected v.chosen;
    once = distinct-keep (λ item. not (text_eq item name)) page.selected v.once;
    named = v.named;
    proper = v.proper;
  })
  | inr new ↦ rw new (record {
    chosen = All-append _ page.selected (name ∷ []) v.chosen (h, tt);
    once = distinct-append page.selected name v.once new;
    named = v.named;
    proper = v.proper;
  })
]

action_began-Inv :
    (name : Text) (chosen : List Text) (page : DashboardPage)
    → IsProper (name, chosen)
    → Inv page
    → Inv (action_began name chosen page)
unfolding action_began targets
action_began-Inv name chosen page h v = record {
  chosen = v.chosen;
  once = v.once;
  named = v.named;
  proper = (h, v.proper);
}

row_clicked-Inv :
    (button : RowButton) (target : Target) (page : DashboardPage)
    → Inv page
    → Inv (row_clicked button target page)
unfolding row_clicked targets
row_clicked-Inv start_queue target page v = action_began-Inv _ _ page (inl refl) v
row_clicked-Inv start_keepalive target page v = action_began-Inv _ _ page (inl refl) v
row_clicked-Inv open_adhoc target page v = v
row_clicked-Inv stop_task target page v = action_began-Inv _ _ page (inl refl) v

set_confirm_stop-Inv :
    (shown : Bool) (page : DashboardPage) → Inv page → Inv (set_confirm_stop shown page)
unfolding set_confirm_stop targets
set_confirm_stop-Inv shown page v = v

toolbar_clicked-Inv :
    (button : ToolbarButton) (page : DashboardPage)
    → toolbar_disabled button page ≡ false
    → Inv page
    → Inv (toolbar_clicked button page)
unfolding toolbar_clicked toolbar_disabled
toolbar_clicked-Inv stop_all page h v = set_confirm_stop-Inv true page v
toolbar_clicked-Inv start_selected page h v = action_began-Inv _ _ page (inl (ground arith)) v
toolbar_clicked-Inv keep_selected_alive page h v = action_began-Inv _ _ page (inl (ground arith)) v
toolbar_clicked-Inv stop_selected page h v = action_began-Inv _ _ page (inl (ground arith)) v

stop_confirmed-Inv : (page : DashboardPage) → Inv page → Inv (stop_confirmed page)
unfolding stop_confirmed
stop_confirmed-Inv page v = elim (Bool-cases (page.confirm_stop && not (is_empty (targets page)))) [
  | inl asked ↦ rw asked (
      set_confirm_stop-Inv false (action_began (codes "task.stop") [] page)
        (action_began-Inv _ _ page (inr refl) v))
  | inr stale ↦ rw stale v
]

row_event-Inv :
    (button : RowButton) (target : Option Target) (page : DashboardPage)
    → Inv page
    → Inv (row_event button target page)
unfolding row_event
row_event-Inv button none page v = v
row_event-Inv button (some target) page v = elim (Bool-cases (row_disabled target button)) [
  | inl disabled ↦ rw disabled v
  | inr enabled ↦ rw enabled (row_clicked-Inv button target page v)
]

pub listed-get_elem? :
    (shown : List Target) (index : ℕ) (target : Target)
    → get_elem? shown index ≡ some target
    → listed shown target.name ≡ true
unfolding listed
listed-get_elem? [] index target h = cc
listed-get_elem? (other ∷ shown) zero target h = ground (arith, text_eq_iff target.name target.name)
listed-get_elem? (other ∷ shown) (suc index) target h =
    ground (arith, listed-get_elem? shown index target)

toggle_event-Inv :
    (index : ℕ) (page : DashboardPage)
    → Inv page
    → Inv (toggle_event (get_elem? (targets page) index) page)
unfolding toggle_event
toggle_event-Inv index page v = elim (Option-cases (get_elem? (targets page) index)) [
  | inl missing ↦ rw missing v
  | inr (target, at) ↦ rw at (toggle-Inv target.name page (listed-get_elem? _ index target at) v)
]

-- Every event keeps the selection within the listed targets, without repetition, and sends no
-- empty list of targets but with `task.stop`.
pub step-Inv :
    (event : Event) (page : DashboardPage) → Arrives event → Inv page → Inv (step event page)
unfolding step
step-Inv (load_settled outcome) page h v = loaded-Inv outcome page h v
step-Inv (stream (snapshot next)) page h v = set_dashboard-Inv next page h v
step-Inv (stream (state next)) page h v = set_dashboard-Inv next page h v
step-Inv (stream auth_expired) page h v = v
step-Inv (stream stream_error) page h v = v
step-Inv (stream unmounted) page h v = v
step-Inv (row button index) page h v = row_event-Inv button _ page v
step-Inv stop_all_confirmed page h v = stop_confirmed-Inv page v
step-Inv (toolbar button) page h v = elim (Bool-cases (toolbar_disabled button page)) [
  | inl disabled ↦ rw disabled v
  | inr enabled ↦ rw enabled (toolbar_clicked-Inv button page enabled v)
]
step-Inv (act_settled (returned result)) page h v = v
step-Inv (act_settled (failed failure)) page h v = v
step-Inv (act_reloaded outcome) page h v = loaded-Inv outcome page h v
step-Inv (toggled index) page h v = toggle_event-Inv index page v
step-Inv all_toggled page h v = select_all-Inv page v
step-Inv (adhoc_changed true) page h v = v
step-Inv (adhoc_changed false) page h v = v
step-Inv (confirm_changed shown) page h v = v

run-Inv :
    (events : List Event) (page : DashboardPage)
    → All Arrives events
    → Inv page
    → Inv (run events page)
unfolding run
run-Inv [] page h v = v
run-Inv (event ∷ events) page h v = run-Inv events (step event page) h.1 (step-Inv event page h.0 v)

pub initial-Inv : Inv initial
unfolding initial targets
initial-Inv = record { chosen = tt; once = refl; named = refl; proper = tt }

-- After any events, in any order: the selection names listed targets only and none of them twice,
-- and no request with an empty list of targets, which the server takes for all of them, was sent
-- but `task.stop`. The dashboards that arrive have no two targets of one name.
pub run-initial-Inv : (events : List Event) → All Arrives events → Inv (run events initial)
run-initial-Inv events h = run-Inv events initial h initial-Inv

In-of_one : (shown : List Target) (name : Text) → listed shown name ≡ true → In (names shown) name
unfolding listed
In-of_one [] name h = cc
In-of_one (target ∷ shown) name h =
    ground (arith, In-of_one shown name, text_eq_iff target.name name, text_eq_iff name target.name)

pub In-of_listed :
    (shown : List Target) (items : List Text)
    → All (λ name. listed shown name ≡ true) items
    → All (In (names shown)) items
In-of_listed shown [] h = tt
In-of_listed shown (item ∷ items) h = (In-of_one shown item h.0, In-of_listed shown items h.1)

-- Where the selection names listed targets only and none of them twice, and no two targets have one
-- name: if the page offers to deselect all, every target is selected.
pub selected_all-All :
    (page : DashboardPage)
    → Inv page
    → selected_all page ≡ true
    → All (In page.selected) (names (targets page))
unfolding selected_all
selected_all-All page v h =
    All-of_distinct page.selected (names (targets page)) v.once (In-of_listed _ _ v.chosen)
      (ground (arith, length-map (λ (target : Target). target.name) (targets page)))
