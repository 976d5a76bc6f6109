-- ===== src/Console/Access/Grants.antt =====
-- Who sees the console, and what the setup form of frontend/src/App.tsx sends.
use codex_queue_bot.Base.{
  ◌≡◌, ◌≢◌, ◌⊎◌, ◌≤◌, inl, inr, Bool, true, false, ◌&&◌, List, [], ◌∷◌, none, arith, text_eq,
  text_eq_iff, if◌then◌else◌, ltb, length, is_empty, All, Bool-cases,
}
use codex_queue_bot.Console.Api.{returned, failed}
use codex_queue_bot.Console.Api.Calls
use codex_queue_bot.Console.Access.{
  App, Form, Event, boot_settled, setup_submitted, setup_done, login_done, screen, console,
  setup_page, step, run, minimum_admin_password_length,
}

-- The server has answered for a user: to `session` at the start, or to a setup or login.
abbrev pub grants : Event → Bool
grants (boot_settled (returned status) (returned user)) = if status.required then false else true
grants (setup_done (returned user)) = true
grants (login_done (returned user)) = true
grants _ = false

step-auth :
    (event : Event) (app : App)
    → grants event ≡ false
    → app.auth ≡ none
    → (step event app).auth ≡ none
unfolding step
step-auth (boot_settled (returned status) (returned user)) app h k = ground arith
step-auth (boot_settled (returned status) (failed failure)) app h k = ground arith
step-auth (boot_settled (failed failure) user) app h k = ground arith
step-auth (setup_done (returned user)) app h k = cc
step-auth (login_done (returned user)) app h k = cc
step-auth _ app h k = ground arith

run-auth :
    (events : List Event) (app : App)
    → All (λ event. grants event ≡ false) events
    → app.auth ≡ none
    → (run events app).auth ≡ none
unfolding run
run-auth [] app h k = k
run-auth (event ∷ events) app h k = run-auth events (step event app) h.1 (step-auth event app h.0 k)

console-auth : (app : App) → app.auth ≡ none → screen app ≢ console
unfolding screen
console-auth app h = ground arith

-- Where nobody is logged in, as at the start and after a logout, no events show the console without
-- an answer of the server for a user: to `session` at the start, to `setup` or to `login`.
pub console_needs_grant :
    (events : List Event) (app : App)
    → app.auth ≡ none
    → All (λ event. grants event ≡ false) events
    → screen (run events app) ≢ console
console_needs_grant events app h k = console-auth (run events app) (run-auth events app k h)

-- What the setup form must hold for its request to be sent.
pub record IsReady (form : Form) : Type 0 where
  pub idle : form.busy ≡ false
  pub named : is_empty form.username ≡ false
  pub long_enough : minimum_admin_password_length ≤ length form.password
  pub confirmed : form.password ≡ form.confirm

-- On the setup page, submitting the form sends `setup` with the user name and the password if no
-- call is under way, there is a user name, the password has five characters or more, and it was
-- repeated; otherwise nothing is sent.
pub setup_submitted-sent :
    (app : App)
    → screen app ≡ setup_page
    → (IsReady app.setup_form
        × ((step setup_submitted app).sent
            ≡ Calls.setup app.setup_form.username app.setup_form.password ∷ app.sent))
      ⊎ ((¬ IsReady app.setup_form) × ((step setup_submitted app).sent ≡ app.sent))
unfolding step
setup_submitted-sent app h =
    let form = app.setup_form in
    elim (Bool-cases (ready_test form)) [
      | inl ok ↦ inl (test-IsReady form ok, ground (arith, ok))
      | inr not_ok ↦ inr (λ ready. not_ready form ready not_ok, ground (arith, not_ok))
    ]
  where
    ready_test : Form → Bool
    ready_test form =
        (if form.busy then false else true)
        && ((if is_empty form.username then false else true)
            && ((if ltb (length form.password) minimum_admin_password_length then false else true)
                && text_eq form.password form.confirm))

    test-IsReady : (form : Form) → ready_test form ≡ true → IsReady form
    test-IsReady form ok = ground (arith, text_eq_iff form.password form.confirm)

    not_ready : (form : Form) → IsReady form → ready_test form ≡ false → ⊥
    not_ready form ready not_ok = ground (
      arith,
      text_eq_iff form.password form.confirm,
      ready.idle,
      ready.named,
      ready.long_enough,
      ready.confirmed,
    )
