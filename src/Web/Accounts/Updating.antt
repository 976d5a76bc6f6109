-- ===== src/Web/Accounts/Updating.antt =====
-- internal/web/config_api.go: how `updateAccount` ends.
use codex_queue_bot.Base.{
  ℕ, ◌≡◌, refl, ◌⊎◌, inl, inr, Bool, true, false, not, ◌&&◌, Option, none, some, Text, text_eq,
  if◌then◌else◌, ◌==◌, is_empty, if-elim,
}
use codex_queue_bot.Base.Trim.{trim}
use codex_queue_bot.Jobs.Names.{go_space}
use codex_queue_bot.Web.Sessions.{Session}
use codex_queue_bot.Web.Accounts.{
  Response, Server, Snapshot, StoreError, not_found, conflict, invalid, other, error_status, reply,
  Verified, failed, rejected, accepted, Updated, refused, updated, AccountUpdateRequest,
  update_account, update_with, after_check, default_to,
}

-- A handler that refuses leaves the server as it is; one that saves goes on as `update_with` does.
abbrev pub Ends : Server → Server × Response → Type 0
Ends s result =
    ((status : ℕ) × ((status == 200) ≡ false) × (result ≡ (s, reply status)))
    ⊎ ((snapshot : Snapshot) × (result ≡ update_with (updated snapshot) s))

refusing-Ends : (s : Server) (status : ℕ) → (status == 200) ≡ false → Ends s (s, reply status)
refusing-Ends s status h = inl (status, h, refl)

error-Ends : (s : Server) (error : StoreError) → Ends s (s, reply (error_status error))
error-Ends s not_found = refusing-Ends s 404 refl
error-Ends s conflict = refusing-Ends s 400 refl
error-Ends s invalid = refusing-Ends s 400 refl
error-Ends s other = refusing-Ends s 500 refl

update_with-Ends : (s : Server) (answer : Updated) → Ends s (update_with answer s)
update_with-Ends s (refused error) = error-Ends s error
update_with-Ends s (updated snapshot) = inr (snapshot, refl)

after_check-Ends :
    (s : Server) (answer : Verified) (next : Server × Response)
    → Ends s next
    → Ends s (after_check answer s next)
after_check-Ends s (failed error) next h = error-Ends s error
after_check-Ends s rejected next h = refusing-Ends s 401 refl
after_check-Ends s (accepted username) next h = h

body_status : (there : Bool) → ((if there then 400 else 404) == 200) ≡ false
body_status true = refl
body_status false = refl

pub update_account-Ends :
    (verify : Text → Text → Verified) (store : Text → Text → Updated)
    (body : Option AccountUpdateRequest) (session : Session) (s : Server)
    → Ends s (update_account verify store body session s)
unfolding update_account
update_account-Ends verify store none session s = refusing-Ends s _ (body_status s.has_store)
update_account-Ends verify store (some request) session s =
    if-elim (Ends s) (not s.has_store) _ _ (refusing-Ends s 404 refl) (
      if-elim (Ends s) _ _ _ (refusing-Ends s 400 refl) (
        if-elim (Ends s) _ _ _ (refusing-Ends s 400 refl) (
          if-elim (Ends s) (is_empty request.current_password) _ _ save
            (after_check-Ends s _ _ save))))
  where
    username : Text
    username = default_to s.snapshot.admin_username (trim go_space request.username)

    new_password : Text
    new_password = default_to request.password request.new_password

    save : Ends s (
        if text_eq username s.snapshot.admin_username && is_empty new_password
        then (s, reply 400)
        else update_with (store username new_password) s)
    save =
        if-elim (Ends s) _ _ _ (refusing-Ends s 400 refl)
          (update_with-Ends s (store username new_password))
