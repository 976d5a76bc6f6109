-- ===== src/Jobs/Locks/Refinement.antt =====
-- internal/jobs/manager.go: the arbiters against the locks that they stand for.
use codex_queue_bot.Base.{
  ℕ, suc, ◌<◌, ◌≡◌, refl, sym, ap, ◌∙◌, subst, inl, inr, Bool, true, false, none, some, Option,
  Text, arith, text_eq, text_eq_iff, if◌then◌else◌, Bool-cases, Option-cases,
}
use codex_queue_bot.Jobs.State.{nobody, Arbiter, Entry}
use codex_queue_bot.Jobs.Manager.{Manager, put}
use codex_queue_bot.Jobs.Manager.Targets.{reserve_adhoc, begin_shutdown, ok}
use codex_queue_bot.Jobs.Worker.{Run, Pc, Input, work, gone, seek_target, checking, adhoc_seek_slot}
use codex_queue_bot.Jobs.System.{
  System, Step, working, calling, starting_queue, starting_keepalive, starting_adhoc, shutting_down,
  cancelling, Reach, IsFresh,
}
use codex_queue_bot.Jobs.Invariant.Flags.{is_live}
use codex_queue_bot.Jobs.Invariant.Global.{Inv, At}
use codex_queue_bot.Jobs.Invariant.Global.Calls.{
  queue_run, keepalive_run, adhoc_run, calling-Effect, starting_queue-Effect,
  starting_keepalive-Effect, starting_adhoc-Effect,
}
use codex_queue_bot.Jobs.Invariant.Global.Reserving.{reserve_adhoc-eq_ok, idle-unowned}
use codex_queue_bot.Jobs.Invariant.Global.Steps.{work-LocalStep, Inv-Before, is_gone, work-gone}
use codex_queue_bot.Jobs.Invariant.Reached.{Reach-Inv}
use codex_queue_bot.Jobs.Invariant.Effect.{Effect, LocalStep-Effect}
use codex_queue_bot.Jobs.Locks.{Holder, set_lock, LockStep, stays, takes, lets_go}

abbrev pub lock_of : Arbiter → Option Holder
lock_of a = elim a.owner [ nobody ↦ none | _ ↦ some (a.owner, a.owner_run_id) ]

abbrev lock_in : Option Entry → Option Holder
lock_in none = none
lock_in (some e) = lock_of e.arbiter

-- The locks that the manager's arbiters stand for; a target that is not there has a free one.
abbrev pub locks : Manager → Text → Option Holder
locks m key = lock_in (m.entries key)

lock_same :
    (a b : Arbiter) → b.owner ≡ a.owner → b.owner_run_id ≡ a.owner_run_id → lock_of b ≡ lock_of a
lock_same a b h k = ground arith

locks-put :
    (m m' : Manager) (key : Text) (e : Entry)
    → ((other : Text) → m'.entries other ≡ put key (some e) m.entries other)
    → (other : Text) → locks m' other ≡ set_lock key (lock_of e.arbiter) (locks m) other
locks-put m m' key e h other =
    ap lock_in (h other) ∙ lock_in-if (text_eq key other) (some e) (m.entries other)
  where
    lock_in-if :
        (b : Bool) (x y : Option Entry)
        → lock_in (if b then x else y) ≡ (if b then lock_in x else lock_in y)
    lock_in-if true x y = refl
    lock_in-if false x y = refl

lock_of-free : (a : Arbiter) → a.owner ≡ nobody → lock_of a ≡ none
lock_of-free a h = ground arith

set_same :
    (f : Text → Option Holder) (key : Text) (lock : Option Holder)
    → lock ≡ f key
    → (other : Text) → set_lock key lock f other ≡ f other
set_same f key lock h other = elim (Bool-cases (text_eq key other)) [
  | inl same ↦ rw same (h ∙ ap f ((text_eq_iff key other).0 same))
  | inr differs ↦ rw differs
]

taking-LockStep :
    (f g : Text → Option Holder) (key : Text) (lock : Option Holder)
    → f key ≡ none
    → ((other : Text) → g other ≡ set_lock key lock f other)
    → LockStep f g
taking-LockStep f g key none free h =
    stays (λ other. h other ∙ set_same f key none (sym free) other)
taking-LockStep f g key (some holder) free h = takes key holder free h

freeing-LockStep :
    (f g : Text → Option Holder) (key : Text)
    → ((other : Text) → g other ≡ set_lock key none f other)
    → LockStep f g
freeing-LockStep f g key h = elim (Option-cases (f key)) [
  | inl free ↦ stays (λ other. h other ∙ set_same f key none (sym free) other)
  | inr (holder, held) ↦ lets_go key holder held h
]

Effect-LockStep :
    (run : Run) (m m' : Manager) (e e' : Entry) (pc pc' : Pc)
    → m.entries run.key ≡ some e
    → Effect run m m' e e' pc pc'
    → LockStep (locks m) (locks m')
Effect-LockStep run m m' e e' pc pc' at step =
    let before : locks m run.key ≡ lock_of e.arbiter = ap lock_in at in
    let after = locks-put m m' run.key e' step.entries in
    elim step.owner [
      | inl (owner, run_id, _) ↦ stays (λ key.
          after key
          ∙ set_same (locks m) run.key _ (lock_same e.arbiter e'.arbiter owner run_id ∙ sym before)
              key)
      | inr (inl (free, owner, run_id, _)) ↦
          taking-LockStep _ _ run.key _ (before ∙ lock_of-free e.arbiter free) after
      | inr (inr (own, free, _)) ↦ freeing-LockStep _ _ run.key (λ other.
          after other
          ∙ ap (λ lock. set_lock run.key lock (locks m) other) (lock_of-free e'.arbiter free))
    ]

same_entries-LockStep : (m m' : Manager) → m'.entries ≡ m.entries → LockStep (locks m) (locks m')
same_entries-LockStep m m' h = stays (λ key. ap (λ entries. lock_in (entries key)) h)

begin_shutdown-entries : (m : Manager) → (begin_shutdown m).entries ≡ m.entries
unfolding begin_shutdown
begin_shutdown-entries m = elim (Bool-cases m.shutting_down) [
  | inl on ↦ rw on refl
  | inr off ↦ rw off refl
]

working-LockStep :
    (s : System) (v : Inv s) (i : ℕ) (input : Input) (e : Entry)
    → i < s.spawned
    → At s i e
    → LockStep
        (locks s.manager)
        (locks (work input s.manager (s.workers i).run e (s.workers i).pc).0)
working-LockStep s v i input e counted at = elim (Bool-cases (is_live (s.workers i).pc)) [
  | inl live ↦
      let step =
        work-LocalStep input (s.workers i).run s.manager e (s.workers i).pc _
          (Inv-Before s v i (counted, live) e at) live refl in
      Effect-LockStep (s.workers i).run s.manager _ e step.after _ _ at
        (LocalStep-Effect _ _ _ _ _ _ step live)
  | inr dead ↦
      same_entries-LockStep s.manager (work input s.manager (s.workers i).run e (s.workers i).pc).0
        (ap (λ (next : Manager × Pc). next.0.entries)
          (ap (work input s.manager (s.workers i).run e) (is_gone (s.workers i).pc dead)
            ∙ work-gone input (s.workers i).run s.manager e))
]

starting_adhoc-LockStep :
    (s : System) (v : Inv s) (id : ℕ) (m : Manager) (key : Text) (run_id : ℕ)
    → reserve_adhoc s.spawned id s.manager ≡ (m, ok (key, run_id))
    → LockStep (locks s.manager) (locks m)
starting_adhoc-LockStep s v id m key run_id h =
    let (e, (at, (idle, (number, after)))) =
      reserve_adhoc-eq_ok s.spawned id run_id key s.manager m h in
    subst (λ m'. LockStep (locks s.manager) (locks m')) (sym after)
      (Effect-LockStep (adhoc_run key (suc s.manager.next_adhoc_run_id) s.spawned) s.manager _ e _
        gone adhoc_seek_slot at
        (starting_adhoc-Effect key s.spawned e s.manager (v.modes key e at) (idle-unowned e idle)))

-- Every step of the system is a step of the locks.
Step-LockStep : (s t : System) → Step s t → Inv s → LockStep (locks s.manager) (locks t.manager)
Step-LockStep s t (working i input e less at) v = working-LockStep s v i input e less at
Step-LockStep s t (calling key e change at section) v =
    Effect-LockStep (queue_run key e 0) s.manager _ e change.entry gone gone at
      (calling-Effect (queue_run key e 0) s.manager e change section (v.modes key e at))
Step-LockStep s t (starting_queue key e subscriber now open_now at h) v =
    Effect-LockStep (queue_run key e s.spawned) s.manager _ e _ gone seek_target at
      (starting_queue-Effect key subscriber s.spawned now e s.manager (v.modes key e at) h)
Step-LockStep s t (starting_keepalive key e now open_now at h) v =
    Effect-LockStep (keepalive_run key e s.spawned) s.manager _ e _ gone checking at
      (starting_keepalive-Effect key s.spawned now e s.manager (v.modes key e at) h)
Step-LockStep s t (starting_adhoc id m key run_id h) v =
    starting_adhoc-LockStep s v id m key run_id h
Step-LockStep s t shutting_down v =
    same_entries-LockStep s.manager (begin_shutdown s.manager) (begin_shutdown-entries s.manager)
Step-LockStep s t (cancelling root cancelled r c) v = stays (λ key. refl)

fresh-free : (s : System) → IsFresh s → (key : Text) → locks s.manager key ≡ none
fresh-free s f key = elim (Option-cases (s.manager.entries key)) [
  | inl missing ↦ ap lock_in missing
  | inr (e, at) ↦ ap lock_in at ∙ ap lock_of (f.new_entries key e at).2
]

-- The arbiters refine locks, one for each target, that are all free at first: from every state that
-- the manager reaches, each step of a worker, of a caller or of the world leaves the locks as they
-- are, takes one lock that was free, or lets one lock go. No run takes a target over from another.
pub Step-refines :
    (s t u : System)
    → IsFresh s
    → Reach s t
    → Step t u
    → ((key : Text) → locks s.manager key ≡ none) × LockStep (locks t.manager) (locks u.manager)
Step-refines s t u f r step = (fresh-free s f, Step-LockStep t u step (Reach-Inv s t f r))
