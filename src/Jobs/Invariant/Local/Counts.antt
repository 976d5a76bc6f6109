-- ===== src/Jobs/Invariant/Local/Counts.antt =====
-- What the manager's own sections do to its counts and entries.
use codex_queue_bot.Base.{
  ◌≤◌, ◌≡◌, refl, sym, ◌∙◌, ap, inl, inr, Bool, true, false, Text, Option, some, arith, text_eq,
  text_eq_iff, Bool-cases, ltb, ltb→lt, suc,
}
use codex_queue_bot.Jobs.State.{Entry, Change}
use codex_queue_bot.Jobs.Manager.{
  Manager, put, broadcast, commit, take_slot, release_slot, finish_process, count_process,
  give_back,
}
use codex_queue_bot.Jobs.Worker.{Run, Pc, adhoc_leaving, gone}
use codex_queue_bot.Jobs.Invariant.Flags.{one_if, has_slot, has_process}
use codex_queue_bot.Jobs.Invariant.Local.{ManagerStep}

pub put_same :
    (key : Text) (e : Entry) (entries : Text → Option Entry) (other : Text)
    → entries key ≡ some e
    → entries other ≡ put key (some e) entries other
put_same key e entries other h = elim (Bool-cases (text_eq key other)) [
  | inl same ↦ rw same (ap entries (sym ((text_eq_iff key other).0 same)) ∙ h)
  | inr differs ↦ rw differs
]

take_slot-eq_some :
    (m m' : Manager)
    → take_slot m ≡ some m'
    → (ltb m.slots_in_use m.max_parallel ≡ true)
      × (m' ≡ record m { slots_in_use = suc m.slots_in_use })
unfolding take_slot
take_slot-eq_some m m' h = ground arith

module _ (run : Run) (m : Manager) (e : Entry) (pc pc' : Pc) where
  pub commit-ManagerStep :
      (change : Change)
      → has_slot pc' ≡ has_slot pc
      → has_process pc' ≡ has_process pc
      → ManagerStep run m (commit run.key change m) change.entry pc pc'
  unfolding commit broadcast
  commit-ManagerStep change hs hp = elim (Bool-cases change.broadcast) [
    | inl told ↦ rw told (record {
      entries = λ key. refl;
      slots = rw hs;
      processes = rw hp;
      capacity = inl (omega arith);
      max_parallel = refl;
      adhoc_runs = refl;
    })
    | inr quiet ↦ rw quiet (record {
      entries = λ key. refl;
      slots = rw hs;
      processes = rw hp;
      capacity = inl (omega arith);
      max_parallel = refl;
      adhoc_runs = refl;
    })
  ]

  -- The entry stays, and so do the counts.
  pub same-ManagerStep :
      m.entries run.key ≡ some e
      → has_slot pc' ≡ has_slot pc
      → has_process pc' ≡ has_process pc
      → ManagerStep run m m e pc pc'
  same-ManagerStep h hs hp = record {
    entries = λ key. put_same run.key e m.entries key h;
    slots = rw hs;
    processes = rw hp;
    capacity = inl (omega arith);
    max_parallel = refl;
    adhoc_runs = refl;
  }

  pub release_slot-ManagerStep :
      m.entries run.key ≡ some e
      → has_slot pc ≡ true
      → has_slot pc' ≡ false
      → has_process pc' ≡ has_process pc
      → one_if (has_slot pc) ≤ m.slots_in_use
      → ManagerStep run m (release_slot m) e pc pc'
  unfolding release_slot
  release_slot-ManagerStep h hs hs' hp room = record {
    entries = λ key. put_same run.key e m.entries key h;
    slots = ground arith;
    processes = ground arith;
    capacity = inl (omega arith);
    max_parallel = refl;
    adhoc_runs = refl;
  }

  pub finish_process-ManagerStep :
      m.entries run.key ≡ some e
      → has_slot pc ≡ true
      → has_slot pc' ≡ false
      → has_process pc ≡ true
      → has_process pc' ≡ false
      → one_if (has_slot pc) ≤ m.slots_in_use
      → one_if (has_process pc) ≤ m.current_processes
      → ManagerStep run m (finish_process m) e pc pc'
  unfolding finish_process
  finish_process-ManagerStep h hs hs' hp hp' room running = record {
    entries = λ key. put_same run.key e m.entries key h;
    slots = ground arith;
    processes = ground arith;
    capacity = inl (omega arith);
    max_parallel = refl;
    adhoc_runs = refl;
  }

  slot_taken-ManagerStep :
      ltb m.slots_in_use m.max_parallel ≡ true
      → m.entries run.key ≡ some e
      → has_slot pc ≡ false
      → has_slot pc' ≡ true
      → has_process pc' ≡ has_process pc
      → ManagerStep run m (record m { slots_in_use = suc m.slots_in_use }) e pc pc'
  slot_taken-ManagerStep free h hs hs' hp = record {
    entries = λ key. put_same run.key e m.entries key h;
    slots = rw (hs, hs') (omega arith);
    processes = rw hp;
    capacity = inr (ltb→lt _ _ free);
    max_parallel = refl;
    adhoc_runs = refl;
  }

  pub take_slot-ManagerStep :
      (m' : Manager)
      → take_slot m ≡ some m'
      → m.entries run.key ≡ some e
      → has_slot pc ≡ false
      → has_slot pc' ≡ true
      → has_process pc' ≡ has_process pc
      → ManagerStep run m m' e pc pc'
  take_slot-ManagerStep m' taken h hs hs' hp =
      let (free, same) = take_slot-eq_some m m' taken in
      rw same (slot_taken-ManagerStep free h hs hs' hp)

  pub count_process-ManagerStep :
      (change : Change)
      → has_slot pc' ≡ has_slot pc
      → has_process pc ≡ false
      → has_process pc' ≡ true
      → ManagerStep run m (commit run.key change (count_process m)) change.entry pc pc'
  unfolding count_process commit broadcast
  count_process-ManagerStep change hs hp hp' = elim (Bool-cases change.broadcast) [
    | inl told ↦ rw told (record {
      entries = λ key. refl;
      slots = rw hs;
      processes = rw (hp, hp') (omega arith);
      capacity = inl (omega arith);
      max_parallel = refl;
      adhoc_runs = refl;
    })
    | inr quiet ↦ rw quiet (record {
      entries = λ key. refl;
      slots = rw hs;
      processes = rw (hp, hp') (omega arith);
      capacity = inl (omega arith);
      max_parallel = refl;
      adhoc_runs = refl;
    })
  ]

  -- A manual request that claims its process without a change of its entry.
  pub count_process_only-ManagerStep :
      m.entries run.key ≡ some e
      → has_slot pc' ≡ has_slot pc
      → has_process pc ≡ false
      → has_process pc' ≡ true
      → ManagerStep run m (broadcast (count_process m)) e pc pc'
  unfolding count_process broadcast
  count_process_only-ManagerStep h hs hp hp' = record {
    entries = λ key. put_same run.key e m.entries key h;
    slots = rw hs;
    processes = rw (hp, hp') (omega arith);
    capacity = inl (omega arith);
    max_parallel = refl;
    adhoc_runs = refl;
  }

pub give_back-ManagerStep :
    (run : Run) (m : Manager) (change : Change) (slot process : Bool)
    → one_if slot ≤ m.slots_in_use
    → one_if process ≤ m.current_processes
    → ManagerStep run m
        (commit run.key change (give_back slot process m))
        change.entry
        (adhoc_leaving slot process)
        gone
unfolding give_back
give_back-ManagerStep run m change true true room running =
    let rest =
      commit-ManagerStep run (give_back true true m) change.entry gone gone change refl refl in
    record {
      entries = rest.entries;
      slots = omega (arith, rest.slots);
      processes = omega (arith, rest.processes);
      capacity = inl (omega (arith, rest.slots));
      max_parallel = rest.max_parallel;
      adhoc_runs = rest.adhoc_runs;
    }
give_back-ManagerStep run m change true false room running =
    let rest =
      commit-ManagerStep run (give_back true false m) change.entry gone gone change refl refl in
    record {
      entries = rest.entries;
      slots = omega (arith, rest.slots);
      processes = omega (arith, rest.processes);
      capacity = inl (omega (arith, rest.slots));
      max_parallel = rest.max_parallel;
      adhoc_runs = rest.adhoc_runs;
    }
give_back-ManagerStep run m change false true room running =
    let rest =
      commit-ManagerStep run (give_back false true m) change.entry gone gone change refl refl in
    record {
      entries = rest.entries;
      slots = omega (arith, rest.slots);
      processes = omega (arith, rest.processes);
      capacity = inl (omega (arith, rest.slots));
      max_parallel = rest.max_parallel;
      adhoc_runs = rest.adhoc_runs;
    }
give_back-ManagerStep run m change false false room running =
    let rest =
      commit-ManagerStep run (give_back false false m) change.entry gone gone change refl refl in
    record {
      entries = rest.entries;
      slots = omega (arith, rest.slots);
      processes = omega (arith, rest.processes);
      capacity = inl (omega (arith, rest.slots));
      max_parallel = rest.max_parallel;
      adhoc_runs = rest.adhoc_runs;
    }
