-- ===== src/Dispatcher/Registry/Accounts/Slots.antt =====
-- Slots: a slot is held for every run under way, whatever is started, canceled or restarted.
use go_cloud_des.Prelude.{
  ℕ, ◌+◌, ◌≤◌, ◌<◌, ◌≡◌, ◌≢◌, ◌⊎◌, ◌∙◌, inl, inr, refl, sym, true, none, some, List, [], ◌∷◌, arith,
  ◌==◌, u64_mod, string_eq, nat_eq, Bool-cases, Option-cases, eq_iff, contains, length, subst,
  ne_of_beq,
}
use go_cloud_des.Dispatcher.Types.{ExperimentKey, key_eq, experiment_key, status_running}
use go_cloud_des.Dispatcher.Registry.{
  Registry, new_registry, Start, started, rejected, try_start, finish,
}
use go_cloud_des.Dispatcher.Registry.Starting.{Answers, PassesMemory, try_start_outcome}
use go_cloud_des.Dispatcher.Registry.Accounts.{
  State, run_keys, end_run, Event, starts, sets_cancel, sets_running, cancels, cancels_all,
  finishes, begin, step, run, start,
}
use go_cloud_des.Dispatcher.Registry.Accounts.Kept.{
  reserved_at, IsKept, set_cancel-IsKept, set_status-IsKept, cancel-IsKept, cancel_all-IsKept,
  finish-IsFinished,
}

-- There are as many used slots as runs, no more than there are slots, and every run has a record.
pub record SlotsCounted (slots : ℕ) (s : State) : Type 0 where
  pub total : s.total_slots ≡ slots
  pub counted : s.used_slots ≡ length s.runs
  pub within : length s.runs ≤ slots
  pub known :
      (k : ExperimentKey) → contains k (run_keys s.runs) ≡ true → reserved_at s.experiments k ≢ none

SlotsCounted-kept :
    (slots : ℕ) (s : State) (r : Registry)
    → IsKept s.registry r
    → SlotsCounted slots s
    → SlotsCounted slots (record s { registry = r })
SlotsCounted-kept slots s r k v = record {
  total = k.slots ∙ v.total;
  counted = k.used ∙ v.counted;
  within = v.within;
  known = λ key c. rw (k.at key) (v.known key c);
}

begin-SlotsCounted :
    (slots : ℕ) (s : State) (key : ExperimentKey) (limit : ℕ) (answer : Registry × Start)
    → 0 < slots
    → slots < u64_mod
    → Answers PassesMemory s.registry key limit answer
    → SlotsCounted slots s
    → SlotsCounted slots (begin s key limit answer)
unfolding begin
begin-SlotsCounted slots s key limit (r, rejected code) some_slots fits a v =
    subst (λ r. SlotsCounted slots (record s { registry = r })) (sym a.0) v
begin-SlotsCounted slots s key limit (r, started rec) some_slots fits a v =
    let (idle, slot, room, at, m, st, ts, tm, others, used, mem) = a in
    record {
      total = ts ∙ v.total;
      counted = ground (arith, v.total, v.counted, v.within);
      within = ground (arith, v.total, v.counted, v.within);
      known = λ k c. elim (Bool-cases (key == k)) [
        | inl same ↦ ground (arith, (eq_iff key k).0 same)
        | inr other ↦ ground (arith, others k, v.known k, eq_iff key k)
      ];
    }

length-end_run :
    (key : ExperimentKey) (rs : List (ExperimentKey × ℕ))
    → contains key (run_keys rs) ≡ true
    → length (end_run key rs) + 1 ≡ length rs
unfolding end_run
length-end_run key [] c = cc
length-end_run key ((k, m) ∷ rs) c = ground (arith, length-end_run key rs)

contains-end_run :
    (key k : ExperimentKey) (rs : List (ExperimentKey × ℕ))
    → contains k (run_keys (end_run key rs)) ≡ true
    → contains k (run_keys rs) ≡ true
unfolding end_run
contains-end_run key k [] c = c
contains-end_run key k ((j, m) ∷ rs) c = ground (arith, contains-end_run key k rs)

step-SlotsCounted :
    (slots : ℕ) (s : State) (e : Event)
    → 0 < slots
    → slots < u64_mod
    → SlotsCounted slots s
    → SlotsCounted slots (step s e)
unfolding step
step-SlotsCounted slots s (starts h e limit) some_slots fits v =
    begin-SlotsCounted slots s (experiment_key h e) limit (try_start s.registry h e limit)
      some_slots fits (try_start_outcome s.registry h e limit) v
step-SlotsCounted slots s (sets_cancel h e c) some_slots fits v =
    SlotsCounted-kept slots s _ (set_cancel-IsKept s.registry h e c) v
step-SlotsCounted slots s (sets_running h e) some_slots fits v =
    SlotsCounted-kept slots s _ (set_status-IsKept s.registry h e status_running) v
step-SlotsCounted slots s (cancels h e) some_slots fits v =
    SlotsCounted-kept slots s _ (cancel-IsKept s.registry h e) v
step-SlotsCounted slots s (cancels_all order reason) some_slots fits v =
    SlotsCounted-kept slots s _ (cancel_all-IsKept order s.registry reason) v
step-SlotsCounted slots s (finishes h e result) some_slots fits v =
    let key = experiment_key h e in
    elim (Bool-cases (contains key (run_keys s.runs))) [
      | inr absent ↦ rw absent v
      | inl there ↦ rw there (finished there (Option-cases (reserved_at s.experiments key)))
    ]
  where
    finished :
        contains (experiment_key h e) (run_keys s.runs) ≡ true
        → (reserved_at s.experiments (experiment_key h e) ≡ none)
          ⊎ ((m : ℕ) × (reserved_at s.experiments (experiment_key h e) ≡ some m))
        → SlotsCounted slots (record {
          registry = (finish s.registry h e result).0;
          runs = end_run (experiment_key h e) s.runs;
        })
    finished there (inl missing) = absurd (v.known (experiment_key h e) there missing)
    finished there (inr (m, held)) =
        let f = finish-IsFinished s.registry h e result m held in
        let shorter = length-end_run (experiment_key h e) s.runs there in
        record {
          total = f.slots ∙ v.total;
          counted = omega (arith, f.used, v.counted, shorter);
          within = omega (arith, v.within, shorter);
          known = λ k c. elim (Bool-cases (experiment_key h e == k)) [
            | inl same ↦
                subst (λ j. reserved_at (finish s.registry h e result).0.experiments j ≢ none)
                  ((eq_iff (experiment_key h e) k).0 same) (λ n. cc (f.at_key, n))
            | inr other ↦ λ n.
                v.known k (contains-end_run (experiment_key h e) k s.runs c)
                  (sym (f.at k (ne_of_beq (experiment_key h e) k other)) ∙ n)
          ];
        }

run-SlotsCounted :
    (slots : ℕ) (s : State) (es : List Event)
    → 0 < slots
    → slots < u64_mod
    → SlotsCounted slots s
    → SlotsCounted slots (run s es)
unfolding run
run-SlotsCounted slots s [] some_slots fits v = v
run-SlotsCounted slots s (e ∷ es) some_slots fits v =
    run-SlotsCounted slots (step s e) es some_slots fits
      (step-SlotsCounted slots s e some_slots fits v)

-- From a new registry with at least one slot, and whatever is started, canceled, restarted and
-- finished, the used slots are as many as the runs under way, and never more than the slots.
pub run-start-SlotsCounted :
    (slots memory : ℕ) (es : List Event)
    → 0 < slots
    → slots < u64_mod
    → SlotsCounted slots (run (start slots memory) es)
run-start-SlotsCounted slots memory es some_slots fits =
    run-SlotsCounted slots (start slots memory) es some_slots fits (
      unfold start new_registry in
      record { total = refl; counted = refl; within = omega arith; known = λ k c. cc })
