-- ===== src/Dispatcher/Registry/Accounts/Memory.antt =====
-- Memory: while no key is started again before its run ends, the reserved memory is exact.
use go_cloud_des.Prelude.{
  ℕ, ◌+◌, ◌≤◌, ◌<◌, ◌≡◌, ◌≢◌, ◌∙◌, inl, inr, refl, sym, String, true, false, some, List, [], ◌∷◌,
  arith, ◌==◌, add64, string_eq, nat_eq, Bool-cases, eq_iff, beq_refl, contains, subst, Distinct,
}
use go_cloud_des.Dict.{Dict}
use go_cloud_des.Dispatcher.Types.{
  ExperimentKey, key_eq, experiment_key, ExperimentResult, status_running,
}
use go_cloud_des.Dispatcher.Registry.{
  ExperimentRecord, Registry, new_registry, Start, started, rejected, try_start, finish,
}
use go_cloud_des.Prelude.{All}
use go_cloud_des.Dispatcher.Registry.Starting.{Answers, PassesMemory, try_start_outcome}
use go_cloud_des.Dispatcher.Registry.Accounts.{
  State, run_keys, sum_limits, end_run, Event, starts, sets_cancel, sets_running, cancels,
  cancels_all, finishes, begin, step, run, start,
}
use go_cloud_des.Dispatcher.Registry.Accounts.Kept.{
  reserved_at, IsKept, set_cancel-IsKept, set_status-IsKept, cancel-IsKept, cancel_all-IsKept,
  finish-IsFinished,
}

abbrev pub Registered : Dict ExperimentKey ExperimentRecord → ExperimentKey × ℕ → Type 0
Registered d (k, m) = reserved_at d k ≡ some m

-- The reserved memory is the sum of the limits of the runs, no more than there is, and is recorded
-- under the key of each run; no key has two runs.
pub record MemoryCounted (memory : ℕ) (s : State) : Type 0 where
  pub total : s.total_memory_bytes ≡ memory
  pub counted : s.reserved_memory_bytes ≡ sum_limits s.runs
  pub within : sum_limits s.runs ≤ memory
  pub distinct : Distinct (run_keys s.runs)
  pub registered : All (Registered s.experiments) s.runs

-- The key that an event starts is free, and its limit is below 2^63.
abbrev pub IsFresh : State → Event → Type 0
IsFresh s (starts h e limit) =
    (contains (experiment_key h e) (run_keys s.runs) ≡ false) × (limit < 9223372036854775808)
IsFresh s _ = Unit

abbrev pub AreFresh : State → List Event → Type 0
AreFresh s [] = Unit
AreFresh s (e ∷ es) = IsFresh s e × AreFresh (step s e) es

All-Registered :
    (d d' : Dict ExperimentKey ExperimentRecord) (rs : List (ExperimentKey × ℕ))
    → ((k : ExperimentKey) → contains k (run_keys rs) ≡ true → reserved_at d' k ≡ reserved_at d k)
    → All (Registered d) rs
    → All (Registered d') rs
All-Registered d d' [] same a = tt
All-Registered d d' ((k, m) ∷ rs) same a =
    (same k (rw beq_refl) ∙ a.0, All-Registered d d' rs (λ j c. same j (ground arith)) a.1)

MemoryCounted-kept :
    (memory : ℕ) (s : State) (r : Registry)
    → IsKept s.registry r
    → MemoryCounted memory s
    → MemoryCounted memory (record s { registry = r })
MemoryCounted-kept memory s r k v = record {
  total = k.memory ∙ v.total;
  counted = k.reserved ∙ v.counted;
  within = v.within;
  distinct = v.distinct;
  registered = All-Registered s.experiments r.experiments s.runs (λ j c. k.at j) v.registered;
}

-- A key with no run is under none of the runs.
apart :
    (key k : ExperimentKey) (rs : List (ExperimentKey × ℕ))
    → contains key (run_keys rs) ≡ false
    → contains k (run_keys rs) ≡ true
    → key ≢ k
apart key k rs free there e = cc (subst (λ j. contains j (run_keys rs) ≡ true) (sym e) there)

begin-MemoryCounted :
    (memory : ℕ) (s : State) (key : ExperimentKey) (limit : ℕ) (answer : Registry × Start)
    → memory < 9223372036854775808
    → limit < 9223372036854775808
    → 0 < memory
    → contains key (run_keys s.runs) ≡ false
    → Answers PassesMemory s.registry key limit answer
    → MemoryCounted memory s
    → MemoryCounted memory (begin s key limit answer)
unfolding begin
begin-MemoryCounted memory s key limit (r, rejected code) fits small some_memory free a v =
    subst (λ r. MemoryCounted memory (record s { registry = r })) (sym a.0) v
begin-MemoryCounted memory s key limit (r, started rec) fits small some_memory free a v =
    let (idle, slot, room, at, m, st, ts, tm, others, used, mem) = a in
    let sum : add64 s.reserved_memory_bytes limit ≡ s.reserved_memory_bytes + limit =
      omega (arith, v.counted, v.within) in
    record {
      total = tm ∙ v.total;
      counted = omega (arith, mem, sum, v.counted);
      within = ground (arith, v.total, v.counted, v.within, sum);
      distinct = (free, v.distinct);
      registered = (
        ground (arith, at, m),
        All-Registered s.experiments r.experiments s.runs
            (λ k there. ground (arith, others k (apart key k s.runs free there))) v.registered,
      );
    }

record HasRun (d : Dict ExperimentKey ExperimentRecord) (key : ExperimentKey)
    (rs : List (ExperimentKey × ℕ)) : Type 0 where
  limit : ℕ
  held : reserved_at d key ≡ some limit
  sum : sum_limits (end_run key rs) + limit ≡ sum_limits rs

Registered-run :
    (d : Dict ExperimentKey ExperimentRecord) (key : ExperimentKey) (rs : List (ExperimentKey × ℕ))
    → contains key (run_keys rs) ≡ true
    → All (Registered d) rs
    → HasRun d key rs
unfolding end_run
Registered-run d key [] there a = cc
Registered-run d key ((k, m) ∷ rs) there a = elim (Bool-cases (k == key)) [
  | inl same ↦ record {
    limit = m;
    held = subst (λ j. reserved_at d j ≡ some m) ((eq_iff k key).0 same) a.0;
    sum = rw same (omega arith);
  }
  | inr other ↦
      let rest = Registered-run d key rs (rw other at there) a.1 in
      record { limit = rest.limit; held = rest.held; sum = rw other (omega (arith, rest.sum)) }
]

contains-end_run-false :
    (key k : ExperimentKey) (rs : List (ExperimentKey × ℕ))
    → contains k (run_keys rs) ≡ false
    → contains k (run_keys (end_run key rs)) ≡ false
unfolding end_run
contains-end_run-false key k [] c = refl
contains-end_run-false key k ((j, m) ∷ rs) c = ground (arith, contains-end_run-false key k rs)

Distinct-end_run :
    (key : ExperimentKey) (rs : List (ExperimentKey × ℕ))
    → Distinct (run_keys rs)
    → Distinct (run_keys (end_run key rs))
unfolding end_run
Distinct-end_run key [] d = tt
Distinct-end_run key ((k, m) ∷ rs) d = elim (Bool-cases (k == key)) [
  | inl same ↦ rw same d.1
  | inr other ↦ rw other (contains-end_run-false key k rs d.0, Distinct-end_run key rs d.1)
]

-- Once a run has ended its key is free.
ended :
    (key : ExperimentKey) (rs : List (ExperimentKey × ℕ))
    → Distinct (run_keys rs)
    → contains key (run_keys (end_run key rs)) ≡ false
unfolding end_run
ended key [] d = refl
ended key ((k, m) ∷ rs) d = elim (Bool-cases (k == key)) [
  | inl same ↦ rw same (subst (λ j. contains j (run_keys rs) ≡ false) ((eq_iff k key).0 same) d.0)
  | inr other ↦ rw other (rw other (ended key rs d.1))
]

All-end_run :
    (d : Dict ExperimentKey ExperimentRecord) (key : ExperimentKey) (rs : List (ExperimentKey × ℕ))
    → All (Registered d) rs
    → All (Registered d) (end_run key rs)
unfolding end_run
All-end_run d key [] a = tt
All-end_run d key ((k, m) ∷ rs) a = elim (Bool-cases (k == key)) [
  | inl same ↦ rw same a.1
  | inr other ↦ rw other (a.0, All-end_run d key rs a.1)
]

finish-MemoryCounted :
    (memory : ℕ) (s : State) (h e : String) (result : ExperimentResult)
    → contains (experiment_key h e) (run_keys s.runs) ≡ true
    → MemoryCounted memory s
    → MemoryCounted memory (record {
      registry = (finish s.registry h e result).0;
      runs = end_run (experiment_key h e) s.runs;
    })
finish-MemoryCounted memory s h e result there v =
    let key = experiment_key h e in
    let r = Registered-run s.experiments key s.runs there v.registered in
    let f = finish-IsFinished s.registry h e result r.limit r.held in
    let rest = end_run key s.runs in
    record {
      total = f.memory ∙ v.total;
      counted = omega (arith, f.reserved, v.counted, r.sum);
      within = omega (arith, v.within, r.sum);
      distinct = Distinct-end_run key s.runs v.distinct;
      registered =
          All-Registered s.experiments (finish s.registry h e result).0.experiments rest
            (λ k c. f.at k (apart key k rest (ended key s.runs v.distinct) c))
            (All-end_run s.experiments key s.runs v.registered);
    }

step-MemoryCounted :
    (memory : ℕ) (s : State) (e : Event)
    → 0 < memory
    → memory < 9223372036854775808
    → IsFresh s e
    → MemoryCounted memory s
    → MemoryCounted memory (step s e)
unfolding step
step-MemoryCounted memory s (starts h e limit) some_memory fits fresh v =
    begin-MemoryCounted memory s (experiment_key h e) limit (try_start s.registry h e limit) fits
      fresh.1 some_memory fresh.0 (try_start_outcome s.registry h e limit) v
step-MemoryCounted memory s (sets_cancel h e c) some_memory fits fresh v =
    MemoryCounted-kept memory s _ (set_cancel-IsKept s.registry h e c) v
step-MemoryCounted memory s (sets_running h e) some_memory fits fresh v =
    MemoryCounted-kept memory s _ (set_status-IsKept s.registry h e status_running) v
step-MemoryCounted memory s (cancels h e) some_memory fits fresh v =
    MemoryCounted-kept memory s _ (cancel-IsKept s.registry h e) v
step-MemoryCounted memory s (cancels_all order reason) some_memory fits fresh v =
    MemoryCounted-kept memory s _ (cancel_all-IsKept order s.registry reason) v
step-MemoryCounted memory s (finishes h e result) some_memory fits fresh v =
    elim (Bool-cases (contains (experiment_key h e) (run_keys s.runs))) [
      | inr absent ↦ rw absent v
      | inl there ↦ rw there (finish-MemoryCounted memory s h e result there v)
    ]

run-MemoryCounted :
    (memory : ℕ) (s : State) (es : List Event)
    → 0 < memory
    → memory < 9223372036854775808
    → AreFresh s es
    → MemoryCounted memory s
    → MemoryCounted memory (run s es)
unfolding run
run-MemoryCounted memory s [] some_memory fits fresh v = v
run-MemoryCounted memory s (e ∷ es) some_memory fits fresh v =
    run-MemoryCounted memory (step s e) es some_memory fits fresh.1
      (step-MemoryCounted memory s e some_memory fits fresh.0 v)

-- On a node with limited memory, below 2^63 bytes, and as long as no experiment is started again
-- before its run has ended and limits are below 2^63: the reserved memory is at every moment the sum
-- of the limits of the runs under way, and within the memory of the node.
pub run-start-MemoryCounted :
    (slots memory : ℕ) (es : List Event)
    → 0 < memory
    → memory < 9223372036854775808
    → AreFresh (start slots memory) es
    → MemoryCounted memory (run (start slots memory) es)
run-start-MemoryCounted slots memory es some_memory fits fresh =
    run-MemoryCounted memory (start slots memory) es some_memory fits fresh (
      unfold start new_registry in
      record { total = refl; counted = refl; within = omega arith; distinct = tt; registered = tt })
