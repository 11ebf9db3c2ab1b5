-- ===== src/ControlPlane/PendingQueue/Refinement.antt =====
-- The pending queue against its contract: a first-in first-out list of records with distinct keys,
-- with no index.
use go_cloud_des.Prelude.{
  ℕ, ◌+◌, ◌≡◌, String, refl, ap, Bool, false, not, Option, none, some, List, [], ◌∷◌, ◌++◌, map,
  arith, ◌==◌, if◌then◌else◌, length, contains, ℤ, string_eq, take, drop, keep,
}
use go_cloud_des.ControlPlane.PendingQueue.{
  ScheduleExperimentRecord, PendingQueue, new_pending_queue, record_key, stamp, enqueue,
  enqueue_loop, enqueue_many, pop_batch, batch_size, filter_loop, remove, queue_key,
}
use go_cloud_des.ControlPlane.PendingQueue.Invariant.{
  IsSynced, new_pending_queue-IsSynced, enqueue-IsSynced, enqueue_loop-IsSynced, remove-IsSynced,
  pop_batch_lem, pop-IsSynced, without_all,
}

pub data Call : Type 0 where
  enqueues : ℕ → List (Option ScheduleExperimentRecord) → Call
  pops : ℤ → Call
  removes : String → String → Call

pub data Reply : Type 0 where
  added : ℕ → Reply
  batch : List ScheduleExperimentRecord → Reply
  removed : Bool → Reply

-- `none` is a panic.
step : PendingQueue → Call → Option (PendingQueue × Reply)
step q (enqueues now rs) = let (q', n) = enqueue_many now q rs in some (q', added n)
step q (pops limit) = elim (pop_batch q limit) [ none ↦ none | some (q', rs) ↦ some (q', batch rs) ]
step q (removes h e) = let (q', b) = remove q h e in some (q', removed b)

abbrev consed : Reply → Option (PendingQueue × List Reply) → Option (PendingQueue × List Reply)
consed r none = none
consed r (some (q, rs)) = some (q, r ∷ rs)

pub run : PendingQueue → List Call → Option (PendingQueue × List Reply)
run q [] = some (q, [])
run q (c ∷ cs) = elim (step q c) [ none ↦ none | some (q', r) ↦ consed r (run q' cs) ]

abbrev Waiting : Type 0
Waiting = List ScheduleExperimentRecord

abbrev waits : String → Waiting → Bool
waits key xs = contains key (map record_key xs)

-- The contract, over the list of the records that wait.
spec_enqueue : ℕ → ℕ → Waiting → List (Option ScheduleExperimentRecord) → Waiting × ℕ
spec_enqueue now n xs [] = (xs, n)
spec_enqueue now n xs (none ∷ rs) = spec_enqueue now n xs rs
spec_enqueue now n xs (some r ∷ rs) =
    let old = waits (record_key r) xs in
    spec_enqueue now (if old then n else n + 1) (if old then xs else xs ++ stamp now r ∷ []) rs

spec_step : Waiting → Call → Waiting × Reply
spec_step xs (enqueues now rs) = let (ys, n) = spec_enqueue now 0 xs rs in (ys, added n)
spec_step xs (pops limit) = let n = batch_size limit (length xs) in (drop n xs, batch (take n xs))
spec_step xs (removes h e) =
    let key = queue_key h e in (keep (λ r. not (record_key r == key)) xs, removed (waits key xs))

pub spec_run : Waiting → List Call → Waiting × List Reply
spec_run xs [] = (xs, [])
spec_run xs (c ∷ cs) = let (ys, r) = spec_step xs c in let (zs, rs) = spec_run ys cs in (zs, r ∷ rs)

enqueue-eq-spec :
    (now n : ℕ) (q : PendingQueue) (rs : List (Option ScheduleExperimentRecord))
    → IsSynced q
    → let (q', m) = enqueue_loop now n q rs in (q'.items, m) ≡ spec_enqueue now n q.items rs
unfolding enqueue_loop spec_enqueue enqueue
enqueue-eq-spec now n q [] v = refl
enqueue-eq-spec now n q (none ∷ rs) v = enqueue-eq-spec now n q rs v
enqueue-eq-spec now n q (some r ∷ rs) v =
    let (q', ok) = enqueue now q (some r) in
    let ih =
      enqueue-eq-spec now (if ok then n + 1 else n) q' rs (enqueue-IsSynced now q (some r) v) in
    ground (arith, v.synced (record_key r), ih)

filter_loop-eq-keep :
    (key : String) (xs : Waiting) → filter_loop key xs ≡ keep (λ r. not (record_key r == key)) xs
unfolding filter_loop
filter_loop-eq-keep key [] = refl
filter_loop-eq-keep key (x ∷ xs) = ground (arith, filter_loop-eq-keep key xs)

-- `step` does what the contract says, and keeps the index.
record Simulates (xs : Waiting × Reply) (o : Option (PendingQueue × Reply)) : Type 0 where
  queue : PendingQueue
  result : o ≡ some (queue, xs.1)
  items : queue.items ≡ xs.0
  synced : IsSynced queue

keep_absent :
    (key : String) (xs : Waiting)
    → waits key xs ≡ false
    → keep (λ r. not (record_key r == key)) xs ≡ xs
keep_absent key [] h = refl
keep_absent key (x ∷ xs) h = ground (arith, keep_absent key xs)

remove-contract :
    (q : PendingQueue) (h e : String)
    → IsSynced q
    → let (q', b) = remove q h e in
      (q'.items ≡ keep (λ r. not (record_key r == queue_key h e)) q.items)
      × (b ≡ waits (queue_key h e) q.items)
unfolding remove
remove-contract q h e v = ground (
  arith,
  v.synced (queue_key h e),
  filter_loop-eq-keep (queue_key h e) q.items,
  keep_absent (queue_key h e) q.items,
)

step-Simulates :
    (q : PendingQueue) (c : Call) → IsSynced q → Simulates (spec_step q.items c) (step q c)
unfolding step spec_step
step-Simulates q (enqueues now rs) v =
    let same = enqueue-eq-spec now 0 q rs v in
    record {
      queue = (enqueue_many now q rs).0;
      result = unfold enqueue_many in ap (λ r. some ((enqueue_many now q rs).0, added r.1)) same;
      items = unfold enqueue_many in ap (λ r. r.0) same;
      synced = unfold enqueue_many in enqueue_loop-IsSynced now 0 q rs v;
    }
step-Simulates q (pops limit) v =
    let n = batch_size limit (length q.items) in
    record {
      queue = record { items = drop n q.items; index = without_all q.index (take n q.items) };
      result = rw (pop_batch_lem q limit, step);
      items = refl;
      synced = pop-IsSynced n q.items q.index v;
    }
step-Simulates q (removes h e) v = record {
  queue = (remove q h e).0;
  result = ap (λ b. some ((remove q h e).0, removed b)) (remove-contract q h e v).1;
  items = (remove-contract q h e v).0;
  synced = remove-IsSynced q h e v;
}

-- What a run of calls promises: no panic, the replies and the waiting records of the contract.
abbrev pub Implements : Waiting × List Reply → Option (PendingQueue × List Reply) → Type 0
Implements (xs, rs) o = (q : PendingQueue) × (o ≡ some (q, rs)) × (q.items ≡ xs) × IsSynced q

run-Implements :
    (cs : List Call) (q : PendingQueue) → IsSynced q → Implements (spec_run q.items cs) (run q cs)
unfolding run spec_run
run-Implements [] q v = (q, refl, refl, v)
run-Implements (c ∷ cs) q v =
    let s = step-Simulates q c v in
    let rest = run-Implements cs s.queue s.synced in
    let (q', returns, items, synced) = rw s.items at rest in
    (q', rw (s.result, run) (rw returns refl), items, synced)

-- Any calls on a new queue return, and with the replies of the first-in first-out list.
pub run-eq-contract : (cs : List Call) → Implements (spec_run [] cs) (run new_pending_queue cs)
run-eq-contract cs =
    unfold new_pending_queue in run-Implements cs new_pending_queue new_pending_queue-IsSynced
