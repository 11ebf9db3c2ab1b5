-- ===== src/ControlPlane/PendingQueue/Invariant.antt =====
-- The index of the pending queue holds exactly the keys of its items, and no key is queued twice,
-- after any sequence of calls.
use mathlib.Core.List.{append-nil, append_assoc}
use go_cloud_des.Prelude.{
  ℕ, zero, suc, ◌+◌, ◌≡◌, ◌≤◌, ◌∙◌, String, sym, ap, false, Option, none, some, List, [], ◌∷◌, ◌++◌,
  map, arith, ◌==◌, if◌then◌else◌, length, contains, ℤ, pos, negsuc, string_eq, nat_eq, Distinct,
  contains-append, Distinct-append_one, Bool-cases, eq_iff, take, drop, inl, inr,
}
use go_cloud_des.Dict
use go_cloud_des.Dict.{Dict, get-put, get-remove, get-empty, has-empty, has-put, has-remove}
use go_cloud_des.ControlPlane.PendingQueue.{
  ScheduleExperimentRecord, PendingQueue, new_pending_queue, record_key, stamp, enqueue,
  enqueue_loop, pop_loop, pop_batch, batch_size, filter_loop, remove, keys, queue_key,
}

pub record IsSynced (q : PendingQueue) : Type 0 where
  pub synced : (k : String) → Dict.has q.index k ≡ contains k (keys q)
  pub distinct : Distinct (keys q)

pub new_pending_queue-IsSynced : IsSynced new_pending_queue
unfolding new_pending_queue
new_pending_queue-IsSynced = record { synced = λ k. has-empty (Unit {0}) k; distinct = tt }

pub record_key-stamp :
    (now : ℕ) (r : ScheduleExperimentRecord) → record_key (stamp now r) ≡ record_key r
unfolding stamp
record_key-stamp now r = ground arith

pub keys-append :
    (now : ℕ) (xs : List ScheduleExperimentRecord) (r : ScheduleExperimentRecord)
    → map record_key (xs ++ stamp now r ∷ []) ≡ map record_key xs ++ record_key r ∷ []
keys-append now [] r = rw (record_key-stamp now r)
keys-append now (x ∷ xs) r = ap (◌∷◌ (record_key x)) (keys-append now xs r)

pub enqueue-IsSynced :
    (now : ℕ) (q : PendingQueue) (r : Option ScheduleExperimentRecord)
    → IsSynced q
    → IsSynced (enqueue now q r).0
unfolding enqueue
enqueue-IsSynced now q none v = v
enqueue-IsSynced now q (some r) v = elim (Bool-cases (Dict.has q.index (record_key r))) [
  | inl old ↦ rw old v
  | inr new ↦ rw new (record {
    synced = λ k.
        rw (keys-append now q.items r, contains-append k (keys q) (record_key r ∷ []))
          (ground (arith, has-put q.index (record_key r) k tt, v.synced k));
    distinct = rw (keys-append now q.items r) (
        Distinct-append_one (keys q) (record_key r) (sym (v.synced (record_key r)) ∙ new)
          v.distinct);
  })
]

pub enqueue_loop-IsSynced :
    (now added : ℕ) (q : PendingQueue) (rs : List (Option ScheduleExperimentRecord))
    → IsSynced q
    → IsSynced (enqueue_loop now added q rs).0
unfolding enqueue_loop
enqueue_loop-IsSynced now added q [] v = v
enqueue_loop-IsSynced now added q (r ∷ rs) v =
    enqueue_loop-IsSynced now (if (enqueue now q r).1 then added + 1 else added) (enqueue now q r).0
      rs (enqueue-IsSynced now q r v)

-- The index after the keys of the popped records are deleted.
pub without_all : Dict String (Unit {0}) → List ScheduleExperimentRecord → Dict String (Unit {0})
without_all d [] = d
without_all d (r ∷ rs) = without_all (Dict.remove d (record_key r)) rs

pub pop_loop_lem :
    (n : ℕ) (xs out : List ScheduleExperimentRecord) (d : Dict String (Unit {0}))
    → n ≤ length xs
    → pop_loop n (record { items = xs; index = d }) out
      ≡ some (record { items = drop n xs; index = without_all d (take n xs) }, out ++ take n xs)
unfolding pop_loop without_all
pop_loop_lem zero xs out d h = rw append-nil
pop_loop_lem (suc n) [] out d h = absurd (omega arith)
pop_loop_lem (suc n) (x ∷ xs) out d h =
    rw
      (pop_loop_lem n xs (out ++ x ∷ []) (Dict.remove d (record_key x)) (omega arith), append_assoc)

-- Deleting the keys of the records in front leaves the keys of the others.
pub pop-IsSynced :
    (n : ℕ) (xs : List ScheduleExperimentRecord) (d : Dict String (Unit {0}))
    → IsSynced (record { items = xs; index = d })
    → IsSynced (record { items = drop n xs; index = without_all d (take n xs) })
unfolding without_all
pop-IsSynced zero xs d v = v
pop-IsSynced (suc n) [] d v = v
pop-IsSynced (suc n) (x ∷ xs) d v = pop-IsSynced n xs (Dict.remove d (record_key x)) (record {
  synced = λ k.
      ground
        (arith, has-remove d (record_key x) k, v.synced k, v.distinct, eq_iff (record_key x) k);
  distinct = v.distinct.1;
})

pub batch_size-le : (limit : ℤ) (n : ℕ) → batch_size limit n ≤ n
unfolding batch_size
batch_size-le (pos limit) n = ground arith
batch_size-le (negsuc limit) n = omega arith

-- For every limit, the batch is the front of the queue, in order, and the rest stays; the loop
-- never reads past the end.
pub pop_batch_lem :
    (q : PendingQueue) (limit : ℤ)
    → let n = batch_size limit (length q.items) in
      pop_batch q limit
      ≡ some (
        record { items = drop n q.items; index = without_all q.index (take n q.items) },
        take n q.items,
      )
unfolding pop_batch
pop_batch_lem q limit =
    pop_loop_lem (batch_size limit (length q.items)) q.items [] q.index
      (batch_size-le limit (length q.items))

contains-filter :
    (key k : String) (xs : List ScheduleExperimentRecord)
    → contains k (map record_key (filter_loop key xs))
      ≡ (if key == k then false else contains k (map record_key xs))
unfolding filter_loop
contains-filter key k [] = ground arith
contains-filter key k (x ∷ xs) = ground (
  arith,
  contains-filter key k xs,
  eq_iff (record_key x) key,
  eq_iff (record_key x) k,
  eq_iff key k,
)

Distinct-filter :
    (key : String) (xs : List ScheduleExperimentRecord)
    → Distinct (map record_key xs)
    → Distinct (map record_key (filter_loop key xs))
unfolding filter_loop
Distinct-filter key [] d = tt
Distinct-filter key (x ∷ xs) d =
    ground (arith, Distinct-filter key xs d.1, contains-filter key (record_key x) xs)

pub remove-IsSynced :
    (q : PendingQueue) (model_hash experiment_id : String)
    → IsSynced q
    → IsSynced (remove q model_hash experiment_id).0
unfolding remove
remove-IsSynced q model_hash experiment_id v =
    let key = queue_key model_hash experiment_id in
    elim (Bool-cases (Dict.has q.index key)) [
      | inl queued ↦ rw queued (record {
        synced = λ k.
            rw (contains-filter key k q.items)
              (ground (arith, has-remove q.index key k, v.synced k));
        distinct = Distinct-filter key q.items v.distinct;
      })
      | inr absent ↦ rw absent v
    ]
