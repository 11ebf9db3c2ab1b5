-- ===== src/ControlPlane/PendingQueue.antt =====
-- controlplane/pending_queue.go: the experiments that wait for a node. A method that mutates the
-- queue returns the new queue; `time.Now()` is the argument `now`, and the zero `time.Time` is 0.
pub mod Invariant
pub mod Refinement
pub mod Keys
use Prim.Native.String.{◌++◌ as append}
use go_cloud_des.Prelude.{
  ℕ, zero, suc, ◌+◌, ◌-◌, ◌≡◌, String, refl, Bool, true, false, ◌||◌, not, Option, none, some, List,
  [], ◌∷◌, ◌++◌, map, arith, ◌==◌, if◌then◌else◌, length, contains, ltb, ℤ, pos, negsuc, string_eq,
  nat_eq,
}
use go_cloud_des.Dict
use go_cloud_des.Dict.{Dict}

pub record SetVar : Type 0 where
  pub name : String
  pub value : String

pub record StopRule : Type 0 where
  pub left : String
  pub op : String
  pub right : String

-- `metric_step` is a float64 that is only handed on, kept as its bit pattern.
pub record ScheduleExperimentRecord : Type 0 where
  pub batch_id : String
  pub model_hash : String
  pub experiment_id : String
  pub goos : String
  pub goarch : String
  pub binary_key : String
  pub binary_sha256 : String
  pub set_vars : List SetVar
  pub stop_rule : Option StopRule
  pub metrics : List String
  pub metric_step : ℕ
  pub store_metrics : Bool
  pub memory_limit_bytes : ℕ
  pub run_timeout_ms : ℕ
  pub pending_since : ℕ

pub record PendingQueue : Type 0 where
  pub items : List ScheduleExperimentRecord
  pub index : Dict String (Unit {0})

unfoldable pub new_pending_queue : PendingQueue
new_pending_queue = record { items = []; index = Dict.empty }

unfoldable pub queue_key : String → String → String
queue_key model_hash experiment_id = append model_hash (append ":" experiment_id)

abbrev pub record_key : ScheduleExperimentRecord → String
record_key r = queue_key r.model_hash r.experiment_id

-- `if record.PendingSince.IsZero() { record.PendingSince = time.Now() }`
unfoldable pub stamp : ℕ → ScheduleExperimentRecord → ScheduleExperimentRecord
stamp now r = if r.pending_since == 0 then record r { pending_since = now } else r

unfoldable pub enqueue : ℕ → PendingQueue → Option ScheduleExperimentRecord → PendingQueue × Bool
enqueue now q none = (q, false)
enqueue now q (some r) =
    let key = record_key r in
    if Dict.has q.index key
    then (q, false)
    else (record { items = q.items ++ stamp now r ∷ []; index = Dict.put q.index key tt }, true)

pub enqueue_loop : ℕ → ℕ → PendingQueue → List (Option ScheduleExperimentRecord) → PendingQueue × ℕ
enqueue_loop now added q [] = (q, added)
enqueue_loop now added q (r ∷ rs) =
    let (q', ok) = enqueue now q r in enqueue_loop now (if ok then added + 1 else added) q' rs

unfoldable pub enqueue_many :
    ℕ → PendingQueue → List (Option ScheduleExperimentRecord) → PendingQueue × ℕ
unfolding enqueue_loop
enqueue_many now q rs = enqueue_loop now 0 q rs

-- One round reads `q.items[0]`; `none` is the panic of a read past the end.
pub pop_loop :
    ℕ
    → PendingQueue
    → List ScheduleExperimentRecord
    → Option (PendingQueue × List ScheduleExperimentRecord)
pop_loop zero q result = some (q, result)
pop_loop (suc n) q result = elim q.items [
  | [] ↦ none
  | r ∷ rest ↦
      pop_loop n (record { items = rest; index = Dict.remove q.index (record_key r) })
        (result ++ r ∷ [])
]

-- `if limit <= 0 || limit > len(q.items) { limit = len(q.items) }`
unfoldable pub batch_size : ℤ → ℕ → ℕ
batch_size (pos limit) n = if limit == 0 || ltb n limit then n else limit
batch_size (negsuc _) n = n

unfoldable pub pop_batch : PendingQueue → ℤ → Option (PendingQueue × List ScheduleExperimentRecord)
unfolding pop_loop batch_size
pop_batch q limit = pop_loop (batch_size limit (length q.items)) q []

unfoldable pub len : PendingQueue → ℕ
len q = length q.items

pub filter_loop : String → List ScheduleExperimentRecord → List ScheduleExperimentRecord
filter_loop key [] = []
filter_loop key (item ∷ items) =
    let rest = filter_loop key items in if record_key item == key then rest else item ∷ rest

unfoldable pub remove : PendingQueue → String → String → PendingQueue × Bool
unfolding filter_loop
remove q model_hash experiment_id =
    let key = queue_key model_hash experiment_id in
    if Dict.has q.index key
    then (record { items = filter_loop key q.items; index = Dict.remove q.index key }, true)
    else (q, false)

-- The keys of the records, front first.
abbrev pub keys : PendingQueue → List String
keys q = map record_key q.items
