-- ===== src/Dispatcher/Registry/Accounts/Leak.antt =====
-- A restart of a canceled run in dispatcher/registry.go: Cancel makes the record inactive while the
-- process still runs, so TryStart may replace it, and with it what the first run has reserved.
use go_cloud_des.Prelude.{
  ℕ, ◌+◌, ◌≤◌, ◌<◌, ◌≡◌, ◌∙◌, inr, refl, ap, String, false, some, List, [], ◌∷◌, arith, u64_mod,
  string_eq, nat_eq, beq_refl,
}
use go_cloud_des.Dict
use go_cloud_des.Dict.{Dict, get-put, get-remove, get-empty, get-put_self, get-put_ne}
use go_cloud_des.Dispatcher.Types.{
  ExperimentKey, key_eq, experiment_key, ExperimentResult, is_active_status, status_starting,
}
use go_cloud_des.Dispatcher.Registry.{
  ExperimentRecord, Registry, new_registry, is_active, canceled_record, cancel, finish,
}
use go_cloud_des.Dispatcher.Registry.Accounts.{
  State, end_run, Event, starts, cancels, finishes, begin, step, run, start,
}
use go_cloud_des.Dispatcher.Registry.Starting.{Accepted, try_start_accepts}
use go_cloud_des.Dispatcher.Registry.Cancellation.{cancel_lem}
use go_cloud_des.Dispatcher.Registry.Accounts.Kept.{
  IsKept, cancel-IsKept, finish-IsFinished, reserved_at,
}

-- A run is started, canceled and started again before its end; then both runs end.
abbrev pub restart : String → String → ℕ → ℕ → ExperimentResult → ExperimentResult → List Event
restart h e m n first second =
    starts h e m ∷ cancels h e ∷ starts h e n ∷ finishes h e first ∷ finishes h e second ∷ []

step-started :
    (s : State) (h e : String) (limit : ℕ) (a : Accepted s.registry h e limit)
    → step s (starts h e limit)
      ≡ record { registry = a.registry; runs = (experiment_key h e, limit) ∷ s.runs }
unfolding step begin
step-started s h e limit a = ap (begin s (experiment_key h e) limit) a.answer

-- What stays of a registry over the calls below.
record Counts (slots memory used reserved : ℕ) (r : Registry) : Type 0 where
  total : r.total_slots ≡ slots
  limit : r.total_memory_bytes ≡ memory
  used_slots : r.used_slots ≡ used
  reserved_bytes : r.reserved_memory_bytes ≡ reserved

module _ (slots memory : ℕ) (h e : String) (two_slots : 2 ≤ slots) (word : slots < u64_mod)
    (some_memory : 0 < memory) (fits : memory < 9223372036854775808) where
  accepts :
      (r : Registry) (m used reserved : ℕ)
      → Counts slots memory used reserved r
      → used < 2
      → reserved + m ≤ memory
      → is_active (Dict.get r.experiments (experiment_key h e)) ≡ false
      → (a : Accepted r h e m) × Counts slots memory (used + 1) (reserved + m) a.registry
  accepts r m used reserved c free room idle =
      let a =
        try_start_accepts r h e m idle (inr (omega (arith, c.total, c.used_slots)))
          (inr (inr (omega (arith, c.limit, c.reserved_bytes)))) in
      let (i, sl, me, at, l, st, ts, tm, others, used, mem) = a.says in
      (
        a,
        record {
          total = ts ∙ c.total;
          limit = tm ∙ c.limit;
          used_slots = omega (arith, used, c.used_slots);
          reserved_bytes = omega (arith, mem, c.reserved_bytes);
        },
      )

  Counts-kept :
      (used reserved : ℕ) (r r' : Registry)
      → IsKept r r'
      → Counts slots memory used reserved r
      → Counts slots memory used reserved r'
  Counts-kept used reserved r r' k c = record {
    total = k.slots ∙ c.total;
    limit = k.memory ∙ c.limit;
    used_slots = k.used ∙ c.used_slots;
    reserved_bytes = k.reserved ∙ c.reserved_bytes;
  }

canceled-idle :
    (r : Registry) (h e : String) (rec : ExperimentRecord)
    → Dict.get r.experiments (experiment_key h e) ≡ some rec
    → rec.result.status ≡ status_starting
    → is_active (Dict.get (cancel r h e).0.experiments (experiment_key h e)) ≡ false
canceled-idle r h e rec found starting =
    rw ((cancel_lem r h e rec found (rw starting (unfold is_active_status in refl))).1)
      (unfold is_active canceled_record is_active_status in refl)

step-finished :
    (r : Registry) (h e : String) (result : ExperimentResult) (m : ℕ)
    (rest : List (ExperimentKey × ℕ))
    → step (record { registry = r; runs = (experiment_key h e, m) ∷ rest }) (finishes h e result)
      ≡ record { registry = (finish r h e result).0; runs = rest }
unfolding step end_run
step-finished r h e result m rest = rw (beq_refl (experiment_key h e)) refl

restart-run :
    (r : Registry) (h e : String) (m n : ℕ) (first second : ExperimentResult) (a : Accepted r h e m)
    (b : Accepted (cancel a.registry h e).0 h e n)
    → run (record { registry = r; runs = [] }) (restart h e m n first second)
      ≡ record { registry = (finish (finish b.registry h e first).0 h e second).0; runs = [] }
unfolding run step
restart-run r h e m n first second a b =
    let key = experiment_key h e in
    let ends = finishes h e first ∷ finishes h e second ∷ [] in
    ap (λ s. run s (cancels h e ∷ starts h e n ∷ ends))
      (step-started (record { registry = r; runs = [] }) h e m a)
    ∙ ap (λ s. run s ends)
        (step-started (record { registry = (cancel a.registry h e).0; runs = (key, m) ∷ [] }) h e n
          b)
    ∙ ap (λ s. run s (finishes h e second ∷ []))
        (step-finished b.registry h e first n ((key, m) ∷ []))
    ∙ step-finished (finish b.registry h e first).0 h e second m []

Accepted-reserved_at :
    (r : Registry) (h e : String) (limit : ℕ) (a : Accepted r h e limit)
    → reserved_at a.registry.experiments (experiment_key h e) ≡ some limit
Accepted-reserved_at r h e limit a =
    let (i, sl, me, at, l, st, ts, tm, others, used, mem) = a.says in
    rw (at, reserved_at) (ap some l)

-- A run is started with the limit m in an empty registry, canceled, and started again with n before
-- its Finish. After both calls of Finish no run is under way and no slot is used, but the m bytes of
-- the first run stay reserved. This holds for 2 slots or more, and limits whose sum fits the memory.
pub restart-leaks :
    (slots memory : ℕ) (h e : String) (m n : ℕ) (first second : ExperimentResult)
    → 2 ≤ slots
    → slots < u64_mod
    → 0 < memory
    → memory < 9223372036854775808
    → m + n ≤ memory
    → let s = run (start slots memory) (restart h e m n first second) in
      (s.runs ≡ []) × (s.used_slots ≡ 0) × (s.reserved_memory_bytes ≡ m)
unfolding start new_registry
restart-leaks slots memory h e m n first second two word some_memory fits room =
    let key = experiment_key h e in
    let r = new_registry slots memory in
    let (a, c) =
      accepts slots memory h e two word some_memory fits r m 0 0
        (record { total = refl; limit = refl; used_slots = refl; reserved_bytes = refl })
        (omega arith) (omega arith) (rw get-empty (unfold is_active in refl)) in
    let (i, sl, me, at, l, st, ts, tm, others, used, mem) = a.says in
    let (b, d) =
      accepts slots memory h e two word some_memory fits (cancel a.registry h e).0 n (0 + 1) (0 + m)
        (Counts-kept slots memory h e two word some_memory fits (0 + 1) (0 + m) a.registry
          (cancel a.registry h e).0 (cancel-IsKept a.registry h e) c)
        (omega arith) (omega (arith, room)) (canceled-idle a.registry h e a.rec at st) in
    let f =
      finish-IsFinished b.registry h e first n
        (Accepted-reserved_at (cancel a.registry h e).0 h e n b) in
    let g = finish-IsFinished (finish b.registry h e first).0 h e second 0 f.at_key in
    rw (restart-run r h e m n first second a b) (
      refl,
      omega (arith, g.used, f.used, d.used_slots),
      omega (arith, g.reserved, f.reserved, d.reserved_bytes),
    )
