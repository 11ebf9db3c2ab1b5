-- ===== src/Dispatcher/Registry/Starting.antt =====
-- TryStart of dispatcher/registry.go on every branch.
use go_cloud_des.Prelude.{
  ℕ, ◌≤◌, ◌<◌, ◌≡◌, ◌≢◌, ◌⊎◌, inl, inr, refl, String, true, false, ◌&&◌, some, arith, ltb, leb,
  add64, string_eq, nat_eq, Bool-cases, beq_refl, ◌+◌, u64_mod,
}
use go_cloud_des.Dict
use go_cloud_des.Dict.{Dict, get-put, get-remove, get-empty, get-put_ne}
use go_cloud_des.Dispatcher.Types.{ExperimentKey, key_eq, experiment_key, status_starting}
use go_cloud_des.Dispatcher.Registry.{
  ExperimentRecord, Registry, new_record, is_active, Start, started, rejected, try_start,
}

-- There is a free slot, where the number of slots is limited.
abbrev pub HasSlot : Registry → Type 0
HasSlot r = (r.total_slots ≡ 0) ⊎ (r.used_slots < r.total_slots)

-- The limit fits the memory beside what is reserved, where both are limited.
abbrev pub HasMemory : Registry → ℕ → Type 0
HasMemory r limit =
    (r.total_memory_bytes ≡ 0)
    ⊎ (limit ≡ 0)
    ⊎ (r.reserved_memory_bytes + limit ≤ r.total_memory_bytes)

-- The same with the sum of the code, which wraps at 2^64.
abbrev pub PassesMemory : Registry → ℕ → Type 0
PassesMemory r limit =
    (r.total_memory_bytes ≡ 0)
    ⊎ (limit ≡ 0)
    ⊎ (add64 r.reserved_memory_bytes limit ≤ r.total_memory_bytes)

-- What each answer of TryStart says of the registry before the call, with memory by `M`.
abbrev pub Answers :
    (Registry → ℕ → Type 0) → Registry → ExperimentKey → ℕ → Registry × Start → Type 0
Answers M r key limit (r', started rec) =
    (is_active (Dict.get r.experiments key) ≡ false)
    × HasSlot r
    × M r limit
    × (Dict.get r'.experiments key ≡ some rec)
    × (rec.memory_reserved ≡ limit)
    × (rec.result.status ≡ status_starting)
    × (r'.total_slots ≡ r.total_slots)
    × (r'.total_memory_bytes ≡ r.total_memory_bytes)
    × ((k : ExperimentKey) → key ≢ k → Dict.get r'.experiments k ≡ Dict.get r.experiments k)
    × (r'.used_slots ≡ add64 r.used_slots 1)
    × (r'.reserved_memory_bytes ≡ add64 r.reserved_memory_bytes limit)
Answers M r key limit (r', rejected code) =
    (r' ≡ r)
    × (((code ≡ "experiment_already_running") × (is_active (Dict.get r.experiments key) ≡ true))
        ⊎ ((code ≡ "no_free_slots") × ¬ HasSlot r)
        ⊎ ((code ≡ "not_enough_memory") × ¬ M r limit))

-- The answers with the sum of the code.
pub try_start_outcome :
    (r : Registry) (model_hash experiment_id : String) (limit : ℕ)
    → Answers PassesMemory r
        (experiment_key model_hash experiment_id)
        limit
        (try_start r model_hash experiment_id limit)
unfolding try_start
try_start_outcome r model_hash experiment_id limit =
    let key = experiment_key model_hash experiment_id in
    let active = is_active (Dict.get r.experiments key) in
    let full = ltb 0 r.total_slots && leb r.total_slots r.used_slots in
    let tight =
      ltb 0 r.total_memory_bytes
      && ltb 0 limit
      && ltb r.total_memory_bytes (add64 r.reserved_memory_bytes limit) in
    elim (Bool-cases active) [
      | inl e ↦ rw e (refl, inl (refl, e))
      | inr idle ↦ elim (Bool-cases full) [
        | inl e ↦ rw (idle, e) (refl, inr (inl (refl, λ h. ground arith)))
        | inr free ↦ elim (Bool-cases tight) [
          | inl e ↦ rw (idle, free, e) (refl, inr (inr (refl, λ h. ground arith)))
          | inr fits ↦
              rw (idle, free, fits)
                (
                  idle,
                  ground arith,
                  ground arith,
                  rw (get-put, beq_refl key),
                  unfold new_record in refl,
                  unfold new_record in refl,
                  refl,
                  refl,
                  λ k other.
                      get-put_ne r.experiments key k (new_record model_hash experiment_id limit)
                        other,
                  refl,
                  refl,
                )
        ]
      ]
    ]

Answers-HasMemory :
    (r : Registry) (key : ExperimentKey) (limit : ℕ) (a : Registry × Start)
    → r.reserved_memory_bytes + limit < u64_mod
    → Answers PassesMemory r key limit a
    → Answers HasMemory r key limit a
Answers-HasMemory r key limit (r', started rec) b
      (idle, slot, fits, at, memory, status, slots, total, others, used, reserved) =
    (idle, slot, ground (arith, fits), at, memory, status, slots, total, others, used, reserved)
Answers-HasMemory r key limit (r', rejected code) b (same, inl active) = (same, inl active)
Answers-HasMemory r key limit (r', rejected code) b (same, inr (inl full)) = (same, inr (inl full))
Answers-HasMemory r key limit (r', rejected code) b (same, inr (inr (c, tight))) =
    (same, inr (inr (c, λ h. tight (ground (arith, h)))))

-- Where the reserved memory and the limit sum below 2^64, TryStart starts an experiment exactly if
-- none under its key is active, a slot is free and the memory holds the limit beside what is
-- reserved; then the new record stands under the key, the other records are as they were, and one
-- slot and the limit are taken. A rejection changes nothing and names a condition that fails.
pub try_start-Answers :
    (r : Registry) (model_hash experiment_id : String) (limit : ℕ)
    → r.reserved_memory_bytes + limit < u64_mod
    → Answers HasMemory r
        (experiment_key model_hash experiment_id)
        limit
        (try_start r model_hash experiment_id limit)
try_start-Answers r model_hash experiment_id limit b =
    Answers-HasMemory r (experiment_key model_hash experiment_id) limit
      (try_start r model_hash experiment_id limit) b
      (try_start_outcome r model_hash experiment_id limit)

-- The answer of a TryStart that nothing stands against.
pub record Accepted (r : Registry) (h e : String) (limit : ℕ) : Type 0 where
  pub registry : Registry
  pub rec : ExperimentRecord
  pub answer : try_start r h e limit ≡ (registry, started rec)
  pub says : Answers PassesMemory r (experiment_key h e) limit (registry, started rec)

pub try_start_accepts :
    (r : Registry) (h e : String) (limit : ℕ)
    → is_active (Dict.get r.experiments (experiment_key h e)) ≡ false
    → HasSlot r
    → PassesMemory r limit
    → Accepted r h e limit
try_start_accepts r h e limit idle slot memory =
    decide (try_start r h e limit) refl (try_start_outcome r h e limit)
  where
    decide :
        (a : Registry × Start)
        → try_start r h e limit ≡ a
        → Answers PassesMemory r (experiment_key h e) limit a
        → Accepted r h e limit
    decide (r', started rec) q a = record { registry = r'; rec = rec; answer = q; says = a }
    decide (r', rejected code) q (same, inl (c, active)) = absurd (cc)
    decide (r', rejected code) q (same, inr (inl (c, full))) = absurd (full slot)
    decide (r', rejected code) q (same, inr (inr (c, tight))) = absurd (tight memory)
