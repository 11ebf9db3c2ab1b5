-- ===== src/Dispatcher/Registry/Accounts/Kept.antt =====
-- What the methods of dispatcher/registry.go other than TryStart and Finish leave alone.
use go_cloud_des.Prelude.{
  ℕ, ◌+◌, ◌-◌, ◌≡◌, ◌≢◌, ◌∙◌, inl, inr, refl, String, Option, none, some, List, [], ◌∷◌, ◌++◌,
  arith, string_eq, nat_eq, Bool-cases, Option-cases, eq_iff,
}
use go_cloud_des.Dict
use go_cloud_des.Dict.{Dict, get-put, get-remove, get-empty, get-put_self, get-put_ne}
use go_cloud_des.Dispatcher.Types.{
  ExperimentKey, key_eq, experiment_key, ExperimentResult, is_active_status,
}
use go_cloud_des.Dispatcher.Registry.{
  ExperimentRecord, Registry, modify, set_cancel, set_status, canceled_record, cancel, finish,
}
use go_cloud_des.Dispatcher.Registry.Overview.{cancel_all, cancel_all_loop, canceled_by}

-- The memory that is reserved under a key.
abbrev pub reserved_at : Dict ExperimentKey ExperimentRecord → ExperimentKey → Option ℕ
reserved_at d k = elim (Dict.get d k) [ none ↦ none | some rec ↦ some rec.memory_reserved ]

-- The counters, and the memory under every key, are as they were.
pub record IsKept (r r' : Registry) : Type 0 where
  pub slots : r'.total_slots ≡ r.total_slots
  pub used : r'.used_slots ≡ r.used_slots
  pub memory : r'.total_memory_bytes ≡ r.total_memory_bytes
  pub reserved : r'.reserved_memory_bytes ≡ r.reserved_memory_bytes
  pub at : (k : ExperimentKey) → reserved_at r'.experiments k ≡ reserved_at r.experiments k

IsKept-refl : (r : Registry) → IsKept r r
IsKept-refl r = record { slots = refl; used = refl; memory = refl; reserved = refl; at = λ k. refl }

reserved_at-put :
    (d : Dict ExperimentKey ExperimentRecord) (key k : ExperimentKey) (old new : ExperimentRecord)
    → Dict.get d key ≡ some old
    → new.memory_reserved ≡ old.memory_reserved
    → reserved_at (Dict.put d key new) k ≡ reserved_at d k
reserved_at-put d key k old new found same = ground (arith, get-put d key k new, eq_iff key k)

pub reserved_at-put_self :
    (d : Dict ExperimentKey ExperimentRecord) (key : ExperimentKey) (new : ExperimentRecord)
    → reserved_at (Dict.put d key new) key ≡ some new.memory_reserved
reserved_at-put_self d key new = ground (arith, get-put_self d key new)

pub reserved_at-put_ne :
    (d : Dict ExperimentKey ExperimentRecord) (key k : ExperimentKey) (new : ExperimentRecord)
    → key ≢ k
    → reserved_at (Dict.put d key new) k ≡ reserved_at d k
reserved_at-put_ne d key k new other = ground (arith, get-put_ne d key k new other)

IsKept-put :
    (r : Registry) (key : ExperimentKey) (old new : ExperimentRecord)
    → Dict.get r.experiments key ≡ some old
    → new.memory_reserved ≡ old.memory_reserved
    → IsKept r (record r { experiments = Dict.put r.experiments key new })
IsKept-put r key old new found same = record {
  slots = refl;
  used = refl;
  memory = refl;
  reserved = refl;
  at = λ k. reserved_at-put r.experiments key k old new found same;
}

modify-IsKept :
    (r : Registry) (key : ExperimentKey) (f : ExperimentRecord → ExperimentRecord)
    → ((rec : ExperimentRecord) → (f rec).memory_reserved ≡ rec.memory_reserved)
    → IsKept r (modify r key f)
unfolding modify
modify-IsKept r key f same = elim (Option-cases (Dict.get r.experiments key)) [
  | inl absent ↦ rw (absent, modify) (IsKept-refl r)
  | inr (rec, found) ↦ rw (found, modify) (IsKept-put r key rec (f rec) found (same rec))
]

pub set_cancel-IsKept : (r : Registry) (h e : String) (c : ℕ) → IsKept r (set_cancel r h e c)
unfolding set_cancel
set_cancel-IsKept r h e c = modify-IsKept r (experiment_key h e) _ (λ rec. refl)

pub set_status-IsKept : (r : Registry) (h e status : String) → IsKept r (set_status r h e status)
unfolding set_status
set_status-IsKept r h e status = modify-IsKept r (experiment_key h e) _ (λ rec. refl)

pub cancel-IsKept : (r : Registry) (h e : String) → IsKept r (cancel r h e).0
unfolding cancel
cancel-IsKept r h e =
    let key = experiment_key h e in
    elim (Option-cases (Dict.get r.experiments key)) [
      | inl absent ↦ rw (absent, cancel) (IsKept-refl r)
      | inr (rec, found) ↦ elim (Bool-cases (is_active_status rec.result.status)) [
        | inl active ↦
            rw (found, cancel) (rw active (IsKept-put r key rec (canceled_record rec) found refl))
        | inr idle ↦ rw (found, cancel) (rw idle (IsKept-refl r))
      ]
    ]

cancel_all_loop-at :
    (reason : String) (order : List ExperimentKey) (d : Dict ExperimentKey ExperimentRecord)
    (count : ℕ) (called : List (Option ℕ)) (k : ExperimentKey)
    → reserved_at (cancel_all_loop reason order d count called).0 k ≡ reserved_at d k
unfolding cancel_all_loop
cancel_all_loop-at reason [] d count called k = refl
cancel_all_loop-at reason (key ∷ order) d count called k = elim (Option-cases (Dict.get d key)) [
  | inl absent ↦ rw (absent, cancel_all_loop) (cancel_all_loop-at reason order d count called k)
  | inr (rec, found) ↦ elim (Bool-cases (is_active_status rec.result.status)) [
    | inl active ↦
        rw (found, cancel_all_loop)
          (rw active (
            cancel_all_loop-at reason order (Dict.put d key (canceled_by reason rec)) (count + 1)
              (called ++ rec.cancel ∷ []) k
            ∙ reserved_at-put d key k rec (canceled_by reason rec) found refl))
    | inr idle ↦
        rw (found, cancel_all_loop) (rw idle (cancel_all_loop-at reason order d count called k))
  ]
]

pub cancel_all-IsKept :
    (order : List ExperimentKey) (r : Registry) (reason : String)
    → IsKept r (cancel_all order r reason).0
unfolding cancel_all
cancel_all-IsKept order r reason = record {
  slots = refl;
  used = refl;
  memory = refl;
  reserved = refl;
  at = cancel_all_loop-at reason order r.experiments 0 [];
}

-- TryStart and Finish in terms of the memory under each key.
pub record IsFinished (r r' : Registry) (key : ExperimentKey) (m : ℕ) : Type 0 where
  pub slots : r'.total_slots ≡ r.total_slots
  pub used : r'.used_slots ≡ r.used_slots - 1
  pub memory : r'.total_memory_bytes ≡ r.total_memory_bytes
  pub reserved : r'.reserved_memory_bytes ≡ r.reserved_memory_bytes - m
  pub at_key : reserved_at r'.experiments key ≡ some 0
  pub at :
      (k : ExperimentKey) → key ≢ k → reserved_at r'.experiments k ≡ reserved_at r.experiments k

pub finish-IsFinished :
    (r : Registry) (h e : String) (result : ExperimentResult) (m : ℕ)
    → reserved_at r.experiments (experiment_key h e) ≡ some m
    → IsFinished r (finish r h e result).0 (experiment_key h e) m
unfolding finish
finish-IsFinished r h e result m held =
    let key = experiment_key h e in
    elim (Option-cases (Dict.get r.experiments key)) [
      | inl absent ↦ absurd (ground arith)
      | inr (rec, found) ↦
          let same : rec.memory_reserved ≡ m = ground arith in
          rw (found, finish)
            (record {
              slots = refl;
              used = ground arith;
              memory = refl;
              reserved = ground arith;
              at_key = reserved_at-put_self r.experiments key _;
              at = λ k. reserved_at-put_ne r.experiments key k _;
            })
    ]
