-- ===== src/Dispatcher/Registry/Cancellation.antt =====
-- Cancellation in dispatcher/registry.go: a request lasts until the run ends.
use go_cloud_des.Prelude.{
  ℕ, ◌≡◌, ◌≢◌, ◌∙◌, inl, inr, refl, sym, ap, String, true, Option, none, some, List, [], ◌∷◌, arith,
  ◌==◌, if◌then◌else◌, string_eq, nat_eq, Option-cases, eq_iff,
}
use go_cloud_des.Dict
use go_cloud_des.Dict.{Dict, get-put, get-remove, get-empty, get-put_self, get-put_ne}
use go_cloud_des.Dispatcher.Types.{
  ExperimentKey, key_eq, experiment_key, ExperimentResult, is_active_status, status_finished,
  status_canceled,
}
use go_cloud_des.Dispatcher.Registry.{
  ExperimentRecord, Registry, modify, set_cancel, set_status, reason_or, canceled_record, cancel,
  final_result, finish, get,
}

-- A canceled record is inactive and carries the request.
pub cancel_lem :
    (r : Registry) (h e : String) (rec : ExperimentRecord)
    → Dict.get r.experiments (experiment_key h e) ≡ some rec
    → is_active_status rec.result.status ≡ true
    → (cancel r h e ≡ (
      record r { experiments = Dict.put r.experiments (experiment_key h e) (canceled_record rec) },
      true,
      "experiment cancellation requested",
      rec.cancel,
    ))
      × (Dict.get (cancel r h e).0.experiments (experiment_key h e) ≡ some (canceled_record rec))
unfolding cancel
cancel_lem r h e rec found active = rw (found, cancel) (rw active (refl, rw get-put_self))

-- What a run under way may still do to its record: note a cancel function, or report RUNNING.
pub data Update : Type 0 where
  notes : ℕ → Update
  reports : String → Update

pub update : Registry → String → String → Update → Registry
update r h e (notes c) = set_cancel r h e c
update r h e (reports status) = set_status r h e status

pub updates : Registry → String → String → List Update → Registry
updates r h e [] = r
updates r h e (u ∷ us) = updates (update r h e u) h e us

abbrev IsRequested : Option ExperimentRecord → String → Type 0
IsRequested none reason = ⊥
IsRequested (some rec) reason = (rec.cancel_requested ≡ true) × (rec.cancel_reason ≡ reason)

modify-IsRequested :
    (r : Registry) (key : ExperimentKey) (f : ExperimentRecord → ExperimentRecord) (reason : String)
    → ((rec : ExperimentRecord) → (f rec).cancel_requested ≡ rec.cancel_requested)
    → ((rec : ExperimentRecord) → (f rec).cancel_reason ≡ rec.cancel_reason)
    → IsRequested (Dict.get r.experiments key) reason
    → IsRequested (Dict.get (modify r key f).experiments key) reason
unfolding modify
modify-IsRequested r key f reason same same' q = elim (Option-cases (Dict.get r.experiments key)) [
  | inl absent ↦ absurd (rw absent at q)
  | inr (rec, found) ↦
      let (requested, why) = rw found at q in
      rw (found, modify) (rw get-put_self (same rec ∙ requested, same' rec ∙ why))
]

updates-IsRequested :
    (r : Registry) (h e : String) (us : List Update) (reason : String)
    → IsRequested (Dict.get r.experiments (experiment_key h e)) reason
    → IsRequested (Dict.get (updates r h e us).experiments (experiment_key h e)) reason
unfolding updates update
updates-IsRequested r h e [] reason q = q
updates-IsRequested r h e (notes c ∷ us) reason q =
    updates-IsRequested (set_cancel r h e c) h e us reason (
      unfold set_cancel in
      modify-IsRequested r (experiment_key h e) _ reason (λ rec. refl) (λ rec. refl) q)
updates-IsRequested r h e (reports status ∷ us) reason q =
    updates-IsRequested (set_status r h e status) h e us reason (
      unfold set_status in
      modify-IsRequested r (experiment_key h e) _ reason (λ rec. refl) (λ rec. refl) q)

finish_found :
    (r : Registry) (h e : String) (result : ExperimentResult) (rec : ExperimentRecord)
    → Dict.get r.experiments (experiment_key h e) ≡ some rec
    → ((finish r h e result).1 ≡ final_result rec result)
      × (get (finish r h e result).0 h e ≡ some (final_result rec result))
unfolding finish get
finish_found r h e result rec found =
    rw (found, finish)
      (
        refl,
        ground (
          arith,
          get-put_self r.experiments (experiment_key h e)
              (record rec { result = final_result rec result; memory_reserved = 0 }),
        ),
      )

final_result-requested :
    (rec : ExperimentRecord) (result : ExperimentResult) (reason : String)
    → rec.cancel_requested ≡ true
    → rec.cancel_reason ≡ reason
    → reason ≢ ""
    → final_result rec result ≡ (
        if result.status == status_finished
        then result
        else record result { status = status_canceled; finish_reason = reason })
unfolding final_result
final_result-requested rec result reason requested why some_reason =
    ground (arith, eq_iff rec.cancel_reason "")

finish-requested :
    (r : Registry) (h e : String) (result : ExperimentResult) (reason : String)
    → IsRequested (Dict.get r.experiments (experiment_key h e)) reason
    → reason ≢ ""
    → let stored = (finish r h e result).1 in
      (stored ≡ (
        if result.status == status_finished
        then result
        else record result { status = status_canceled; finish_reason = reason }))
      × (get (finish r h e result).0 h e ≡ some stored)
finish-requested r h e result reason q some_reason =
    elim (Option-cases (Dict.get r.experiments (experiment_key h e))) [
      | inl absent ↦ absurd (rw absent at q)
      | inr (rec, found) ↦
          let (requested, why) = rw found at q in
          let (stored, kept) = finish_found r h e result rec found in
          let final = final_result-requested rec result reason requested why some_reason in
          (stored ∙ final, kept ∙ ap some (sym stored))
    ]

-- Once Cancel has answered true, whatever the run still reports of its status, Finish stores and
-- returns CANCELED with the reason of the first request, unless the run finished by itself.
pub finish-cancel :
    (r : Registry) (h e : String) (rec : ExperimentRecord) (us : List Update)
    (result : ExperimentResult)
    → Dict.get r.experiments (experiment_key h e) ≡ some rec
    → is_active_status rec.result.status ≡ true
    → let r' = updates (cancel r h e).0 h e us in
      let stored = (finish r' h e result).1 in
      (stored ≡ (
        if result.status == status_finished then result else record result {
          status = status_canceled;
          finish_reason = reason_or rec.cancel_reason "user_canceled";
        }))
      × (get (finish r' h e result).0 h e ≡ some stored)
finish-cancel r h e rec us result found active =
    let reason = reason_or rec.cancel_reason "user_canceled" in
    let asked : IsRequested (Dict.get (cancel r h e).0.experiments (experiment_key h e)) reason =
      rw ((cancel_lem r h e rec found active).1) (unfold canceled_record in (refl, refl)) in
    finish-requested (updates (cancel r h e).0 h e us) h e result reason
      (updates-IsRequested (cancel r h e).0 h e us reason asked)
      (ground (arith, eq_iff rec.cancel_reason "", eq_iff {A = String} "user_canceled" ""))
