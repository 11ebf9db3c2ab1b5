-- ===== src/ControlPlane/NodeRegistry/Failures.antt =====
-- MarkNodeFailed and MarkNodeSucceeded of controlplane/node_registry.go: failures in a row.
use go_cloud_des.Prelude.{
  ℕ, zero, suc, ◌+◌, ◌<◌, ◌≡◌, refl, String, true, false, none, some, arith, u32_mod, add32,
  string_eq, beq_refl, Bool-cases, ◌==◌, ◌∙◌, nat_eq, ap, leb, inl, inr,
}
use go_cloud_des.Dict
use go_cloud_des.Dict.{get-put, get-remove}
use go_cloud_des.ControlPlane.NodeRegistry.{
  NodeRecord, NodeRegistry, mark_node_failed, mark_node_succeeded,
}
use native.Mathlib.Nat.{add-zero}

abbrev pub failing : NodeRecord → ℕ → NodeRecord
failing rec n = record rec { failure_count = n }

-- `n` calls of MarkNodeFailed in a row.
pub fail_times : ℕ → NodeRegistry → String → ℕ → NodeRegistry
fail_times zero r id max_failures = r
fail_times (suc n) r id max_failures =
    (mark_node_failed (fail_times n r id max_failures) id max_failures).0

module _ (r : NodeRegistry) (id : String) (max_failures : ℕ) (rec : NodeRecord)
    (found : Dict.get r.nodes id ≡ some rec) (fits : max_failures < u32_mod) where
  no_wrap : rec.failure_count < max_failures → add32 rec.failure_count 1 ≡ rec.failure_count + 1
  no_wrap below = omega arith

  fail-stays :
      rec.failure_count + 1 < max_failures
      → (Dict.get (mark_node_failed r id max_failures).0.nodes id
          ≡ some (failing rec (rec.failure_count + 1)))
        × ((mark_node_failed r id max_failures).1 ≡ false)
  unfolding mark_node_failed
  fail-stays below =
      let over : leb max_failures (rec.failure_count + 1) ≡ false = ground arith in
      rw (found, mark_node_failed)
        (rw (no_wrap (omega arith), over, get-put, beq_refl id) (refl, refl))

  fail-removes :
      rec.failure_count + 1 ≡ max_failures
      → (Dict.get (mark_node_failed r id max_failures).0.nodes id ≡ none)
        × ((mark_node_failed r id max_failures).1 ≡ true)
  unfolding mark_node_failed
  fail-removes last =
      let over : leb max_failures (rec.failure_count + 1) ≡ true = ground arith in
      rw (found, mark_node_failed)
        (rw (no_wrap (omega arith), over, get-remove, beq_refl id) (refl, refl))

fail_times-stays :
    (n : ℕ) (r : NodeRegistry) (id : String) (max_failures : ℕ) (rec : NodeRecord)
    → Dict.get r.nodes id ≡ some rec
    → max_failures < u32_mod
    → rec.failure_count + n < max_failures
    → Dict.get (fail_times n r id max_failures).nodes id
      ≡ some (failing rec (rec.failure_count + n))
unfolding fail_times
fail_times-stays zero r id max_failures rec found fits below = rw add-zero found
fail_times-stays (suc n) r id max_failures rec found fits below =
    let ih = fail_times-stays n r id max_failures rec found fits (omega arith) in
    let s = fail-stays (fail_times n r id max_failures) id max_failures _ ih fits (omega arith) in
    s.0 ∙ ap (λ k. some (failing rec k)) (omega arith)

succeeded-clear :
    (r : NodeRegistry) (id : String) (rec : NodeRecord)
    → Dict.get r.nodes id ≡ some rec
    → Dict.get (mark_node_succeeded r id).nodes id ≡ some (failing rec 0)
unfolding mark_node_succeeded
succeeded-clear r id rec found = elim (Bool-cases (rec.failure_count == 0)) [
  | inl clear ↦ rw (found, mark_node_succeeded) (rw clear (ground arith))
  | inr failed ↦ rw (found, mark_node_succeeded) (rw (failed, get-put, beq_refl id))
]

-- After a success, a node that the registry holds stays for every run of fewer than `max_failures`
-- failures, with the length of the run as its count; the next failure that completes the maximum
-- removes it and says so.
pub failures-after_success :
    (r : NodeRegistry) (id : String) (max_failures : ℕ) (rec : NodeRecord)
    → Dict.get r.nodes id ≡ some rec
    → max_failures < u32_mod
    → (n : ℕ) → n < max_failures
    → let r' = fail_times n (mark_node_succeeded r id) id max_failures in
      (Dict.get r'.nodes id ≡ some (failing rec n))
      × ((mark_node_failed r' id max_failures).1 ≡ leb max_failures (n + 1))
      × (n + 1 ≡ max_failures → Dict.get (mark_node_failed r' id max_failures).0.nodes id ≡ none)
failures-after_success r id max_failures rec found fits n below =
    let start = succeeded-clear r id rec found in
    let r' = fail_times n (mark_node_succeeded r id) id max_failures in
    let held =
      fail_times-stays n (mark_node_succeeded r id) id max_failures (failing rec 0) start fits
        (omega arith) in
    let held' : Dict.get r'.nodes id ≡ some (failing rec n) =
      held ∙ ap (λ k. some (failing rec k)) (omega arith) in
    (
      held',
      ground (
        arith,
        fail-stays r' id max_failures (failing rec n) held' fits,
        fail-removes r' id max_failures (failing rec n) held' fits,
      ),
      λ last. (fail-removes r' id max_failures (failing rec n) held' fits last).0,
    )
