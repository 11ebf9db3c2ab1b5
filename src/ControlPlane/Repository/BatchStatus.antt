-- ===== src/ControlPlane/Repository/BatchStatus.antt =====
-- The status of a batch in controlplane/repository.go against the statuses of its experiments.
use go_cloud_des.Prelude.{
  ◌+◌, ◌≡◌, String, Bool, true, false, ◌||◌, List, [], ◌∷◌, ◌==◌, string_eq, nat_eq, length, arith,
  eq_iff, ◌⊎◌, inl, inr, ◌<◌, refl, Bool-cases, ◌≢◌, All, Any, keep, ne_of_beq,
}
use go_cloud_des.ControlPlane.Repository.{
  status_pending, status_starting, status_submitted, status_running, status_finished, status_failed,
  status_canceled, ExperimentRow, count, in_batch, has_status,
}
use go_cloud_des.ControlPlane.Repository.Batches.{batch_status, status_of_batch}

abbrev pub is_terminal : ExperimentRow → Bool
is_terminal row =
    has_status status_finished row || has_status status_failed row || has_status status_canceled row

abbrev pub rows_of : String → List ExperimentRow → List ExperimentRow
rows_of batch_id rows = keep (λ row. row.batch_id == batch_id) rows

-- What a status says of the rows of a batch. At most one of the cases holds.
abbrev pub Summary : List ExperimentRow → String → Type 0
Summary rows s =
    ((s ≡ status_submitted) × (rows ≡ []))
    ⊎ ((s ≡ status_failed)
        × All (λ row. is_terminal row ≡ true) rows
        × Any (λ row. row.status ≡ status_failed) rows)
    ⊎ ((s ≡ status_canceled)
        × All (λ row. is_terminal row ≡ true) rows
        × All (λ row. row.status ≢ status_failed) rows
        × Any (λ row. row.status ≡ status_canceled) rows)
    ⊎ ((s ≡ status_finished) × (rows ≢ []) × All (λ row. row.status ≡ status_finished) rows)
    ⊎ ((s ≡ status_running) × Any (λ row. is_terminal row ≡ false) rows)

module _ {ℓ} {A : Type ℓ} (p : A → Bool) where
  count-All :
      (xs : List A)
      → ((count p xs ≡ length xs) × All (λ x. p x ≡ true) xs)
        ⊎ ((count p xs < length xs) × Any (λ x. p x ≡ false) xs)
  unfolding count
  count-All [] = inl (refl, tt)
  count-All (x ∷ xs) = elim (Bool-cases (p x)) [
    | inl h ↦ elim (count-All xs) [
      | inl (n, a) ↦ inl (rw h (omega (arith, n)), (h, a))
      | inr (n, a) ↦ inr (rw h (omega (arith, n)), inr a)
    ]
    | inr h ↦ inr (
      elim (count-All xs) [
        | inl (n, a) ↦ rw h (omega (arith, n))
        | inr (n, a) ↦ rw h (omega (arith, n))
      ],
      inl h,
    )
  ]

  count-Any :
      (xs : List A)
      → ((0 < count p xs) × Any (λ x. p x ≡ true) xs)
        ⊎ ((count p xs ≡ 0) × All (λ x. p x ≡ false) xs)
  unfolding count
  count-Any [] = inr (refl, tt)
  count-Any (x ∷ xs) = elim (Bool-cases (p x)) [
    | inl h ↦ inl (rw h (omega arith), inl h)
    | inr h ↦ elim (count-Any xs) [
      | inl (n, a) ↦ inl (rw h n, inr a)
      | inr (n, a) ↦ inr (rw h n, (h, a))
    ]
  ]

count-in_batch :
    (batch_id : String) (p : ExperimentRow → Bool) (rows : List ExperimentRow)
    → count (in_batch batch_id p) rows ≡ count p (rows_of batch_id rows)
unfolding count in_batch
count-in_batch batch_id p [] = refl
count-in_batch batch_id p (row ∷ rows) = ground (arith, count-in_batch batch_id p rows)

count-true : (rows : List ExperimentRow) → count (λ row. true) rows ≡ length rows
unfolding count
count-true [] = refl
count-true (row ∷ rows) = omega (arith, count-true rows)

terminal_sum :
    (rows : List ExperimentRow)
    → count is_terminal rows
      ≡ count (has_status status_finished) rows
        + count (has_status status_failed) rows
        + count (has_status status_canceled) rows
unfolding count has_status
terminal_sum [] = refl
terminal_sum (row ∷ rows) = elim (Bool-cases (row.status == status_finished)) [
  | inl f ↦ rw ((eq_iff row.status status_finished).0 f) (omega (arith, terminal_sum rows))
  | inr f ↦ elim (Bool-cases (row.status == status_failed)) [
    | inl g ↦ rw ((eq_iff row.status status_failed).0 g) (omega (arith, terminal_sum rows))
    | inr g ↦ elim (Bool-cases (row.status == status_canceled)) [
      | inl h ↦ rw ((eq_iff row.status status_canceled).0 h) (omega (arith, terminal_sum rows))
      | inr h ↦ rw (f, g, h) (omega (arith, terminal_sum rows))
    ]
  ]
]

All-map :
    {P Q : ExperimentRow → Type 0}
    → ((row : ExperimentRow) → P row → Q row)
    → (rows : List ExperimentRow) → All P rows
    → All Q rows
All-map f [] a = tt
All-map f (row ∷ rows) a = (f row a.0, All-map f rows a.1)

Any-map :
    {P Q : ExperimentRow → Type 0}
    → ((row : ExperimentRow) → P row → Q row)
    → (rows : List ExperimentRow) → Any P rows
    → Any Q rows
Any-map f [] a = a
Any-map f (row ∷ rows) (inl a) = inl (f row a)
Any-map f (row ∷ rows) (inr a) = inr (Any-map f rows a)

empty_or : (rows : List ExperimentRow) → (rows ≡ []) ⊎ ((0 < length rows) × (rows ≢ []))
empty_or [] = inl refl
empty_or (row ∷ rows) = inr (omega arith, λ e. cc)

abbrev status_by_counts : List ExperimentRow → String
status_by_counts rows =
    batch_status (length rows)
      (count (λ row. has_status status_pending row || has_status status_starting row) rows)
      (count (has_status status_running) rows) (count (has_status status_finished) rows)
      (count (has_status status_failed) rows) (count (has_status status_canceled) rows)

status_by_counts_lem : (rows : List ExperimentRow) → Summary rows (status_by_counts rows)
unfolding batch_status has_status
status_by_counts_lem rows = elim (empty_or rows) [
  | inl e ↦ inl (rw e refl, e)
  | inr (some_row, nonempty) ↦ elim (count-All is_terminal rows) [
    | inr (some_left, left) ↦ inr (inr (inr (inr (ground (arith, terminal_sum rows), left))))
    | inl (none_left, terminal) ↦ elim (count-Any (has_status status_failed) rows) [
      | inl (some_failed, failed) ↦ inr (
          inl (
            ground (arith, terminal_sum rows),
            terminal,
            Any-map (λ row. (eq_iff row.status status_failed).0) rows failed,
          ))
      | inr (no_failed, not_failed) ↦ elim (count-Any (has_status status_canceled) rows) [
        | inl (some_canceled, canceled) ↦ inr (
            inr (
              inl (
                ground (arith, terminal_sum rows),
                terminal,
                All-map (λ row. ne_of_beq row.status status_failed) rows not_failed,
                Any-map (λ row. (eq_iff row.status status_canceled).0) rows canceled,
              )))
        | inr (no_canceled, not_canceled) ↦ inr (
            inr (
              inr (
                inl (
                  ground (arith, terminal_sum rows),
                  nonempty,
                  elim (count-All (has_status status_finished) rows) [
                    | inl (n, finished) ↦
                        All-map (λ row. (eq_iff row.status status_finished).0) rows finished
                    | inr (n, other) ↦ absurd (omega (arith, terminal_sum rows))
                  ],
                ))))
      ]
    ]
  ]
]

status_of_batch-counts :
    (rows : List ExperimentRow) (batch_id : String)
    → status_of_batch rows batch_id ≡ status_by_counts (rows_of batch_id rows)
unfolding status_of_batch
status_of_batch-counts rows batch_id =
    let by : (p : ExperimentRow → Bool)
        → count (in_batch batch_id p) rows ≡ count p (rows_of batch_id rows) =
      λ p. count-in_batch batch_id p rows in
    rw
      (
        by (λ row. true),
        count-true (rows_of batch_id rows),
        by (λ row. has_status status_pending row || has_status status_starting row),
        by (has_status status_running),
        by (has_status status_finished),
        by (has_status status_failed),
        by (has_status status_canceled),
      )
      refl

-- RefreshBatchStatus computes SUBMITTED for a batch with no experiment, FAILED if all have ended and
-- one has failed, CANCELED if all have ended, none has failed and one was canceled, FINISHED if all
-- have finished, and RUNNING exactly if some experiment has not ended.
pub status_of_batch_lem :
    (rows : List ExperimentRow) (batch_id : String)
    → Summary (rows_of batch_id rows) (status_of_batch rows batch_id)
status_of_batch_lem rows batch_id =
    rw (status_of_batch-counts rows batch_id) (status_by_counts_lem (rows_of batch_id rows))
