-- ===== src/ControlPlane/Submission/Numbering.antt =====
-- The numbers in the identifiers of controlplane/submit.go can be read back.
use Prim.Native.Char.{code}
use Prim.Native.String.{◌++◌ as append}
use Prim.Native.String.append
use go_cloud_des.Prelude.{
  ℕ, zero, suc, ◌+◌, ◌-◌, ◌*◌, ◌/◌, ◌%◌, ◌≡◌, ◌<◌, ◌∙◌, refl, sym, ap, arith, String, nat_eq, ltb,
  Bool-cases, inl, inr, length,
}
use go_cloud_des.Strings.{codes}
use go_cloud_des.ControlPlane.Submission.{digit, digits, zeros, padded, experiment_id}

-- The number that a text of digits denotes behind a number.
read : String → ℕ → ℕ
read String.[] v = v
read (String.◌∷◌ c s) v = read s (v * 10 + (code c - 48))

read-digit :
    (d : ℕ) (s : String) (v : ℕ) → d < 10 → read (append (digit d) s) v ≡ read s (v * 10 + d)
unfolding read digit
read-digit zero s v h = rw (append.cons, append.nil) refl
read-digit (suc zero) s v h = rw (append.cons, append.nil) refl
read-digit (suc (suc zero)) s v h = rw (append.cons, append.nil) refl
read-digit (suc (suc (suc zero))) s v h = rw (append.cons, append.nil) refl
read-digit (suc (suc (suc (suc zero)))) s v h = rw (append.cons, append.nil) refl
read-digit (suc (suc (suc (suc (suc zero))))) s v h = rw (append.cons, append.nil) refl
read-digit (suc (suc (suc (suc (suc (suc zero)))))) s v h = rw (append.cons, append.nil) refl
read-digit (suc (suc (suc (suc (suc (suc (suc zero))))))) s v h = rw (append.cons, append.nil) refl
read-digit (suc (suc (suc (suc (suc (suc (suc (suc zero)))))))) s v h =
    rw (append.cons, append.nil) refl
read-digit (suc (suc (suc (suc (suc (suc (suc (suc (suc zero))))))))) s v h =
    rw (append.cons, append.nil) refl
read-digit (suc (suc (suc (suc (suc (suc (suc (suc (suc (suc d)))))))))) s v h =
    absurd (omega (arith, h))

read-digits : (fuel n : ℕ) (s : String) → n < fuel → read (digits fuel n s) 0 ≡ read s n
unfolding digits
read-digits zero n s h = absurd (omega (arith, h))
read-digits (suc fuel) n s h = elim (Bool-cases (ltb n 10)) [
  | inl e ↦ rw e (read-digit n s 0 (ground (arith, e)) ∙ ap (read s) (omega arith))
  | inr e ↦ rw e (
      read-digits fuel (n / 10) (append (digit (n % 10)) s) (ground (arith, e, h))
      ∙ read-digit (n % 10) s (n / 10) (omega arith)
      ∙ ap (read s) (omega arith))
]

read-zeros : (n : ℕ) (s : String) → read (zeros n s) 0 ≡ read s 0
unfolding read zeros
read-zeros zero s = refl
read-zeros (suc n) s = rw (append.cons, append.nil) (read-zeros n s)

read-padded : (n : ℕ) → read (padded n) 0 ≡ n
unfolding padded read
read-padded n =
    read-zeros (6 - length (codes (digits (suc n) n ""))) (digits (suc n) n "")
    ∙ read-digits (suc n) n "" (omega arith)

append-cancel : (a x y : String) → append a x ≡ append a y → x ≡ y
append-cancel String.[] x y h = simp append.nil at h
append-cancel (String.◌∷◌ c a) x y h = let e = simp (append.cons) at h in append-cancel a x y cc

-- Experiments of one batch have different identifiers.
pub experiment_id-injective :
    (batch_id : String) (i j : ℕ) → experiment_id batch_id i ≡ experiment_id batch_id j → i ≡ j
unfolding experiment_id
experiment_id-injective batch_id i j h =
    let e = append-cancel "-exp-" _ _ (append-cancel batch_id _ _ h) in
    omega (arith, sym (read-padded (suc i)) ∙ ap (λ s. read s 0) e ∙ read-padded (suc j))
