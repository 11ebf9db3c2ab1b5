-- ===== src/Codegen/Generator/Validate/Rules.antt =====
-- Postconditions on the checks of codegen/generator/validate.go.
use go_cloud_des.Prelude.{◌≡◌, refl, Bool, true, false, nat_eq, Option, none, some}
use go_cloud_des.Codegen.Generator.Text.{bytes_eq}
use go_cloud_des.Codegen.Generator.Parsed.{Reason}
use go_cloud_des.Codegen.Generator.Validate.{
  Checked, valid, invalid, ◌>>=◌, reject_if, known, followed,
}

-- No nil pointer is followed, and what is accepted has `P`.
pub data Allows {ℓ κ} {A : Type ℓ} (P : A → Type κ) : Checked A → Type (ℓ ⊔ κ) where
  holds : {a : A} → P a → Allows P (valid a)
  rejected : {why : Reason} → Allows P (invalid why)

pub Allows-bind {ℓ κ ℓ' κ'} :
    {A : Type ℓ} {P : A → Type κ} {B : Type ℓ'} {Q : B → Type κ'} {r : Checked A}
    {f : A → Checked B}
    → Allows P r
    → ((a : A) → P a → Allows Q (f a))
    → Allows Q (r >>= f)
Allows-bind (holds {a} p) k = k a p
Allows-bind rejected k = rejected

pub Allows-weaken {ℓ κ κ'} :
    {A : Type ℓ} {P : A → Type κ} {Q : A → Type κ'} {r : Checked A}
    → Allows P r
    → ((a : A) → P a → Q a)
    → Allows Q r
Allows-weaken (holds {a} p) k = holds (k a p)
Allows-weaken rejected k = rejected

pub reject_if-Allows :
    (b : Bool) (why : Reason) → Allows (λ (_ : Unit {0}). b ≡ false) (reject_if b why)
reject_if-Allows true why = rejected
reject_if-Allows false why = holds refl

pub known-Allows {ℓ} : {A : Type ℓ} (o : Option A) → Allows (λ (a : A). o ≡ some a) (known o)
known-Allows none = rejected
known-Allows (some a) = holds refl

pub followed-Allows {ℓ} :
    {A : Type ℓ} (o : Option A) (a : A) → o ≡ some a → Allows (λ (b : A). o ≡ some b) (followed o)
followed-Allows none a h = cc
followed-Allows (some b) a h = holds refl
