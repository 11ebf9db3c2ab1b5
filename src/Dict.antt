-- ===== src/Dict.antt =====
-- Go's `map`: entries in an order that no client sees. A loop over a map takes the order in which
-- the runtime visits the keys as an argument of its own.
use go_cloud_des.Prelude.{
  ◌≡◌, refl, Bool, true, false, Option, none, some, List, [], ◌∷◌, arith, Eq, ◌==◌, if◌then◌else◌,
  beq_refl, ◌≢◌,
}

pub record Dict {ℓ} (K V : Type ℓ) : Type ℓ where
  pub entries : List (K × V)

module _ {ℓ} {K V : Type ℓ} ⦃e : Eq K⦄ where
  unfoldable pub lookup : K → List (K × V) → Option V
  lookup key [] = none
  lookup key ((at, value) ∷ more) = if at == key then some value else lookup key more

  unfoldable pub without : K → List (K × V) → List (K × V)
  without key [] = []
  without key ((at, value) ∷ more) =
      let kept = without key more in if at == key then kept else (at, value) ∷ kept

  lookup-without :
      (gone at : K) (es : List (K × V))
      → lookup at (without gone es) ≡ (if gone == at then none else lookup at es)
  unfolding lookup without
  lookup-without gone at [] = ground arith
  lookup-without gone at ((here, value) ∷ es) =
      ground (
        arith,
        e.beq_iff here at,
        e.beq_iff gone at,
        e.beq_iff here gone,
        lookup-without gone at es,
      )

  -- `make(map[K]V)`
  unfoldable pub empty : Dict K V
  empty = record { entries = [] }

  -- `m[k]`
  unfoldable pub get : Dict K V → K → Option V
  unfolding lookup
  get d k = lookup k d.entries

  -- `delete(m, k)`
  unfoldable pub remove : Dict K V → K → Dict K V
  unfolding without
  remove d k = record { entries = without k d.entries }

  -- `m[k] = v`
  unfoldable pub put : Dict K V → K → V → Dict K V
  unfolding without
  put d k v = record { entries = (k, v) ∷ without k d.entries }

  -- `_, ok := m[k]`
  abbrev pub has : Dict K V → K → Bool
  has d k = elim (get d k) [ none ↦ false | some v ↦ true ]

  pub get-empty : (k : K) → get empty k ≡ none
  unfolding get empty
  get-empty k = refl

  pub get-remove :
      (d : Dict K V) (k j : K) → get (remove d k) j ≡ (if k == j then none else get d j)
  unfolding get remove
  get-remove d k j = lookup-without k j d.entries

  pub get-put :
      (d : Dict K V) (k j : K) (v : V) → get (put d k v) j ≡ (if k == j then some v else get d j)
  unfolding get put
  get-put d k j v = ground (arith, lookup-without k j d.entries)

  pub get-put_self : (d : Dict K V) (k : K) (v : V) → get (put d k v) k ≡ some v
  get-put_self d k v = rw (get-put d k k v, beq_refl k)

  pub get-put_ne : (d : Dict K V) (k j : K) (v : V) → k ≢ j → get (put d k v) j ≡ get d j
  get-put_ne d k j v ne = ground (arith, get-put d k j v, e.beq_iff k j)

  pub has-remove :
      (d : Dict K V) (k j : K) → has (remove d k) j ≡ (if k == j then false else has d j)
  has-remove d k j = ground (arith, get-remove d k j)

  pub has-put :
      (d : Dict K V) (k j : K) (v : V) → has (put d k v) j ≡ (if k == j then true else has d j)
  has-put d k j v = ground (arith, get-put d k j v)

pub has-empty {ℓ} : {K : Type ℓ} (V : Type ℓ) ⦃e : Eq K⦄ (k : K) → has (empty {V = V}) k ≡ false
has-empty V ⦃e⦄ k = ground (arith, get-empty {V = V} k)

pub ruleset dict_laws = (get-empty, get-remove, get-put)
