-- ===== src/Base/Dict.antt =====
-- Python's `dict`: an association list in insertion order. A write to a key that is there keeps
-- its place.
use mathlib.Core.Path.{◌≡◌, refl}
use draindeck.Base.{
  Option, none, some, List, [], ◌∷◌, arith, Comparable, ◌==◌, ==_iff, if◌then◌else◌, Bool-cases,
  inl, inr, ◌≢◌, ◌⊎◌, suc, ap,
}
use draindeck.Base.Lists.{length}

abbrev pub Dict {ℓ κ} : Type ℓ → Type κ → Type (ℓ ⊔ κ)
Dict K V = List (K × V)

module _ {ℓ κ} {K : Type ℓ} {V : Type κ} ⦃e : Comparable K⦄ where
  -- d.get(k)
  unfoldable pub get : K → Dict K V → Option V
  get k [] = none
  get k ((j, v) ∷ d) = if j == k then some v else get k d

  -- d[k] = v
  unfoldable pub put : K → V → Dict K V → Dict K V
  put k v [] = (k, v) ∷ []
  put k v ((j, w) ∷ d) = if j == k then (j, v) ∷ d else (j, w) ∷ put k v d

  pub get-put :
      (k j : K) (v : V) (d : Dict K V) → get j (put k v d) ≡ (if k == j then some v else get j d)
  unfolding get put
  get-put k j v [] = refl
  get-put k j v ((i, w) ∷ d) = ground (arith, ==_iff k j, ==_iff i k, ==_iff i j, get-put k j v d)

  -- A write adds an entry where there was none, and else none.
  pub length-put_fresh :
      (k : K) (v : V) (d : Dict K V) → get k d ≡ none → length (put k v d) ≡ suc (length d)
  unfolding get put
  length-put_fresh k v [] h = refl
  length-put_fresh k v ((j, w) ∷ d) h = elim (Bool-cases (j == k)) [
    | inl e ↦ absurd (cc (rw e at h))
    | inr e ↦ rw e (ap suc (length-put_fresh k v d (rw e at h)))
  ]

  pub length-put_there :
      (k : K) (v : V) {u : V} (d : Dict K V) → get k d ≡ some u → length (put k v d) ≡ length d
  unfolding get put
  length-put_there k v [] h = absurd (cc)
  length-put_there k v ((j, w) ∷ d) h = elim (Bool-cases (j == k)) [
    | inl e ↦ rw e refl
    | inr e ↦ rw e (ap suc (length-put_there k v d (rw e at h)))
  ]

  pub get-put_self : (k : K) (v : V) (d : Dict K V) → get k (put k v d) ≡ some v
  get-put_self k v d = ground (arith, get-put k k v d, ==_iff k k)

  pub get-put_ne : (k j : K) (v : V) (d : Dict K V) → k ≢ j → get j (put k v d) ≡ get j d
  get-put_ne k j v d ne = ground (arith, get-put k j v d, ==_iff k j)

  -- What stands under a key after a write: the value written, or what stood there.
  pub put_cases :
      (k j : K) (v : V) (d : Dict K V) {u : V}
      → get j (put k v d) ≡ some u
      → (k ≡ j) × (v ≡ u) ⊎ (k ≢ j) × (get j d ≡ some u)
  put_cases k j v d h = elim (Bool-cases (k == j)) [
    | inl e ↦ inl ((==_iff k j).0 e, ground (arith, get-put k j v d))
    | inr e ↦ inr (λ p. ground (arith, ==_iff k j), ground (arith, get-put k j v d))
  ]
