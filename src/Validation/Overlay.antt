-- ===== src/Validation/Overlay.antt =====
-- The environment of a validation command, name by name.
use draindeck.Base.{
  String, Option, none, some, [], ◌∷◌, ◌≡◌, refl, ◌∙◌, subst, arith, Bool-cases, inl, inr,
  string_comparable, ◌==◌, ==_iff, if◌then◌else◌,
}
use draindeck.Base.Dict.{Dict, get, put, get-put}
use draindeck.Validation.Runner.{child_env, pop}

-- A dict has a key once.
abbrev pub Distinct : Dict String (Option String) → Type 0
Distinct [] = Unit {0}
Distinct ((k, v) ∷ env) = (get k env ≡ none) × Distinct env

-- What a name has in the child: what the overlay says of it, and else what it had.
abbrev pub overlaid : Option (Option String) → Option String → Option String
overlaid none base = base
overlaid (some value) base = value

get-pop :
    (k j : String) (d : Dict String String) → get j (pop k d) ≡ (if k == j then none else get j d)
unfolding get pop
get-pop k j [] = ground arith
get-pop k j ((i, v) ∷ d) = ground (arith, ==_iff k j, ==_iff i k, ==_iff i j, get-pop k j d)

-- A name that the overlay maps to None is absent from the child's environment; one that it maps to
-- a text has that text; any other has what the parent's environment has.
pub child_env-overlaid :
    (built : Dict String String) (env : Dict String (Option String)) (key : String)
    → Distinct env
    → get key (child_env built env) ≡ overlaid (get key env) (get key built)
unfolding child_env get
child_env-overlaid built [] key d = refl
child_env-overlaid built ((k, none) ∷ env) key d = elim (Bool-cases (k == key)) [
  | inl same ↦
      let e = (==_iff k key).0 same in
      child_env-overlaid (pop k built) env key d.1
      ∙ (rw (same, subst (λ x. get x env ≡ none) e d.0, get-pop k key built, same) refl)
  | inr other ↦
      child_env-overlaid (pop k built) env key d.1 ∙ (rw (other, get-pop k key built, other) refl)
]
child_env-overlaid built ((k, some value) ∷ env) key d = elim (Bool-cases (k == key)) [
  | inl same ↦
      let e = (==_iff k key).0 same in
      child_env-overlaid (put k value built) env key d.1
      ∙ (rw (same, subst (λ x. get x env ≡ none) e d.0, get-put k key value built, same) refl)
  | inr other ↦
      child_env-overlaid (put k value built) env key d.1
      ∙ (rw (other, get-put k key value built, other) refl)
]
