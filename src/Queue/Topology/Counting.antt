-- ===== src/Queue/Topology/Counting.antt =====
-- Occurrences in a list, membership, and what removing an id does to them.
use draindeck.Base.{
  ℕ, suc, ◌+◌, String, true, false, not, ◌&&◌, ◌||◌, List, [], ◌∷◌, ◌++◌, ◌≡◌, refl, arith,
  string_comparable, ◌==◌, ==_iff, if◌then◌else◌, ◌≢◌, Bool-cases, inl, inr,
}
use draindeck.Base.Lists.{length}
use draindeck.Queue.Selection.{contains}
use draindeck.Queue.Topology.{remove}

-- How often `x` stands in a list.
unfoldable pub count : String → List String → ℕ
count x [] = 0
count x (y ∷ ys) = if y == x then suc (count x ys) else count x ys

-- How many of the listed dependencies stand in `ids`.
unfoldable pub tally : List String → List String → ℕ
tally ids [] = 0
tally ids (d ∷ ds) = if contains d ids then suc (tally ids ds) else tally ids ds

-- No id stands twice.
abbrev pub IsDistinct : List String → Type 0
IsDistinct [] = Unit
IsDistinct (x ∷ xs) = (contains x xs ≡ false) × IsDistinct xs

pub count-append : (x : String) (xs ys : List String) → count x (xs ++ ys) ≡ count x xs + count x ys
unfolding count
count-append x [] ys = omega arith
count-append x (y ∷ xs) ys = ground (arith, count-append x xs ys)

pub contains-append :
    (x : String) (xs ys : List String) → contains x (xs ++ ys) ≡ (contains x xs || contains x ys)
unfolding contains
contains-append x [] ys = refl
contains-append x (y ∷ xs) ys = ground (arith, contains-append x xs ys)

pub contains-count : (x : String) (xs : List String) → contains x xs ≡ true → count x xs ≢ 0
unfolding contains count
contains-count x [] h = absurd (cc)
contains-count x (y ∷ ys) h = ground (arith, contains-count x ys)

pub count-contains : (x : String) (xs : List String) → count x xs ≢ 0 → contains x xs ≡ true
unfolding contains count
count-contains x [] h = absurd (h refl)
count-contains x (y ∷ ys) h = ground (arith, count-contains x ys)

pub contains-remove :
    (x d : String) (xs : List String)
    → IsDistinct xs
    → contains d (remove x xs) ≡ (contains d xs && not (x == d))
unfolding contains remove
contains-remove x d [] h = refl
contains-remove x d (y ∷ ys) h =
    ground (arith, contains-remove x d ys h.1, ==_iff y x, ==_iff y d, ==_iff x d)

pub remove-IsDistinct : (x : String) (xs : List String) → IsDistinct xs → IsDistinct (remove x xs)
unfolding remove
remove-IsDistinct x [] h = tt
remove-IsDistinct x (y ∷ ys) h =
    ground (arith, remove-IsDistinct x ys h.1, contains-remove x y ys h.1)

pub count-remove :
    (x y : String) (xs : List String)
    → contains x xs ≡ true
    → count y xs ≡ (if x == y then suc (count y (remove x xs)) else count y (remove x xs))
unfolding contains count remove
count-remove x y [] h = absurd (cc)
count-remove x y (z ∷ zs) h =
    ground (arith, count-remove x y zs, ==_iff z x, ==_iff z y, ==_iff x y)

pub length-remove :
    (x : String) (xs : List String) → contains x xs ≡ true → length xs ≡ suc (length (remove x xs))
unfolding contains remove
length-remove x [] h = absurd (cc)
length-remove x (y ∷ ys) h = ground (arith, length-remove x ys)

-- Removing one id takes away the dependencies on it.
pub tally-remove :
    (x : String) (ids ds : List String)
    → IsDistinct ids
    → contains x ids ≡ true
    → tally ids ds ≡ tally (remove x ids) ds + count x ds
unfolding tally count
tally-remove x ids [] h m = omega arith
tally-remove x ids (d ∷ ds) h m =
    ground (arith, tally-remove x ids ds h m, contains-remove x d ids h, ==_iff d x, ==_iff x d)

-- With no dependency in `ids`, each dependency lies outside.
pub tally-zero :
    (ids ds : List String) (d : String)
    → tally ids ds ≡ 0
    → contains d ds ≡ true
    → contains d ids ≡ false
unfolding tally contains
tally-zero ids [] d h m = absurd (cc)
tally-zero ids (e ∷ ds) d h m = ground (arith, tally-zero ids ds d, ==_iff e d)

pub tally-pos :
    (ids ds : List String)
    → tally ids ds ≢ 0
    → (d : String) × (contains d ds ≡ true) × (contains d ids ≡ true)
unfolding tally contains
tally-pos ids [] h = absurd (h refl)
tally-pos ids (d ∷ ds) h = elim (Bool-cases (contains d ids)) [
  | inl e ↦ (d, ground (arith, ==_iff d d), e)
  | inr e ↦ let (d', m, n) = tally-pos ids ds (rw e at h) in (d', rest d' m, n)
]
  where
    rest : (d' : String) → contains d' ds ≡ true → contains d' (d ∷ ds) ≡ true
    rest d' m = ground arith

pub count-absent : (x : String) (xs : List String) → contains x xs ≡ false → count x xs ≡ 0
unfolding contains count
count-absent x [] h = refl
count-absent x (y ∷ ys) h = ground (arith, count-absent x ys)

pub count-nil : (x : String) → count x [] ≡ 0
unfolding count
count-nil x = refl
