-- ===== src/Queue/Planner/Parts.antt =====
-- What each of the planner's lists says when it is empty.
use draindeck.Base.{
  String, Bool, true, false, not, ◌&&◌, ◌||◌, List, [], ◌∷◌, ◌++◌, ◌≡◌, refl, sym, ap, subst, arith,
  string_comparable, ◌==◌, ==_iff, if◌then◌else◌, Bool-cases, inl, inr,
}
use draindeck.Base.Dict.{Dict, put, get-put}
use draindeck.Base.Lists.{In}
use draindeck.Queue.Selection.{
  IssueSpec, States, contains, keep, is_terminal, is_satisfied, spec_by_id, has_key, depends_on_of,
}
use draindeck.Queue.Topology.Counting.{count, IsDistinct}
use draindeck.Queue.Planner.{
  duplicates, from_keys, ids_of, exclusions, blockers_of, all_blockers, omitted_active,
  insert_sorted, sort_ids,
}

pub contains-keep :
    (p : String → Bool) (x : String) (l : List String)
    → contains x (keep p l) ≡ (contains x l && p x)
unfolding contains keep
contains-keep p x [] = refl
contains-keep p x (y ∷ l) = ground (arith, contains-keep p x l, ==_iff y x)

pub keep-IsDistinct : (p : String → Bool) (l : List String) → IsDistinct l → IsDistinct (keep p l)
unfolding keep
keep-IsDistinct p [] h = tt
keep-IsDistinct p (y ∷ l) h = ground (arith, keep-IsDistinct p l h.1, contains-keep p y l)

pub contains-from_keys :
    (x : String) (seen l : List String)
    → contains x (from_keys seen l) ≡ (contains x l && not (contains x seen))
unfolding contains from_keys
contains-from_keys x seen [] = refl
contains-from_keys x seen (y ∷ l) =
    ground (arith, contains-from_keys x seen l, contains-from_keys x (y ∷ seen) l, ==_iff y x)

pub has_key-spec_by_id :
    (x : String) (specs : List IssueSpec) (d : Dict String IssueSpec)
    → has_key x (spec_by_id specs d) ≡ (contains x (ids_of specs) || has_key x d)
unfolding spec_by_id contains
has_key-spec_by_id x [] d = refl
has_key-spec_by_id x (s ∷ ss) d =
    ground (arith, has_key-spec_by_id x ss (put s.id s d), get-put s.id x s d)

pub exclusions-nil :
    (states : States) (ids : List String) (x : String)
    → exclusions states ids ≡ []
    → contains x ids ≡ true
    → is_terminal x states ≡ false
unfolding exclusions contains
exclusions-nil states [] x e m = absurd (cc)
exclusions-nil states (y ∷ ids) x e m = ground (arith, exclusions-nil states ids x, ==_iff y x)

blockers_of-nil :
    (by_id : Dict String IssueSpec) (states : States) (chosen : List String) (iid : String)
    (deps : List String) (d : String)
    → blockers_of by_id states chosen iid deps ≡ []
    → contains d deps ≡ true
    → (contains d chosen || is_satisfied d states) ≡ true
unfolding blockers_of contains
blockers_of-nil by_id states chosen iid [] d e m = absurd (cc)
blockers_of-nil by_id states chosen iid (y ∷ deps) d e m =
    ground (arith, blockers_of-nil by_id states chosen iid deps d, ==_iff y d)

append-nil_left {ℓ} : {A : Type ℓ} (xs ys : List A) → xs ++ ys ≡ [] → (xs ≡ []) × (ys ≡ [])
append-nil_left [] ys e = (refl, e)
append-nil_left (x ∷ xs) ys e = absurd (cc)

pub all_blockers-nil :
    (by_id : Dict String IssueSpec) (states : States) (chosen ids : List String) (x d : String)
    → all_blockers by_id states chosen ids ≡ []
    → contains x ids ≡ true
    → contains d (depends_on_of by_id x) ≡ true
    → (contains d chosen || is_satisfied d states) ≡ true
unfolding all_blockers contains
all_blockers-nil by_id states chosen [] x d e m n = absurd (cc)
all_blockers-nil by_id states chosen (y ∷ ids) x d e m n =
    let (here, rest) =
      append-nil_left (blockers_of by_id states chosen y (depends_on_of by_id y))
        (all_blockers by_id states chosen ids) e in
    elim (Bool-cases (y == x)) [
      | inl s ↦
          blockers_of-nil by_id states chosen y (depends_on_of by_id y) d here
            (subst (λ k. contains d (depends_on_of by_id k) ≡ true) (sym ((==_iff y x).0 s)) n)
      | inr s ↦ all_blockers-nil by_id states chosen ids x d rest (ground arith) n
    ]

pub omitted_active-nil :
    (covered : String → Bool) (states : States) (x : String)
    → omitted_active covered states ≡ []
    → In (x, "ACTIVE") states
    → covered x ≡ true
unfolding omitted_active
omitted_active-nil covered [] x e m = absurd m
omitted_active-nil covered ((y, st) ∷ states) x e (inl s) = ground (
  arith,
  ==_iff st "ACTIVE",
  ap (λ (t : String × String). t.0) s,
  ap (λ (t : String × String). t.1) s,
)
omitted_active-nil covered ((y, st) ∷ states) x e (inr m) =
    ground (arith, omitted_active-nil covered states x, m)

insert_sorted-ne : (x : String) (l : List String) → insert_sorted x l ≡ [] → ⊥
unfolding insert_sorted
insert_sorted-ne x [] e = cc
insert_sorted-ne x (y ∷ l) e = ground arith

pub sort_ids-nil : (l : List String) → sort_ids l ≡ [] → l ≡ []
unfolding sort_ids
sort_ids-nil [] e = refl
sort_ids-nil (x ∷ l) e = absurd (insert_sorted-ne x (sort_ids l) e)

snoc-ne {ℓ} : {A : Type ℓ} (xs : List A) (x : A) → xs ++ x ∷ [] ≡ [] → ⊥
snoc-ne [] x e = cc
snoc-ne (y ∷ xs) x e = cc

-- With no id found twice, the ids are distinct and none was seen before.
record Fresh (seen l : List String) : Type 0 where
  distinct : IsDistinct l
  unseen : (x : String) → contains x l ≡ true → contains x seen ≡ false

duplicates-nil :
    (seen found l : List String) → duplicates seen found l ≡ [] → (found ≡ []) × Fresh seen l
unfolding duplicates contains
duplicates-nil seen found [] e = (e, record { distinct = tt; unseen = λ x m. cc })
duplicates-nil seen found (x ∷ l) e =
    elim (Bool-cases (contains x seen && not (contains x found))) [
      | inl again ↦
          absurd
            (snoc-ne found x ((duplicates-nil (x ∷ seen) (found ++ x ∷ []) l (rw again at e)).0))
      | inr new ↦
          let (none_found, fresh) = duplicates-nil (x ∷ seen) found l (rw new at e) in
          let first : contains x seen ≡ false =
            new_first
              (subst (λ f. (contains x seen && not (contains x f)) ≡ false) none_found new) in
          (
            none_found,
            record {
              distinct = (absent fresh, fresh.distinct);
              unseen = λ y m. elim (Bool-cases (x == y)) [
                | inl s ↦ subst (λ k. contains k seen ≡ false) ((==_iff x y).0 s) first
                | inr s ↦ ground (arith, fresh.unseen y)
              ];
            },
          )
    ]
  where
    new_first : (contains x seen && true) ≡ false → contains x seen ≡ false
    new_first h = ground arith

    absent : Fresh (x ∷ seen) l → contains x l ≡ false
    absent fresh = ground (arith, fresh.unseen x, ==_iff x x)

pub duplicates-IsDistinct : (l : List String) → duplicates [] [] l ≡ [] → IsDistinct l
duplicates-IsDistinct l e = (duplicates-nil [] [] l e).1.distinct

-- In a list of distinct ids each stands once.
pub count-IsDistinct :
    (x : String) (l : List String) → IsDistinct l → count x l ≡ (if contains x l then 1 else 0)
unfolding count contains
count-IsDistinct x [] h = refl
count-IsDistinct x (y ∷ l) h = ground (arith, count-IsDistinct x l h.1, ==_iff y x)
