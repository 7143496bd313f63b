-- ===== src/Dashboard/Rows.antt =====
-- What SQL statements do to the number of rows that pass a test, and to the ids of a table.
use draindeck.Base.{
  ℕ, suc, ◌+◌, ◌≤◌, Bool, true, false, some, List, [], ◌∷◌, ◌++◌, ◌≡◌, refl, ap, arith, nat_eq_iff,
  Bool-cases, inl, inr,
}
use draindeck.Base.Lists.{In}
use draindeck.Dashboard.Commands.{
  Command, find_where, count_where, update_where, delete_where, has_id, is_some,
}

module _ {R : Type 0} where
  -- An update whose change never makes a row pass.
  pub count_where-update_le :
      (p t : R → Bool) (f : R → R) (rows : List R)
      → ((r : R) → In r rows → t r ≡ true → p (f r) ≡ true → p r ≡ true)
      → count_where p (update_where t f rows) ≤ count_where p rows
  unfolding count_where update_where
  count_where-update_le p t f [] h = omega arith
  count_where-update_le p t f (r ∷ rows) h =
      ground (arith, h r (inl refl), count_where-update_le p t f rows (λ x m. h x (inr m)))

  pub count_where-append :
      (p : R → Bool) (xs ys : List R)
      → count_where p (xs ++ ys) ≡ count_where p xs + count_where p ys
  unfolding count_where
  count_where-append p [] ys = omega arith
  count_where-append p (x ∷ xs) ys = ground (arith, count_where-append p xs ys)

  pub count_where-delete_le :
      (p t : R → Bool) (rows : List R) → count_where p (delete_where t rows) ≤ count_where p rows
  unfolding count_where delete_where
  count_where-delete_le p t [] = omega arith
  count_where-delete_le p t (r ∷ rows) = ground (arith, count_where-delete_le p t rows)

  pub find_where-none :
      (p : R → Bool) (rows : List R) → is_some (find_where p rows) ≡ false → count_where p rows ≡ 0
  unfolding count_where find_where
  find_where-none p [] e = refl
  find_where-none p (r ∷ rows) e = elim (Bool-cases (p r)) [
    | inl passes ↦ absurd (cc (ap is_some (found passes), e))
    | inr fails ↦ ground (arith, find_where-none p rows (rw (fails, find_where) at e))
  ]
    where
      found : p r ≡ true → find_where p (r ∷ rows) ≡ some r
      found e = rw (e, find_where) refl

  pub find_where-In :
      (p : R → Bool) (rows : List R) {r : R} → find_where p rows ≡ some r → In r rows × (p r ≡ true)
  unfolding find_where
  find_where-In p [] e = absurd (cc)
  find_where-In p (x ∷ rows) {r} e = elim (Bool-cases (p x)) [
    | inl passes ↦
        let same = some-same (rw (passes, find_where) at e) in (inl same, cc (same, passes))
    | inr fails ↦
        let (m, passes) = find_where-In p rows (rw (fails, find_where) at e) in (inr m, passes)
  ]
    where
      some-same : {a b : R} → some a ≡ some b → a ≡ b
      some-same e = cc

-- The ids of a table rise, from `lo` on, and stay below `hi`.
abbrev pub Ordered : ℕ → List Command → ℕ → Type 0
Ordered lo [] hi = lo ≤ hi
Ordered lo (c ∷ rows) hi = (lo ≤ c.id) × Ordered (suc c.id) rows hi

Ordered-lower :
    (lo lo' hi : ℕ) (rows : List Command) → lo' ≤ lo → Ordered lo rows hi → Ordered lo' rows hi
Ordered-lower lo lo' hi [] le h = omega arith
Ordered-lower lo lo' hi (c ∷ rows) le h = (omega arith, h.1)

pub Ordered-In :
    (lo hi : ℕ) (rows : List Command) (c : Command) → Ordered lo rows hi → In c rows → lo ≤ c.id
Ordered-In lo hi [] c h m = absurd m
Ordered-In lo hi (d ∷ rows) c h (inl e) = omega (arith, h.0, ap (λ (x : Command). x.id) e)
Ordered-In lo hi (d ∷ rows) c h (inr m) = omega (arith, h.0, Ordered-In (suc d.id) hi rows c h.1 m)

-- An id names one row.
pub Ordered-unique :
    (lo hi : ℕ) (rows : List Command) (c d : Command)
    → Ordered lo rows hi
    → In c rows
    → In d rows
    → c.id ≡ d.id
    → c ≡ d
Ordered-unique lo hi [] c d h m n e = absurd m
Ordered-unique lo hi (r ∷ rows) c d h (inl p) (inl q) e = cc
Ordered-unique lo hi (r ∷ rows) c d h (inl p) (inr n) e =
    absurd (omega (arith, Ordered-In (suc r.id) hi rows d h.1 n, ap (λ (x : Command). x.id) p, e))
Ordered-unique lo hi (r ∷ rows) c d h (inr m) (inl q) e =
    absurd (omega (arith, Ordered-In (suc r.id) hi rows c h.1 m, ap (λ (x : Command). x.id) q, e))
Ordered-unique lo hi (r ∷ rows) c d h (inr m) (inr n) e =
    Ordered-unique (suc r.id) hi rows c d h.1 m n e

pub Ordered-update :
    (lo hi : ℕ) (t : Command → Bool) (f : Command → Command) (rows : List Command)
    → ((c : Command) → (f c).id ≡ c.id)
    → Ordered lo rows hi
    → Ordered lo (update_where t f rows) hi
unfolding update_where
Ordered-update lo hi t f [] same h = h
Ordered-update lo hi t f (c ∷ rows) same h = elim (Bool-cases (t c)) [
  | inl hit ↦ rw hit (rw (same c) (h.0, Ordered-update (suc c.id) hi t f rows same h.1))
  | inr miss ↦ rw miss (h.0, Ordered-update (suc c.id) hi t f rows same h.1)
]

pub Ordered-snoc :
    (lo hi : ℕ) (rows : List Command) (c : Command)
    → c.id ≡ hi
    → Ordered lo rows hi
    → Ordered lo (rows ++ c ∷ []) (suc hi)
Ordered-snoc lo hi [] c e h = (omega (arith, e, h), omega (arith, e))
Ordered-snoc lo hi (d ∷ rows) c e h = (h.0, Ordered-snoc (suc d.id) hi rows c e h.1)

pub Ordered-delete :
    (lo hi : ℕ) (t : Command → Bool) (rows : List Command)
    → Ordered lo rows hi
    → Ordered lo (delete_where t rows) hi
unfolding delete_where
Ordered-delete lo hi t [] h = h
Ordered-delete lo hi t (c ∷ rows) h = elim (Bool-cases (t c)) [
  | inl hit ↦ rw hit (
      Ordered-lower (suc c.id) lo hi (delete_where t rows) (omega (arith, h.0))
        (Ordered-delete (suc c.id) hi t rows h.1))
  | inr miss ↦ rw miss (h.0, Ordered-delete (suc c.id) hi t rows h.1)
]

update-absent :
    (n lo hi : ℕ) (f : Command → Command) (rows : List Command)
    → suc n ≤ lo
    → Ordered lo rows hi
    → update_where (has_id n) f rows ≡ rows
unfolding update_where
update-absent n lo hi f [] above h = refl
update-absent n lo hi f (c ∷ rows) above h =
    ground (
      arith,
      nat_eq_iff c.id n,
      update-absent n (suc c.id) hi f rows (omega (arith, above, h.0)) h.1,
    )

-- A change of one row adds one passing row at most.
pub count_where-update_row_le :
    (p : Command → Bool) (n lo hi : ℕ) (f : Command → Command) (rows : List Command)
    → Ordered lo rows hi
    → count_where p (update_where (has_id n) f rows) ≤ suc (count_where p rows)
unfolding update_where count_where
count_where-update_row_le p n lo hi f [] h = omega arith
count_where-update_row_le p n lo hi f (c ∷ rows) h = elim (Bool-cases (has_id n c)) [
  | inl hit ↦
      let same : c.id ≡ n = (nat_eq_iff c.id n).0 hit in
      rw (hit, update-absent n (suc c.id) hi f rows (omega (arith, same)) h.1) (ground arith)
  | inr miss ↦ rw miss (ground (arith, count_where-update_row_le p n (suc c.id) hi f rows h.1))
]
