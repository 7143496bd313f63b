-- ===== src/Events/Log/Lines.antt =====
-- The lines of a file, as Python's `for raw in fh` gives them: each with its newline, but for a torn
-- last one.
use draindeck.Base.{
  ℕ, zero, suc, Bool, true, false, List, [], ◌∷◌, ◌++◌, ◌≡◌, refl, sym, ap, ◌∙◌, arith,
  if◌then◌else◌, Bool-cases, inl, inr,
}
use draindeck.Base.Lists.{length}

module _ {ℓ} {A : Type ℓ} where
  abbrev pub take : ℕ → List A → List A
  take zero xs = []
  take (suc n) [] = []
  take (suc n) (x ∷ xs) = x ∷ take n xs

  abbrev pub drop : ℕ → List A → List A
  drop zero xs = xs
  drop (suc n) [] = []
  drop (suc n) (x ∷ xs) = drop n xs

module _ {B : Type 0} (is_newline : B → Bool) where
  -- The next byte goes in front of the first line.
  abbrev pub onto : B → List (List B) → List (List B)
  onto b [] = (b ∷ []) ∷ []
  onto b (l ∷ ls) = (b ∷ l) ∷ ls

  unfoldable pub lines : List B → List (List B)
  lines [] = []
  lines (b ∷ bs) = let rest = lines bs in if is_newline b then (b ∷ []) ∷ rest else onto b rest

  -- raw.endswith(b"\n")
  unfoldable pub ends_line : List B → Bool
  ends_line [] = false
  ends_line (b ∷ []) = is_newline b
  ends_line (b ∷ c ∷ bs) = ends_line (c ∷ bs)

  -- The file is empty, or its last line is complete.
  unfoldable pub is_complete : List B → Bool
  unfolding ends_line
  is_complete [] = true
  is_complete (b ∷ bs) = ends_line (b ∷ bs)

  abbrev pub has_newline : List B → Bool
  has_newline [] = false
  has_newline (b ∷ bs) = if is_newline b then true else has_newline bs

  -- data.rfind(b"\n") + 1: where the bytes behind the last newline begin.
  unfoldable pub tail_start : List B → ℕ
  tail_start [] = 0
  tail_start (b ∷ bs) =
      let rest = tail_start bs in
      elim rest [ suc k ↦ suc (suc k) | zero ↦ if is_newline b then 1 else 0 ]

  lines-newline : (b : B) (bs : List B) → is_newline b ≡ true → lines (b ∷ bs) ≡ (b ∷ []) ∷ lines bs
  unfolding lines
  lines-newline b bs e = rw e

  lines-other : (b : B) (bs : List B) → is_newline b ≡ false → lines (b ∷ bs) ≡ onto b (lines bs)
  unfolding lines
  lines-other b bs e = rw e

  onto-ne : (b : B) (ls : List (List B)) → onto b ls ≡ [] → ⊥
  onto-ne b [] e = cc
  onto-ne b (l ∷ ls) e = cc

  lines-ne : (b : B) (bs : List B) → lines (b ∷ bs) ≡ [] → ⊥
  lines-ne b bs e = elim (Bool-cases (is_newline b)) [
    | inl n ↦ cc (lines-newline b bs n)
    | inr n ↦ onto-ne b (lines bs) (sym (lines-other b bs n) ∙ e)
  ]

  onto-append :
      (b : B) (ls ms : List (List B)) → (ls ≡ [] → ⊥) → onto b (ls ++ ms) ≡ onto b ls ++ ms
  onto-append b [] ms h = absurd (h refl)
  onto-append b (l ∷ ls) ms h = refl

  -- Behind a file whose last line is complete, more bytes are more lines.
  pub lines-append_complete :
      (xs ys : List B) → is_complete xs ≡ true → lines (xs ++ ys) ≡ lines xs ++ lines ys
  unfolding is_complete
  lines-append_complete [] ys h = unfold lines in refl
  lines-append_complete (b ∷ []) ys h =
      rw (lines-newline b ys h, lines-newline b [] h) (unfold lines in refl)
  lines-append_complete (b ∷ c ∷ bs) ys h = elim (Bool-cases (is_newline b)) [
    | inl e ↦
        rw (lines-newline b (c ∷ bs ++ ys) e, lines-newline b (c ∷ bs) e)
          (ap (λ ls. (b ∷ []) ∷ ls) (lines-append_complete (c ∷ bs) ys h))
    | inr e ↦
        rw (lines-other b (c ∷ bs ++ ys) e, lines-other b (c ∷ bs) e)
          (ap (onto b) (lines-append_complete (c ∷ bs) ys h)
            ∙ onto-append b (lines (c ∷ bs)) (lines ys) (lines-ne c bs))
  ]

  -- Bytes without a newline are one torn line, and with a newline behind them a complete one.
  pub lines-one :
      (b : B) (bs : List B) → has_newline (b ∷ bs) ≡ false → lines (b ∷ bs) ≡ (b ∷ bs) ∷ []
  lines-one b [] h = elim (Bool-cases (is_newline b)) [
    | inl e ↦ absurd (ground arith)
    | inr e ↦ rw (lines-other b [] e) (unfold lines in refl)
  ]
  lines-one b (c ∷ cs) h = elim (Bool-cases (is_newline b)) [
    | inl e ↦ absurd (ground arith)
    | inr e ↦ rw (lines-other b (c ∷ cs) e) (ap (onto b) (lines-one c cs (ground arith)))
  ]

  pub lines-line :
      (n : B) (bs : List B)
      → is_newline n ≡ true
      → has_newline bs ≡ false
      → lines (bs ++ n ∷ []) ≡ (bs ++ n ∷ []) ∷ []
  lines-line n [] e h = lines-newline n [] e ∙ unfold lines in refl
  lines-line n (b ∷ bs) e h = elim (Bool-cases (is_newline b)) [
    | inl k ↦ absurd (ground arith)
    | inr k ↦ rw (lines-other b (bs ++ n ∷ []) k) (ap (onto b) (lines-line n bs e (ground arith)))
  ]

  pub ends_line-line : (n : B) (bs : List B) → is_newline n ≡ true → ends_line (bs ++ n ∷ []) ≡ true
  unfolding ends_line
  ends_line-line n [] e = e
  ends_line-line n (b ∷ []) e = e
  ends_line-line n (b ∷ c ∷ bs) e = ends_line-line n (c ∷ bs) e

  pub ends_line-torn : (bs : List B) → has_newline bs ≡ false → ends_line bs ≡ false
  unfolding ends_line
  ends_line-torn [] h = refl
  ends_line-torn (b ∷ []) h = ground arith
  ends_line-torn (b ∷ c ∷ bs) h = ends_line-torn (c ∷ bs) (ground arith)

  tail_start-torn : (ys : List B) → has_newline ys ≡ false → tail_start ys ≡ 0
  unfolding tail_start
  tail_start-torn [] h = refl
  tail_start-torn (b ∷ ys) h = ground (arith, tail_start-torn ys)

  -- The torn bytes begin where the complete lines end.
  pub tail_start-append :
      (xs ys : List B)
      → is_complete xs ≡ true
      → has_newline ys ≡ false
      → tail_start (xs ++ ys) ≡ length xs
  unfolding tail_start is_complete
  tail_start-append [] ys h k = tail_start-torn ys k
  tail_start-append (b ∷ []) ys h k = ground (arith, tail_start-torn ys k)
  tail_start-append (b ∷ c ∷ bs) ys h k = ground (arith, tail_start-append (c ∷ bs) ys h k)

  pub is_complete-torn :
      (xs : List B) (b : B) (bs : List B)
      → has_newline (b ∷ bs) ≡ false
      → is_complete (xs ++ b ∷ bs) ≡ false
  unfolding is_complete
  is_complete-torn [] b bs h = ends_line-torn (b ∷ bs) h
  is_complete-torn (x ∷ []) b bs h = is_complete-torn [] b bs h
  is_complete-torn (x ∷ y ∷ xs) b bs h = is_complete-torn (y ∷ xs) b bs h

  pub is_complete-append :
      (xs ys : List B)
      → is_complete xs ≡ true
      → is_complete ys ≡ true
      → is_complete (xs ++ ys) ≡ true
  unfolding is_complete
  is_complete-append [] ys h k = k
  is_complete-append (x ∷ []) [] h k = h
  is_complete-append (x ∷ []) (y ∷ ys) h k = k
  is_complete-append (x ∷ y ∷ xs) ys h k = is_complete-append (y ∷ xs) ys h k

  pub is_complete-line :
      (n : B) (bs : List B) → is_newline n ≡ true → is_complete (bs ++ n ∷ []) ≡ true
  unfolding is_complete
  is_complete-line n [] e = e
  is_complete-line n (b ∷ bs) e = ends_line-line n (b ∷ bs) e

  is_complete-put :
      (b : B) (bs : List B) (k : ℕ)
      → tail_start bs ≡ k
      → is_complete (take k bs) ≡ true
      → is_complete (take (tail_start (b ∷ bs)) (b ∷ bs)) ≡ true
  unfolding is_complete tail_start
  is_complete-put b bs zero e h = elim (Bool-cases (is_newline b)) [
    | inl n ↦ rw (e, tail_start) (rw n n)
    | inr n ↦ rw (e, tail_start) (rw n refl)
  ]
  is_complete-put b [] (suc k) e h = absurd (cc)
  is_complete-put b (c ∷ bs) (suc k) e h = rw (e, tail_start) h

  -- The bytes before the torn ones are complete lines.
  pub is_complete-take : (xs : List B) → is_complete (take (tail_start xs) xs) ≡ true
  is_complete-take [] = unfold is_complete tail_start in refl
  is_complete-take (b ∷ bs) = is_complete-put b bs (tail_start bs) refl (is_complete-take bs)

module _ {B : Type 0} where
  pub take-length : (xs ys : List B) → take (length xs) (xs ++ ys) ≡ xs
  take-length [] [] = refl
  take-length [] (y ∷ ys) = refl
  take-length (x ∷ xs) ys = ap (λ l. x ∷ l) (take-length xs ys)

  pub take-drop : (n : ℕ) (xs : List B) → take n xs ++ drop n xs ≡ xs
  take-drop zero xs = refl
  take-drop (suc n) [] = refl
  take-drop (suc n) (x ∷ xs) = ap (λ l. x ∷ l) (take-drop n xs)

  pub drop-length : (xs ys : List B) → drop (length xs) (xs ++ ys) ≡ ys
  drop-length [] ys = refl
  drop-length (x ∷ xs) ys = drop-length xs ys
