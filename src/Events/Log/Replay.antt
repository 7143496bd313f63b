-- ===== src/Events/Log/Replay.antt =====
-- `EventLog.replay`, `_replay` and `_scan_last_event_id` of src/runtime/events/log.py.
use draindeck.Base.{
  ℕ, suc, ◌+◌, Bool, true, false, List, [], ◌∷◌, ◌++◌, ◌≡◌, refl, ap, ◌∙◌, arith, if◌then◌else◌,
  nat_eq, nat_eq_iff, Bool-cases, inl, inr,
}
use draindeck.Base.Lists.{length}
use draindeck.Base.Result.{
  Result, ok, err, schema_error, corruption_error, incomplete_log, ◌>>=◌, ◌>>◌, require, bind_elim,
  require_elim, ok-injective,
}
use draindeck.Events.Schema.{Event}
use draindeck.Events.Log.Codec.{Codec, from_line}
use draindeck.Events.Log.Lines.{lines, ends_line}

-- `except SchemaError as e: raise CorruptionError(…) from e`
abbrev as_corruption {ℓ} : {A : Type ℓ} → Result A → Result A
as_corruption (ok a) = ok a
as_corruption (err schema_error) = err corruption_error
as_corruption (err e) = err e

module _ (c : Codec) where
  -- The body of the `try`, and the test for a gap in the ids.
  unfoldable pub read_line : ℕ → List c.Byte → Result Event
  unfolding from_line
  read_line expected raw = do
    ev ← as_corruption (from_line c raw)
    require (nat_eq ev.event_id expected) corruption_error
    ok ev

  -- The loop of the three functions over the file's lines. A torn line ends the replay, with
  -- IncompleteLogError where `incomplete_is_error`. The generator yields the events one by one; an
  -- exception discards them, since its callers build a projection from all.
  unfoldable pub replay_lines : Bool → ℕ → List (List c.Byte) → Result (List Event)
  unfolding read_line ends_line
  replay_lines incomplete_is_error expected [] = ok []
  replay_lines incomplete_is_error expected (raw ∷ rest) =
      let later = replay_lines incomplete_is_error (suc expected) rest in
      if ends_line c.is_newline raw
      then (do ev ← read_line expected raw; evs ← later; ok (ev ∷ evs))
      else if incomplete_is_error
      then err incomplete_log
      else ok []

  -- ReadOnlyEventLog.replay
  unfoldable pub replay_read_only : List c.Byte → Result (List Event)
  unfolding replay_lines lines
  replay_read_only content = replay_lines true 1 (lines c.is_newline content)

  -- EventLog.replay
  unfoldable pub replay : List c.Byte → Result (List Event)
  unfolding replay_lines lines
  replay content = replay_lines false 1 (lines c.is_newline content)

  -- The loop of _scan_last_event_id; a torn line is corruption here.
  unfoldable pub scan_lines : ℕ → ℕ → List (List c.Byte) → Result ℕ
  unfolding read_line ends_line
  scan_lines last expected [] = ok last
  scan_lines last expected (raw ∷ rest) =
      if ends_line c.is_newline raw
      then (do ev ← read_line expected raw; scan_lines ev.event_id (suc expected) rest)
      else err corruption_error

  -- _scan_last_event_id
  unfoldable pub scan_last_event_id : List c.Byte → Result ℕ
  unfolding scan_lines lines
  scan_last_event_id content = scan_lines 0 1 (lines c.is_newline content)

  read_line-id :
      (n : ℕ) (raw : List c.Byte) (ev : Event) → read_line n raw ≡ ok ev → ev.event_id ≡ n
  unfolding read_line
  read_line-id n raw ev h = bind_elim (as_corruption (from_line c raw)) h λ e _ h1.
      require_elim (nat_eq e.event_id n) corruption_error h1
        λ same h2. ground (arith, ap (λ (t : Event). t.event_id) (ok-injective h2))

  -- The lines are complete and are read as these events, with ids from `expected` on.
  abbrev pub Reads : ℕ → List (List c.Byte) → List Event → Type 0
  Reads expected [] [] = Unit
  Reads expected (raw ∷ ls) (ev ∷ evs) =
      (ends_line c.is_newline raw ≡ true)
      × (read_line expected raw ≡ ok ev)
      × Reads (suc expected) ls evs
  Reads expected _ _ = ⊥

  -- If the scan succeeds, every line reads, and the last id is their number.
  pub scan_lines-Reads :
      (last expected : ℕ) (ls : List (List c.Byte)) {n : ℕ}
      → suc last ≡ expected
      → scan_lines last expected ls ≡ ok n
      → (evs : List Event) × Reads expected ls evs × (last + length evs ≡ n)
  unfolding scan_lines
  scan_lines-Reads last expected [] e h = ([], tt, ground (arith, ok-injective h))
  scan_lines-Reads last expected (raw ∷ rest) e h = elim (Bool-cases (ends_line c.is_newline raw)) [
    | inr torn ↦ absurd (ground arith)
    | inl whole ↦ bind_elim (read_line expected raw) (rw whole at h) λ ev read h1.
        let id = read_line-id expected raw ev read in
        let (evs, reads, total) = scan_lines-Reads ev.event_id (suc expected) rest (ap suc id) h1 in
        (ev ∷ evs, (whole, read, reads), omega (arith, id))
  ]

  pub Reads-scan_lines :
      (last expected : ℕ) (ls : List (List c.Byte)) (evs : List Event)
      → suc last ≡ expected
      → Reads expected ls evs
      → scan_lines last expected ls ≡ ok (last + length evs)
  unfolding scan_lines
  Reads-scan_lines last expected [] [] e r = ap ok (omega arith)
  Reads-scan_lines last expected [] (ev ∷ evs) e r = absurd r
  Reads-scan_lines last expected (raw ∷ ls) [] e r = absurd r
  Reads-scan_lines last expected (raw ∷ ls) (ev ∷ evs) e r =
      let id = read_line-id expected raw ev r.1 in
      rw (r.0, r.1)
        (Reads-scan_lines ev.event_id (suc expected) ls evs (ap suc id) r.2
          ∙ ap ok (omega (arith, id)))

  pub Reads-replay_lines :
      (mode : Bool) (expected : ℕ) (ls : List (List c.Byte)) (evs : List Event)
      → Reads expected ls evs
      → replay_lines mode expected ls ≡ ok evs
  unfolding replay_lines
  Reads-replay_lines mode expected [] [] r = refl
  Reads-replay_lines mode expected [] (ev ∷ evs) r = absurd r
  Reads-replay_lines mode expected (raw ∷ ls) [] r = absurd r
  Reads-replay_lines mode expected (raw ∷ ls) (ev ∷ evs) r =
      rw (r.0, r.1, Reads-replay_lines mode (suc expected) ls evs r.2)

  pub Reads-snoc :
      (expected : ℕ) (ls : List (List c.Byte)) (evs : List Event) (raw : List c.Byte) (ev : Event)
      → Reads expected ls evs
      → ends_line c.is_newline raw ≡ true
      → read_line (expected + length evs) raw ≡ ok ev
      → Reads expected (ls ++ raw ∷ []) (evs ++ ev ∷ [])
  Reads-snoc expected [] [] raw ev r whole read =
      let e : expected + 0 ≡ expected = omega arith in (whole, rw e at read, tt)
  Reads-snoc expected [] (x ∷ evs) raw ev r whole read = absurd r
  Reads-snoc expected (l ∷ ls) [] raw ev r whole read = absurd r
  Reads-snoc expected (l ∷ ls) (x ∷ evs) raw ev r whole read =
      let e : expected + suc (length evs) ≡ suc expected + length evs = omega arith in
      (r.0, r.1, Reads-snoc (suc expected) ls evs raw ev r.2 whole (rw e at read))

  pub read_line-reads :
      (n : ℕ) (raw : List c.Byte) (ev : Event)
      → from_line c raw ≡ ok ev
      → ev.event_id ≡ n
      → read_line n raw ≡ ok ev
  unfolding read_line
  read_line-reads n raw ev read id = rw (read, (nat_eq_iff ev.event_id n).1 id)
