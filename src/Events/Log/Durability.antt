-- ===== src/Events/Log/Durability.antt =====
-- What the log keeps across append, crash, repair and reopening.
use draindeck.Base.{ℕ, suc, ◌+◌, true, false, List, [], ◌∷◌, ◌++◌, ◌≡◌, refl, sym, subst, arith}
use mathlib.Core.List.{append-nil, append_assoc}
use draindeck.Base.Lists.{length}
use draindeck.Base.Result.{Result, ok, ◌>>=◌}
use draindeck.Events.Schema.{Event}
use draindeck.Events.Log.Codec.{Codec, ReadBack, to_line, reread}
use draindeck.Events.Log.Lines.{is_complete, has_newline}
use draindeck.Events.Log.Replay.{replay}
use draindeck.Events.Log.Append.{
  EventLog, OneLine, open_log, append, repair_torn_tail, flat, Holds, Holds-replay, append-Holds,
  open_log-is_open, open_log-Holds, torn-Holds, repaired_complete, repaired_whole,
}

-- Appends one behind the other, and the ids that they return.
unfoldable pub append_all : (c : Codec) → EventLog c → List Event → Result (List ℕ × EventLog c)
unfolding append
append_all c log [] = ok ([], log)
append_all c log (ev ∷ evs) = do
  one ← append c log ev
  rest ← append_all c one.1 evs
  ok (one.0 ∷ rest.0, rest.1)

-- The ids behind `n`, one for each event.
abbrev pub ids_from : ℕ → List Event → List ℕ
ids_from n [] = []
ids_from n (ev ∷ evs) = suc n ∷ ids_from (suc n) evs

-- The events under these ids, as they are read back.
abbrev pub numbered_from : (c : Codec) → ℕ → List Event → List Event
numbered_from c n [] = []
numbered_from c n (ev ∷ evs) =
    reread c (record ev { event_id = suc n }) ∷ numbered_from c (suc n) evs

module _ (c : Codec) (laws : ReadBack c) (text : OneLine c) where
  -- The log behind an append under the id `k`.
  abbrev appended : EventLog c → Event → ℕ → EventLog c
  appended log ev k = record log {
    content = log.content ++ to_line c (record ev { event_id = k });
    last_event_id = k;
  }

  append-open :
      (log : EventLog c) (ev : Event) (n : ℕ)
      → log.is_closed ≡ false
      → log.last_event_id ≡ n
      → append c log ev ≡ ok (suc n, appended log ev (suc n))
  unfolding append
  append-open log ev n is_open e =
      let next : log.last_event_id + 1 ≡ suc n = omega (arith, e) in
      subst (λ k. append c log ev ≡ ok (k, appended log ev k)) next (rw is_open refl)

  append_all-Holds :
      (log : EventLog c) (old evs : List Event) (n : ℕ)
      → log.is_closed ≡ false
      → log.last_event_id ≡ n
      → Holds c log old
      → (log' : EventLog c) × (append_all c log evs ≡ ok (ids_from n evs, log'))
        × (log'.last_event_id ≡ n + length evs)
        × Holds c log' (old ++ numbered_from c n evs)
  unfolding append_all
  append_all-Holds log old [] n is_open e h =
      (log, refl, omega (arith, e), subst (Holds c log) (sym (append-nil old)) h)
  append_all-Holds log old (ev ∷ evs) n is_open e h =
      let one = append-open log ev n is_open e in
      let next = appended log ev (suc n) in
      let (_, held) = append-Holds c laws text log next old ev (suc n) h one in
      let row = reread c (record ev { event_id = suc n }) in
      let (log', rest, last, all) =
        append_all-Holds next (old ++ row ∷ []) evs (suc n) is_open refl held in
      (
        log',
        rw (one, rest) refl,
        omega (arith, last),
        subst (Holds c log') (append_assoc old (row ∷ []) (numbered_from c (suc n) evs)) all,
      )

  -- Any number of appends to an opened log succeed, one behind the other: they return the ids that
  -- follow the number of events before them, without a gap or a repetition; the log replays to the
  -- events that it replayed to before, and behind them the new ones under these ids; and its counter
  -- stands at the last of them. An event is read back as it was written, but for the order of keys in
  -- its payload. Assumes that `json` reads back what it writes, and writes no newline inside a line.
  pub append-replay :
      (file : List c.Byte) (log : EventLog c) (evs : List Event)
      → open_log c file ≡ ok log
      → (old : List Event) × (log' : EventLog c) × (replay c log.content ≡ ok old)
        × (append_all c log evs ≡ ok (ids_from (length old) evs, log'))
        × (log'.last_event_id ≡ length old + length evs)
        × (replay c log'.content ≡ ok (old ++ numbered_from c (length old) evs))
  append-replay file log evs opened =
      let (old, holds) = open_log-Holds c file log opened in
      let (log', all, last, after) =
        append_all-Holds log old evs (length old) (open_log-is_open c file log opened)
          holds.numbered holds in
      (old, log', Holds-replay c log old holds, all, last, Holds-replay c log' _ after)

-- A crash in the middle of a write leaves bytes without a newline behind the file of an opened log.
-- Opening that file gives back the log as it was before the write, with the torn bytes in a
-- sidecar, and the same replay.
pub open_log-torn :
    (c : Codec) (file : List c.Byte) (log : EventLog c) (b : c.Byte) (torn : List c.Byte)
    → open_log c file ≡ ok log
    → has_newline c.is_newline (b ∷ torn) ≡ false
    → (log' : EventLog c) × (open_log c (log.content ++ b ∷ torn) ≡ ok log')
      × (log'.sidecars ≡ (b ∷ torn) ∷ [])
      × (log'.last_event_id ≡ log.last_event_id)
      × (replay c log'.content ≡ replay c log.content)
open_log-torn c file log b torn opened t =
    let (evs, holds) = open_log-Holds c file log opened in
    (_, torn-Holds c log evs b torn holds t, refl, refl, refl)

-- The repair of any file keeps every byte, in the file or in the sidecar, and leaves a file that is
-- empty or ends in a newline.
pub repair_torn_tail-keeps :
    (c : Codec) (file : List c.Byte)
    → (flat (repair_torn_tail c file) ≡ file)
      × (is_complete c.is_newline (repair_torn_tail c file).0 ≡ true)
repair_torn_tail-keeps c file = (repaired_whole c file, repaired_complete c file)
