-- ===== src/Events/Log/Append.antt =====
-- `EventLog` of src/runtime/events/log.py: opening, repair of a torn tail, append and close. The
-- writer's mutex is not part of the state: the log is open in one process.
use draindeck.Base.{
  ℕ, suc, ◌+◌, Bool, true, false, not, List, [], ◌∷◌, ◌++◌, ◌≡◌, refl, sym, ap, ◌∙◌, subst, arith,
  if◌then◌else◌, Bool-cases, inl, inr,
}
use mathlib.Core.List.{append-nil}
use draindeck.Base.Lists.{length, length-append}
use draindeck.Base.Json.{Value}
use draindeck.Base.Result.{
  Result, ok, closed, ◌>>=◌, ◌>>◌, require, bind_elim, require_elim, ok-injective,
}
use draindeck.Events.Schema.{Event}
use draindeck.Events.Log.Codec.{Codec, ReadBack, to_line, reread, from_line-to_line}
use draindeck.Events.Log.Lines.{
  lines, ends_line, is_complete, has_newline, tail_start, take, drop, lines-append_complete,
  lines-line, ends_line-line, tail_start-append, is_complete-torn, is_complete-append, take-length,
  drop-length, take-drop, is_complete-line, is_complete-take,
}
use draindeck.Events.Log.Replay.{
  read_line, replay, scan_last_event_id, Reads, scan_lines-Reads, Reads-scan_lines,
  Reads-replay_lines, Reads-snoc, read_line-reads,
}

-- The file, the files beside it that hold torn bytes, and the object's fields.
pub record EventLog (c : Codec) : Type 0 where
  pub content : List c.Byte
  pub sidecars : List (List c.Byte)
  pub last_event_id : ℕ
  pub is_closed : Bool

-- What `json.dumps` without indentation promises: a newline inside a value is escaped.
pub record OneLine (c : Codec) : Type 0 where
  pub newline_is : c.is_newline c.newline ≡ true
  pub dumps_one_line : (v : Value) → has_newline c.is_newline (c.dumps v) ≡ false

-- The file and the sidecar, one behind the other.
abbrev pub flat {ℓ} : {B : Type ℓ} → List B × List (List B) → List B
flat (kept, []) = kept ++ []
flat (kept, t ∷ ts) = kept ++ (t ++ [])

module _ (c : Codec) where
  -- _repair_torn_tail: the bytes behind the last newline move to a sidecar.
  unfoldable pub repair_torn_tail : List c.Byte → List c.Byte × List (List c.Byte)
  unfolding is_complete tail_start
  repair_torn_tail file =
      if is_complete c.is_newline file
      then (file, [])
      else (let start = tail_start c.is_newline file in (take start file, drop start file ∷ []))

  -- EventLog.__init__, once the lease is held
  unfoldable pub open_log : List c.Byte → Result (EventLog c)
  unfolding repair_torn_tail scan_last_event_id
  open_log file =
      let (kept, torn) = repair_torn_tail file in
      do
        last ← scan_last_event_id c kept
        ok (record { content = kept; sidecars = torn; last_event_id = last; is_closed = false })

  -- EventLog.append: the event's id, and the log with its line.
  unfoldable pub append : EventLog c → Event → Result (ℕ × EventLog c)
  unfolding to_line
  append log ev =
      let eid = log.last_event_id + 1 in
      do
        require (not log.is_closed) closed
        ok (
          eid,
          record log {
            content = log.content ++ to_line c (record ev { event_id = eid });
            last_event_id = eid;
          },
        )

  -- EventLog.close
  unfoldable pub close : EventLog c → EventLog c
  close log = record log { is_closed = true }

  -- What holds of an open log: its lines are complete and read as `events`, numbered from 1.
  pub record Holds (log : EventLog c) (events : List Event) : Type 0 where
    pub complete : is_complete c.is_newline log.content ≡ true
    pub reads : Reads c 1 (lines c.is_newline log.content) events
    pub numbered : log.last_event_id ≡ length events

  pub Holds-replay :
      (log : EventLog c) (evs : List Event) → Holds log evs → replay c log.content ≡ ok evs
  unfolding replay
  Holds-replay log evs h = Reads-replay_lines c false 1 (lines c.is_newline log.content) evs h.reads

  one_line : OneLine c → (ev : Event) → lines c.is_newline (to_line c ev) ≡ to_line c ev ∷ []
  unfolding to_line
  one_line text ev = lines-line c.is_newline c.newline _ text.newline_is (text.dumps_one_line _)

  whole_line : OneLine c → (ev : Event) → ends_line c.is_newline (to_line c ev) ≡ true
  unfolding to_line
  whole_line text ev = ends_line-line c.is_newline c.newline _ text.newline_is

  complete_line : OneLine c → (ev : Event) → is_complete c.is_newline (to_line c ev) ≡ true
  unfolding to_line
  complete_line text ev = is_complete-line c.is_newline c.newline _ text.newline_is

  module _ (laws : ReadBack c) (text : OneLine c) where
    pub append-Holds :
        (log log' : EventLog c) (evs : List Event) (ev : Event) (eid : ℕ)
        → Holds log evs
        → append log ev ≡ ok (eid, log')
        → (eid ≡ suc (length evs))
          × Holds log' (evs ++ reread c (record ev { event_id = eid }) ∷ [])
    unfolding append
    append-Holds log log' evs ev eid h e = require_elim (not log.is_closed) closed e λ _ e1.
        let id : log.last_event_id + 1 ≡ eid = ap (λ (t : ℕ × EventLog c). t.0) (ok-injective e1) in
        let log_is = ap (λ (t : ℕ × EventLog c). t.1) (ok-injective e1) in
        subst
          (λ (k : ℕ).
            (k ≡ suc (length evs)) × Holds log' (evs ++ reread c (record ev { event_id = k }) ∷ []))
          id
          (subst
            (λ l.
              (log.last_event_id + 1 ≡ suc (length evs)) × Holds l (evs ++ reread c written ∷ []))
            log_is (omega (arith, h.numbered), appended))
      where
        written : Event
        written = record ev { event_id = log.last_event_id + 1 }

        id_written : log.last_event_id + 1 ≡ suc (length evs)
        id_written = omega (arith, h.numbered)

        line : List c.Byte
        line = to_line c written

        reads_back : read_line c (1 + length evs) line ≡ ok (reread c written)
        reads_back =
            read_line-reads c (1 + length evs) line (reread c written)
              (from_line-to_line c laws written (length evs) id_written) (omega (arith, id_written))

        appended :
            Holds
              (record log { content = log.content ++ line; last_event_id = log.last_event_id + 1 })
              (evs ++ reread c written ∷ [])
        appended = record {
          complete =
              is_complete-append c.is_newline log.content line h.complete
                (complete_line text written);
          reads =
              rw
                (
                  lines-append_complete c.is_newline log.content line h.complete,
                  one_line text written,
                )
                (Reads-snoc c 1 (lines c.is_newline log.content) evs line (reread c written) h.reads
                  (whole_line text written) reads_back);
          numbered = omega (arith, id_written, length-append evs (reread c written ∷ []));
        }

  pub repaired_complete :
      (file : List c.Byte) → is_complete c.is_newline (repair_torn_tail file).0 ≡ true
  unfolding repair_torn_tail
  repaired_complete file = elim (Bool-cases (is_complete c.is_newline file)) [
    | inl whole ↦ rw whole whole
    | inr torn ↦ rw torn (is_complete-take c.is_newline file)
  ]

  -- Whatever open_log accepts, it holds the events that its complete lines hold.
  pub open_log-Holds :
      (file : List c.Byte) (log : EventLog c)
      → open_log file ≡ ok log
      → (evs : List Event) × Holds log evs
  unfolding open_log
  open_log-Holds file log e =
      bind_elim (scan_last_event_id c (repair_torn_tail file).0) e λ last scanned e1.
        let log_is = ok-injective e1 in
        let (evs, reads, total) =
          scan_lines-Reads c 0 1 (lines c.is_newline (repair_torn_tail file).0) refl
            (unfold scan_last_event_id in scanned) in
        (
          evs,
          subst (λ l. Holds l evs) log_is
              (record {
                complete = repaired_complete file;
                reads = reads;
                numbered = omega (arith, total);
              }),
        )

  pub open_log-is_open :
      (file : List c.Byte) (log : EventLog c) → open_log file ≡ ok log → log.is_closed ≡ false
  unfolding open_log
  open_log-is_open file log e =
      bind_elim (scan_last_event_id c (repair_torn_tail file).0) e
        λ last _ e1. ap (λ (l : EventLog c). l.is_closed) (sym (ok-injective e1))

  scanned :
      (log : EventLog c) (evs : List Event)
      → Holds log evs
      → scan_last_event_id c log.content ≡ ok log.last_event_id
  unfolding scan_last_event_id
  scanned log evs h =
      Reads-scan_lines c 0 1 (lines c.is_newline log.content) evs refl h.reads
      ∙ ap ok (omega (arith, h.numbered))

  pub torn-Holds :
      (log : EventLog c) (evs : List Event) (b : c.Byte) (torn : List c.Byte)
      → Holds log evs
      → has_newline c.is_newline (b ∷ torn) ≡ false
      → open_log (log.content ++ b ∷ torn)
        ≡ ok (record {
          content = log.content;
          sidecars = (b ∷ torn) ∷ [];
          last_event_id = log.last_event_id;
          is_closed = false;
        })
  unfolding open_log repair_torn_tail
  torn-Holds log evs b torn h t = rw (is_complete-torn c.is_newline log.content b torn t) (
      rw (tail_start-append c.is_newline log.content (b ∷ torn) h.complete t) (
        rw (take-length log.content (b ∷ torn), drop-length log.content (b ∷ torn))
          (rw (scanned log evs h) refl)))

  pub repaired_whole : (file : List c.Byte) → flat (repair_torn_tail file) ≡ file
  unfolding repair_torn_tail
  repaired_whole file = elim (Bool-cases (is_complete c.is_newline file)) [
    | inl whole ↦ rw whole (append-nil file)
    | inr torn ↦ rw torn (
        ap (λ l. take (tail_start c.is_newline file) file ++ l)
          (append-nil (drop (tail_start c.is_newline file) file))
        ∙ take-drop (tail_start c.is_newline file) file)
  ]
