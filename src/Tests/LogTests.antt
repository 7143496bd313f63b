-- ===== src/Tests/LogTests.antt =====
-- A log over an alphabet of whole values, and the theorems about the log at it.
use draindeck.Base.{
  ◌+◌, Bool, true, false, Option, none, some, List, [], ◌∷◌, ◌++◌, ◌≡◌, refl, arith,
}
use draindeck.Base.Lists.{length}
use draindeck.Base.Json
use draindeck.Base.Json.{Value, Fields, null, obj, end}
use draindeck.Base.Result.{Result, ok, err, json_decode_error}
use draindeck.Events.Schema
use draindeck.Events.Schema.{Event, issue_created, issue_activated}
use draindeck.Events.Log.Codec.{Codec, ReadBack, to_line, from_line, from_line-to_line}
use draindeck.Events.Log.Lines.{is_complete}
use draindeck.Events.Log.Replay.{replay, scan_last_event_id}
use draindeck.Events.Log.Append.{EventLog, OneLine, open_log, append, repair_torn_tail, flat}
use draindeck.Events.Log.Durability.{
  append_all, ids_from, numbered_from, append-replay, open_log-torn, repair_torn_tail-keeps,
}
use draindeck.Samples.{event}

-- A symbol is the text of one value, or a newline.
abbrev is_end : Option Value → Bool
is_end none = true
is_end (some v) = false

abbrev first_value : List (Option Value) → Option Value
first_value [] = none
first_value (s ∷ ss) = s

abbrev loaded : Option Value → Result Value
loaded none = err json_decode_error
loaded (some v) = ok v

abbrev pub whole_values : Codec
whole_values = record {
  Byte = Option Value;
  newline = none;
  is_newline = is_end;
  dumps = λ v. some v ∷ [];
  loads = λ bytes. loaded (first_value bytes);
  sorted = λ fs. fs;
  sort_value = λ v. v;
}

pub reads_back : ReadBack whole_values
reads_back = record {
  loads_dumps = λ fs. refl;
  get_sorted = λ k fs. ground arith;
  sort_null = refl;
  sort_str = λ s. refl;
  sort_int = λ n. refl;
  sort_obj = λ fs. refl;
}

pub one_line : OneLine whole_values
one_line = record { newline_is = refl; dumps_one_line = λ v. refl }

abbrev first : Event
first = event issue_created none 1 end

abbrev second : Event
second = event issue_activated none 0 end

program : Unit {0}
unfolding open_log append replay scan_last_event_id repair_torn_tail to_line from_line Json.get
    Json.get_null Schema.value Schema.of_value
program = tt

abbrev file : List (Option Value)
file = to_line whole_values first

abbrev opened : EventLog whole_values
opened = record { content = file; sidecars = []; last_event_id = 1; is_closed = false }

opens : open_log whole_values file ≡ ok opened
unfolding program
opens = refl

abbrev two : List Event
two = second ∷ second ∷ []

append-replay_example :
    (old : List Event) × (log' : EventLog whole_values) × (replay whole_values file ≡ ok old)
    × (append_all whole_values opened two ≡ ok (ids_from (length old) two, log'))
    × (log'.last_event_id ≡ length old + length two)
    × (replay whole_values log'.content ≡ ok (old ++ numbered_from whole_values (length old) two))
append-replay_example = append-replay whole_values reads_back one_line file opened two opens

from_line-to_line_example : from_line whole_values (to_line whole_values first) ≡ ok first
from_line-to_line_example = from_line-to_line whole_values reads_back first 0 refl

open_log-torn_example :
    (log' : EventLog whole_values) × (open_log whole_values (file ++ some null ∷ []) ≡ ok log')
    × (log'.sidecars ≡ (some null ∷ []) ∷ [])
    × (log'.last_event_id ≡ 1)
    × (replay whole_values log'.content ≡ replay whole_values file)
open_log-torn_example = open_log-torn whole_values file opened (some null) [] opens refl

repair_torn_tail-keeps_example :
    (flat (repair_torn_tail whole_values (some null ∷ [])) ≡ some null ∷ [])
    × (is_complete is_end (repair_torn_tail whole_values (some null ∷ [])).0 ≡ true)
repair_torn_tail-keeps_example = repair_torn_tail-keeps whole_values (some null ∷ [])
