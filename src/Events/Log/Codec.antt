-- ===== src/Events/Log/Codec.antt =====
-- `Event.to_line` and `Event.from_line` of src/runtime/events/schema.py, over Python's `json`.
use Prim.Native.Nat.{◌^◌}
use draindeck.Base.{
  ℕ, suc, ◌*◌, String, Bool, true, false, Option, none, some, List, [], ◌∷◌, ◌++◌, ◌≡◌, refl, ap,
  ◌∙◌, string_comparable, nat_eq,
}
use draindeck.Base.Json
use draindeck.Base.Json.{
  Value, Fields, null, bool, int, float, str, arr, obj, pos, negsuc, finite, infinite, nan, end,
  field, Float,
}
use draindeck.Base.Result.{
  Result, ok, err, type_error, key_error, schema_error, json_decode_error, untyped_field, ◌>>=◌,
  ◌>>◌, require, of_option,
}
use draindeck.Events.Schema
use draindeck.Events.Schema.{Event, EventType, of_value, of_value-value, schema_version}

-- The bytes of the file and the `json` module: `json.dumps` with sorted keys and compact
-- separators, and `json.loads`. `sorted` and `sort_value` are what writing and reading makes of an
-- object and of a value: the same, with the keys of every object in order.
pub record Codec : Type 1 where
  pub Byte : Type 0
  pub newline : Byte
  pub is_newline : Byte → Bool
  pub dumps : Value → List Byte
  pub loads : List Byte → Result Value
  pub sorted : Fields → Fields
  pub sort_value : Value → Value

abbrev map_option {ℓ κ} : {A : Type ℓ} {B : Type κ} → (A → B) → Option A → Option B
map_option f none = none
map_option f (some a) = some (f a)

-- What the documentation of `json` says: an object is read back, whatever follows being blank;
-- only the order of its keys is lost.
pub record ReadBack (c : Codec) : Type 0 where
  pub loads_dumps :
      (fs : Fields) → c.loads (c.dumps (obj fs) ++ c.newline ∷ []) ≡ ok (obj (c.sorted fs))
  pub get_sorted :
      (k : String) (fs : Fields)
      → Json.get k (c.sorted fs) ≡ map_option c.sort_value (Json.get k fs)
  pub sort_null : c.sort_value null ≡ null
  pub sort_str : (s : String) → c.sort_value (str s) ≡ str s
  pub sort_int : (n : ℕ) → c.sort_value (int (pos n)) ≡ int (pos n)
  pub sort_obj : (fs : Fields) → c.sort_value (obj fs) ≡ obj (c.sorted fs)

-- None and a text, as JSON.
abbrev pub of_text : Option String → Value
of_text none = null
of_text (some s) = str s

abbrev envelope : Event → Fields
envelope ev = field "event_id" (int (pos ev.event_id)) (
    field "schema_version" (int (pos schema_version)) (
      field "ts" (str ev.ts) (
        field "run_id" ev.run_id (
          field "type" (str (Schema.value ev.type)) (
            field "issue_id" (of_text ev.issue_id) (
              field "execution_id" (of_text ev.execution_id)
                (field "payload" (obj ev.payload) end)))))))

-- `mantissa * 2 ** exponent == 1`
abbrev is_one : Float → Bool
is_one (finite false m (pos e)) = nat_eq (m * 2 ^ e) 1
is_one (finite false m (negsuc e)) = nat_eq m (2 ^ suc e)
is_one _ = false

-- `sv != SCHEMA_VERSION`: True and 1.0 equal 1 in Python.
abbrev is_version : Value → Bool
is_version (int (pos n)) = nat_eq n 1
is_version (bool b) = b
is_version (float f) = is_one f
is_version _ = false

-- `isinstance(eid, int) and eid >= 1`: True is an int, and is 1.
abbrev as_event_id : Value → Result ℕ
as_event_id (int (pos (suc n))) = ok (suc n)
as_event_id (bool true) = ok 1
as_event_id _ = err schema_error

abbrev as_payload : Value → Result Fields
as_payload (obj fs) = ok fs
as_payload _ = err schema_error

-- A field that is declared `Optional[str]`. The code stores any JSON value unchecked; the model
-- has no event for a value outside the declared type.
abbrev as_text : Value → Result (Option String)
as_text null = ok none
as_text (str s) = ok (some s)
as_text _ = err untyped_field

abbrev as_ts : Value → Result String
as_ts (str s) = ok s
as_ts _ = err untyped_field

abbrev as_type : Value → Result EventType
as_type (str s) = of_option schema_error (of_value s)
as_type _ = err schema_error

-- `obj["type"]` on a value that is no dict raises TypeError, which is not caught.
abbrev as_object : Value → Result Fields
as_object (obj fs) = ok fs
as_object _ = err type_error

unfoldable pub read_event : Fields → Result Event
read_event fs = do
  t ← of_option schema_error (Json.get "type" fs)
  type ← as_type t
  require (is_version (Json.get_null "schema_version" fs)) schema_error
  event_id ← as_event_id (Json.get_null "event_id" fs)
  payload ← as_payload (Json.get_null "payload" fs)
  issue_id ← as_text (Json.get_null "issue_id" fs)
  execution_id ← as_text (Json.get_null "execution_id" fs)
  ts ← of_option key_error (Json.get "ts" fs)
  ts_text ← as_ts ts
  ok (record {
    type = type;
    payload = payload;
    issue_id = issue_id;
    execution_id = execution_id;
    run_id = Json.get_null "run_id" fs;
    ts = ts_text;
    event_id = event_id;
  })

as_text-of_text : (o : Option String) → as_text (of_text o) ≡ ok o
as_text-of_text none = refl
as_text-of_text (some s) = refl

-- An object that holds the fields of `ev` is read as `ev`.
read_event-fields :
    (fs : Fields) (ev : Event) (n : ℕ)
    → ev.event_id ≡ suc n
    → Json.get "type" fs ≡ some (str (Schema.value ev.type))
    → Json.get_null "schema_version" fs ≡ int (pos 1)
    → Json.get_null "event_id" fs ≡ int (pos ev.event_id)
    → Json.get_null "payload" fs ≡ obj ev.payload
    → Json.get_null "issue_id" fs ≡ of_text ev.issue_id
    → Json.get_null "execution_id" fs ≡ of_text ev.execution_id
    → Json.get "ts" fs ≡ some (str ev.ts)
    → Json.get_null "run_id" fs ≡ ev.run_id
    → read_event fs ≡ ok ev
unfolding read_event
read_event-fields fs ev n id type version event_id payload issue execution ts run =
    rw (type, of_value-value, version, event_id, id, payload)
      (rw (issue, as_text-of_text) (rw (execution, as_text-of_text) (rw (ts, run, ← id) refl)))

get_null-some :
    (k : String) (fs : Fields) {v : Value} → Json.get k fs ≡ some v → Json.get_null k fs ≡ v
unfolding Json.get_null
get_null-some k fs e = rw (e, Json.get_null)

module _ (c : Codec) where
  -- Event.to_line
  unfoldable pub to_line : Event → List c.Byte
  unfolding schema_version
  to_line ev = c.dumps (obj (envelope ev)) ++ c.newline ∷ []

  -- `except json.JSONDecodeError`: bytes that are no text raise another exception, which passes.
  abbrev as_schema_error : Result Value → Result Value
  as_schema_error (err json_decode_error) = err schema_error
  as_schema_error r = r

  -- Event.from_line
  unfoldable pub from_line : List c.Byte → Result Event
  unfolding read_event
  from_line raw = do v ← as_schema_error (c.loads raw); fs ← as_object v; read_event fs

  -- What a written event is when it is read.
  abbrev pub reread : Event → Event
  reread ev = record ev { payload = c.sorted ev.payload; run_id = c.sort_value ev.run_id }

  sort_text : ReadBack c → (o : Option String) → c.sort_value (of_text o) ≡ of_text o
  sort_text laws none = laws.sort_null
  sort_text laws (some s) = laws.sort_str s

  -- An event with an id that is written to a line is read back from it, but for the order of the
  -- keys in its payload.
  pub from_line-to_line :
      ReadBack c
      → (ev : Event) (n : ℕ) → ev.event_id ≡ suc n
      → from_line (to_line ev) ≡ ok (reread ev)
  unfolding from_line to_line Json.get schema_version
  from_line-to_line laws ev n e =
      let fs = c.sorted (envelope ev) in
      let at = λ (k : String). laws.get_sorted k (envelope ev) in
      rw (laws.loads_dumps (envelope ev)) (
        read_event-fields fs (reread ev) n e
          (at "type" ∙ ap some (laws.sort_str (Schema.value ev.type)))
          (get_null-some "schema_version" fs (at "schema_version" ∙ ap some (laws.sort_int 1)))
          (get_null-some "event_id" fs (at "event_id" ∙ ap some (laws.sort_int ev.event_id)))
          (get_null-some "payload" fs (at "payload" ∙ ap some (laws.sort_obj ev.payload)))
          (get_null-some "issue_id" fs (at "issue_id" ∙ ap some (sort_text laws ev.issue_id)))
          (get_null-some "execution_id" fs
            (at "execution_id" ∙ ap some (sort_text laws ev.execution_id)))
          (at "ts" ∙ ap some (laws.sort_str ev.ts)) (get_null-some "run_id" fs (at "run_id")))
