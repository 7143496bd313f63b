-- ===== src/Events/Projection/Checks.antt =====
-- The checks of projections.py on an event's envelope and payload. Each raises TransitionError.
use Prim.Native.Nat.{◌^◌}
use Prim.Native.Char.{code}
use draindeck.Base.{
  ℕ, zero, suc, ◌-◌, String, Bool, true, false, not, ◌&&◌, ◌||◌, Option, none, some, List, [], ◌∷◌,
  ◌==◌, ◌≡◌, string_comparable, if◌then◌else◌, ltb, leb, nat_eq,
}
use draindeck.Base.Json
use draindeck.Base.Json.{
  Value, Fields, null, bool, int, float, str, arr, obj, ℤ, pos, negsuc, finite, Float, infinite,
  nan, to_list, keys, truthy, end, field, is_empty,
}
use draindeck.Base.Result.{
  Result, ok, err, ok-injective, transition_error, type_error, overflow_error, ◌>>=◌, ◌>>◌, require,
  of_option,
}
use draindeck.States.{Env}
use draindeck.Events.Schema.{Event}

-- _need: a missing or empty attribute raises.
unfoldable pub need : Option String → Result String
need none = err transition_error
need (some v) = if v == "" then err transition_error else ok v

-- What an attribute that is not missing, and a text that is not empty, are.
pub if-ok : (t : Bool) {x y : String} → (if t then err transition_error else ok x) ≡ ok y → x ≡ y
if-ok true h = absurd (cc)
if-ok false h = ok-injective h

pub need-some : (x y : String) → need (some x) ≡ ok y → x ≡ y
unfolding need
need-some x y h = if-ok (x == "") h

-- _field
unfoldable pub field_of : Fields → String → Result Value
unfolding Json.get
field_of payload name = of_option transition_error (Json.get name payload)

abbrev as_string : Value → Result String
as_string (str s) = if s == "" then err transition_error else ok s
as_string _ = err transition_error

-- _string
unfoldable pub string_of : Fields → String → Result String
unfolding field_of
string_of payload name = do v ← field_of payload name; as_string v

abbrev as_mapping : Value → Result Fields
as_mapping (obj fs) = ok fs
as_mapping _ = err transition_error

-- _mapping
unfoldable pub mapping_of : Fields → String → Result Fields
unfolding field_of
mapping_of payload name = do v ← field_of payload name; as_mapping v

-- _nonempty_mapping
unfoldable pub nonempty_mapping : Fields → String → Result Fields
unfolding mapping_of is_empty
nonempty_mapping payload name = do
  fs ← mapping_of payload name
  require (not (is_empty fs)) transition_error
  ok fs

abbrev as_positive : Value → Result ℕ
as_positive (int (pos (suc n))) = ok (suc n)
as_positive _ = err transition_error

-- _positive_int: a bool is an `int` in Python, and is refused here.
unfoldable pub positive_int : Fields → String → Result ℕ
unfolding field_of
positive_int payload name = do v ← field_of payload name; as_positive v

-- _required_identity
unfoldable pub required_identity : Fields → String → Result Fields
unfolding mapping_of positive_int string_of
required_identity payload name = do
  identity ← mapping_of payload name
  positive_int identity "pid"
  string_of identity "creation_time"
  ok identity

-- One-character strings, which `list` makes of a text.
letters : String → List Value
letters String.[] = []
letters (String.◌∷◌ c s) = str (String.◌∷◌ c String.[]) ∷ letters s

-- list(v or []): the items of a list, the characters of a text, the keys of a dict; anything else
-- that is truthy cannot be iterated.
unfoldable pub list_or_nil : Value → Result (List Value)
unfolding truthy to_list keys letters
list_or_nil (arr vs) = ok (to_list vs)
list_or_nil (str s) = ok (letters s)
list_or_nil (obj fs) = ok (keys fs)
list_or_nil v = if truthy v then err type_error else ok []

-- _exact_keys: no key of the mapping lies outside `allowed`.
abbrev pub member : String → List String → Bool
member k [] = false
member k (a ∷ as') = a == k || member k as'

abbrev only_keys : List String → Fields → Bool
only_keys allowed end = true
only_keys allowed (field k v fs) = member k allowed && only_keys allowed fs

unfoldable pub exact_keys : Fields → List String → Result (Unit {0})
exact_keys mapping allowed = require (only_keys allowed mapping) transition_error

-- Code points of a text.
abbrev pub codes : String → List ℕ
codes String.[] = []
codes (String.◌∷◌ c s) = code c ∷ codes s

-- [0-9a-f]
abbrev is_hex : ℕ → Bool
is_hex c = leb b'0' c && leb c b'9' || leb b'a' c && leb c b'f'

-- [89ab]
abbrev is_variant : ℕ → Bool
is_variant c = nat_eq c b'8' || nat_eq c b'9' || nat_eq c b'a' || nat_eq c b'b'

-- A pattern of fixed length, one test for each character.
unfoldable pub full_match : List (ℕ → Bool) → List ℕ → Bool
full_match [] [] = true
full_match (p ∷ ps) (c ∷ cs) = p c && full_match ps cs
full_match _ _ = false

abbrev times {ℓ} : {A : Type ℓ} → ℕ → A → List A → List A
times zero a xs = xs
times (suc n) a xs = a ∷ times n a xs

-- _CONFIG_DIGEST_RE
unfoldable pub is_config_digest : String → Bool
unfolding full_match
is_config_digest s = full_match (times 64 is_hex []) (codes s)

-- math.isfinite(cost) and cost > 0: an int too large for a float raises OverflowError.
first_overflow : ℕ
first_overflow = 2 ^ 1024 - 2 ^ 970

unfoldable pub positive_cost : Value → Result (Unit {0})
unfolding first_overflow
positive_cost (int (pos n)) =
    if leb first_overflow n then err overflow_error else require (ltb 0 n) transition_error
positive_cost (int (negsuc n)) =
    if leb first_overflow (suc n) then err overflow_error else err transition_error
positive_cost (float (finite false m e)) = require (ltb 0 m) transition_error
positive_cost _ = err transition_error

abbrev take : ℕ → List ℕ → List ℕ
take zero cs = []
take (suc n) [] = []
take (suc n) (c ∷ cs) = c ∷ take n cs

abbrev drop : ℕ → List ℕ → List ℕ
drop zero cs = cs
drop (suc n) [] = []
drop (suc n) (c ∷ cs) = drop n cs

module _ (env : Env) where
  -- _RUN_ID_RE: the groups are the timestamp, and the five parts of a version 4 UUID.
  abbrev run_id_pattern : List (ℕ → Bool)
  run_id_pattern =
      nat_eq b'r'
      ∷ nat_eq b'u'
      ∷ nat_eq b'n'
      ∷ nat_eq b'-'
      ∷ times 8 env.is_decimal (
          nat_eq b'T'
          ∷ times 6 env.is_decimal (
              nat_eq b'Z'
              ∷ nat_eq b'-'
              ∷ times 8 is_hex (
                  nat_eq b'-'
                  ∷ times 4 is_hex (
                      nat_eq b'-'
                      ∷ nat_eq b'4'
                      ∷ times 3 is_hex (
                          nat_eq b'-'
                          ∷ is_variant
                          ∷ times 3 is_hex (nat_eq b'-' ∷ times 12 is_hex []))))))

  abbrev as_run_id : Value → Result String
  as_run_id (str s) =
      if s == "" || not (full_match run_id_pattern (codes s)) then err transition_error else ok s
  as_run_id _ = err transition_error

  -- _run_envelope: `strptime` is given the run id's first group, the 16 characters behind `run-`.
  unfoldable pub run_envelope : Event → Result (Unit {0})
  unfolding full_match
  run_envelope ev = do
    run_id ← as_run_id ev.run_id
    require (env.strptime_accepts (take 16 (drop 4 (codes run_id)))) transition_error
    elim ev.issue_id [
      | some _ ↦ err transition_error
      | none ↦ elim ev.execution_id [ some _ ↦ err transition_error | none ↦ ok tt ]
    ]
