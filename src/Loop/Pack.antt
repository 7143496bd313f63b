-- ===== src/Loop/Pack.antt =====
-- src/runtime/context/pack.py: the prompt of an execution, from the projection and the commands.
use draindeck.Base.{
  String, Bool, true, false, Option, none, some, List, [], ◌∷◌, ◌++◌, ◌==◌, string_comparable,
  if◌then◌else◌,
}
use draindeck.Base.Dict.{get}
use draindeck.Base.Json
use draindeck.Base.Json.{Value, Fields, null, str, obj, arr, truthy, to_list}
use draindeck.Base.Result.{
  Result, ok, err, key_error, type_error, attribute_error, ◌>>=◌, of_option,
}
use draindeck.Events.Projection.View.{StateProjection, ExecutionView, IssueMeta, executions_of}
use draindeck.Recovery.Containment.{join}
use draindeck.Loop.Services.{Python}

-- "\n".join(lines)
unfoldable pub join_lines : List String → String
unfolding join
join_lines [] = ""
join_lines (l ∷ []) = l
join_lines (l ∷ m ∷ ls) = join l (join "\n" (join_lines (m ∷ ls)))

-- f"{prefix}{v}" for v in vs
unfoldable pub prefixed : Python → String → List Value → List String
unfolding join
prefixed py prefix [] = []
prefixed py prefix (v ∷ vs) = join prefix (py.text v) ∷ prefixed py prefix vs

unfoldable pub command_lines : List String → List String
unfolding join
command_lines [] = []
command_lines (c ∷ cs) = join "- `" (join c "`") ∷ command_lines cs

-- v.strip(), which only a text has
unfoldable pub stripped : Python → Value → Result String
stripped py (str s) = ok (py.strip s)
stripped py _ = err attribute_error

abbrev characters : String → List Value
characters String.[] = []
characters (String.◌∷◌ x s) = str (String.◌∷◌ x String.[]) ∷ characters s

-- The values of a `for` over a JSON value: of a dict its keys, of a text its characters.
unfoldable pub members_of : Value → Result (List Value)
unfolding to_list Json.keys
members_of (arr vs) = ok (to_list vs)
members_of (obj fs) = ok (Json.keys fs)
members_of (str s) = ok (characters s)
members_of _ = err type_error

abbrev pub title_of : Option IssueMeta → Value
title_of none = str ""
title_of (some meta) = meta.title

abbrev or_empty : Value → Value
or_empty v = if truthy v then v else str ""

abbrev pub body_of : Option IssueMeta → Value
body_of none = str ""
body_of (some meta) = or_empty meta.body

abbrev pub criteria_of : Option IssueMeta → Result (List Value)
unfolding members_of truthy
criteria_of none = ok []
criteria_of (some meta) =
    if truthy meta.acceptance_criteria then members_of meta.acceptance_criteria else ok []

-- The line of one feedback entry, if it is a dict with a truthy message.
abbrev message_line : Python → Value → Value → List String
unfolding join
message_line py category message =
    if truthy message
    then (if truthy category
        then join "  - [" (join (py.text category) (join "] " (py.text message)))
        else join "  - " (py.text message))
      ∷ []
    else []

unfoldable pub feedback_line : Python → Value → List String
unfolding join Json.get_null truthy
feedback_line py (obj fb) =
    message_line py (Json.get_null "category" fb) (Json.get_null "message" fb)
feedback_line py _ = []

unfoldable pub feedback_lines : Python → List Value → List String
unfolding feedback_line
feedback_lines py [] = []
feedback_lines py (fb ∷ fbs) = feedback_line py fb ++ feedback_lines py fbs

abbrev pub header_line : Python → String → Value → String
unfolding join
header_line py xid taxonomy =
    join "- Attempt "
      (join xid (if truthy taxonomy then join " (" (join (py.text taxonomy) "):") else ":"))

abbrev pub has_entries : List Value → Bool
has_entries [] = false
has_entries (_ ∷ _) = true

-- What one earlier execution contributes.
unfoldable pub attempt_lines : Python → String → ExecutionView → List String
unfolding feedback_lines join truthy
attempt_lines py xid view =
    let lines = header_line py xid view.taxonomy_category ∷ feedback_lines py view.feedback in
    if truthy view.taxonomy_category
    then lines
    else (if has_entries view.feedback then lines else [])

-- _accumulated_feedback
unfoldable pub accumulated_feedback : Python → StateProjection → List String → Result (List String)
unfolding attempt_lines
accumulated_feedback py p [] = ok []
accumulated_feedback py p (xid ∷ xids) = do
  view ← of_option key_error (get xid p.executions)
  rest ← accumulated_feedback py p xids
  ok (attempt_lines py xid view ++ rest)

abbrev pub section : List String → List String → List String → List String
section [] heading lines = []
section (_ ∷ _) heading lines = heading ++ (lines ++ "" ∷ [])

abbrev pub body_section : String → List String
body_section body = if body == "" then [] else body ∷ "" ∷ []

abbrev pub constraints : List String
constraints =
    "## Constraints" ∷ "- Work ONLY inside this workspace directory."
    ∷ "- Do NOT run git, commit, branch, push, or touch version control — the runtime owns all git operations and git tools are disabled for you."
    ∷ "- Do NOT access the network or read credentials."
    ∷ "- Implement the change directly by editing files; keep the diff minimal and focused on the issue."
    ∷ []

-- The lines of the prompt.
unfoldable pub prompt_lines :
    Python → String → String → String → List Value → List String → List String → List String
unfolding join prefixed command_lines
prompt_lines py issue title body criteria feedback commands =
    py.rstrip (join "# Issue " (join issue (join ": " title)))
    ∷ ""
    ∷ (body_section body
        ++ (section (prefixed py "- " criteria) ("## Acceptance criteria" ∷ [])
              (prefixed py "- " criteria)
            ++ (section feedback
                  ("## Feedback from previous attempts"
                    ∷ "Prior executions on this issue were rejected. Address every point below — repeating a mistake will escalate the issue out of the loop."
                    ∷ [])
                  feedback
                ++ (section (command_lines commands)
                      ("## Verify your work" ∷ "Your change must make these commands pass:" ∷ [])
                      (command_lines commands)
                    ++ constraints))))

-- build_prompt
unfoldable pub build_prompt : Python → StateProjection → String → List String → Result String
unfolding prompt_lines join_lines stripped accumulated_feedback members_of truthy join
build_prompt py p issue commands = do
  title ← stripped py (title_of (get issue p.issue_meta))
  body ← stripped py (body_of (get issue p.issue_meta))
  criteria ← criteria_of (get issue p.issue_meta)
  feedback ← accumulated_feedback py p (executions_of p issue)
  ok (join (join_lines (prompt_lines py issue title body criteria feedback commands)) "\n")
