-- ===== src/Loop/Verdicts.antt =====
-- `_validate`, `_review` and `_commit_sequence` of src/runtime/loop.py.
use draindeck.Base.{
  String, Bool, true, false, ◌&&◌, ◌||◌, Option, none, some, List, [], ◌∷◌, ◌==◌, string_comparable,
  if◌then◌else◌,
}
use draindeck.Base.Dict.{get}
use draindeck.Base.Json
use draindeck.Base.Json.{Value, Fields, null, str, bool, obj, arr, end, field, cons, nil, truthy}
use draindeck.Base.Result.{Result, Error, ok, err, halt, review_parse}
use draindeck.Base.Action.{Action, ◌>>=◌, ◌>>◌, return, raise}
use draindeck.States.{Env}
use draindeck.Events.Schema.{
  validation_passed, validation_failed, review_approved, review_rejected, commit_intent,
  commit_created, issue_completed, issue_escalated,
}
use draindeck.Events.Log.Codec.{Codec}
use draindeck.Events.Projection.View.{ExecutionView, IssueMeta}
use draindeck.Recovery.Containment.{join}
use draindeck.Loop.Services.{Services, Settings, Python, ValidationResult, ReviewVerdict}
use draindeck.Loop.Emits.{Orchestrator, items, number, value_or_null, outside, reading, emits}

-- [f"{prefix} {p}" for p in added if fnmatch(p, pattern)]
unfoldable pub matching : Python → String → String → List String → List String
unfolding join
matching py pattern prefix [] = []
matching py pattern prefix (p ∷ ps) =
    let rest = matching py pattern prefix ps in
    if py.fnmatch p pattern then join prefix (join " " p) ∷ rest else rest

-- The payload of ValidationPassed, and of ValidationFailed with what stands behind it.
unfoldable pub validation_payload : Value → ValidationResult → Fields → Fields
validation_payload tip result rest = field "validated_commit" tip (
    field "gate_results" (arr (items result.per_command))
      (field "flake_retries" (number result.flake_retries) rest))

-- _review_taxonomy
unfoldable pub review_taxonomy : List Value → Value
review_taxonomy [] = str "review-correctness"
review_taxonomy (obj fb ∷ fbs) =
    let rest = review_taxonomy fbs in
    let category = Json.get_null "category" fb in if truthy category then category else rest
review_taxonomy (_ ∷ fbs) = review_taxonomy fbs

-- f"{title}\n\n{body}".strip(), of a missing `meta` too
unfoldable pub issue_text : Python → Option IssueMeta → String
unfolding join
issue_text py none = py.strip (join "" (join "\n\n" ""))
issue_text py (some meta) = py.strip (join (py.text meta.title) (join "\n\n" (py.text meta.body)))

abbrev pub is_parse_error : Error → Bool
is_parse_error review_parse = true
is_parse_error _ = false

module _ (env : Env) (c : Codec) (py : Python) {World : Type 0} (settings : Settings)
    (services : Services World) where
  abbrev pub catching {ℓ} :
      {T : Type ℓ} → Action (Orchestrator c World) T → Action (Orchestrator c World) (Result T)
  catching m s = let (r, t) = m s in (ok r, t)

  -- _new_test_commands
  unfoldable pub new_test_commands : Value → Value → Action (Orchestrator c World) (List String)
  unfolding matching
  new_test_commands base tip =
      if settings.new_test_pattern == "" || settings.new_test_command_prefix == ""
      then return []
      else do
        added ← outside (services.added_files base tip)
        return (matching py settings.new_test_pattern settings.new_test_command_prefix added)

  abbrev pub judge :
      Bool → String → ExecutionView → ValidationResult → Action (Orchestrator c World) (Unit {0})
  unfolding emits validation_payload
  judge true issue ex result =
      emits env c settings services validation_passed issue
        (validation_payload ex.end_commit result end) (some ex.execution_id)
      >> return tt
  judge false issue ex result = do
    emits env c settings services validation_failed issue
        (validation_payload ex.end_commit result
          (field "taxonomy_category" result.taxonomy_category end))
        (some ex.execution_id)
    outside (services.reset_hard (value_or_null ex.base_commit))

  -- _validate
  unfoldable pub validate : String → ExecutionView → Action (Orchestrator c World) (Unit {0})
  unfolding new_test_commands emits validation_payload
  validate issue ex = do
    extra ← new_test_commands (value_or_null ex.base_commit) ex.end_commit
    result ← outside (services.validate ex.end_commit ex.execution_id extra)
    judge result.passed issue ex result

  abbrev pub decide :
      Bool → String → ExecutionView → ReviewVerdict → Action (Orchestrator c World) (Unit {0})
  unfolding emits review_taxonomy
  decide true issue ex verdict =
      emits env c settings services review_approved issue
        (field "reviewed_commit" ex.end_commit
          (field "reviewer_provider" (str verdict.provider) (field "verdict" (str "APPROVE") end)))
        (some ex.execution_id)
      >> return tt
  decide false issue ex verdict = do
    emits env c settings services review_rejected issue
        (field "reviewed_commit" ex.end_commit (
          field "reviewer_provider" (str verdict.provider) (
            field "verdict" (str "REJECT") (
              field "severity" (str verdict.severity) (
                field "taxonomy_category" (review_taxonomy verdict.feedback)
                  (field "feedback" (arr (items verdict.feedback)) end))))))
        (some ex.execution_id)
    outside (services.reset_hard (value_or_null ex.base_commit))

  -- `except ReviewParseError`; any other exception stops the run.
  abbrev pub unread :
      Bool → String → ExecutionView → Error → Action (Orchestrator c World) (Unit {0})
  unfolding emits
  unread false issue ex e = raise e
  unread true issue ex e =
      emits env c settings services issue_escalated issue
        (field "reason" (str "reviewer-protocol-violation") (
          field "taxonomy_category" (str "needs-human") (
            field "evidence_refs" (arr (cons (str "review-parse-error:ReviewParseError") nil))
              end)))
        (some ex.execution_id)
      >> return tt

  abbrev pub reviewed :
      String → ExecutionView → Result ReviewVerdict → Action (Orchestrator c World) (Unit {0})
  unfolding emits review_taxonomy
  reviewed issue ex (ok verdict) = decide verdict.is_approved issue ex verdict
  reviewed issue ex (err e) = unread (is_parse_error e) issue ex e

  -- _review
  unfoldable pub review : String → ExecutionView → Action (Orchestrator c World) (Unit {0})
  unfolding emits review_taxonomy issue_text
  review issue ex = do
    diff ← outside (services.diff (value_or_null ex.base_commit) ex.end_commit)
    meta ← reading (λ s. get issue s.proj.issue_meta)
    verdict ← catching (
        outside (
          services.review (record {
            execution_id = ex.execution_id;
            reviewed_commit = ex.end_commit;
            issue_text = issue_text py meta;
            diff = diff;
          })))
    reviewed issue ex verdict

  -- The I3 pin gate, but for the adapter's answer: end == validated == reviewed.
  unfoldable pub is_pinned : ExecutionView → Bool
  is_pinned ex =
      truthy ex.end_commit
      && (py.same ex.end_commit ex.validated_commit
          && py.same ex.validated_commit ex.reviewed_commit)

  abbrev pub intend : Bool → String → ExecutionView → Action (Orchestrator c World) (Unit {0})
  unfolding emits
  intend false issue ex = raise halt
  intend true issue ex =
      emits env c settings services commit_intent issue
        (field "end_commit" ex.end_commit (field "target_branch" (str settings.target) end))
        (some ex.execution_id)
      >> return tt

  abbrev pub pin_gate : Bool → String → ExecutionView → Action (Orchestrator c World) (Unit {0})
  unfolding emits
  pin_gate false issue ex = raise halt
  pin_gate true issue ex = do
    exists ← outside (services.commit_exists ex.end_commit)
    intend exists issue ex

  abbrev pub witnessed : Option String → Action (Orchestrator c World) (String × Bool)
  witnessed none = raise halt
  witnessed (some mc) = return (mc, true)

  -- The merge that happened before, or the merge.
  abbrev pub merged : Bool → String → Value → Action (Orchestrator c World) (String × Bool)
  unfolding join
  merged true issue tip = outside (services.find_merge_commit settings.target tip) >>= witnessed
  merged false issue tip = do
    mc ← outside (services.merge_to settings.target tip (join "merge " issue))
    return (mc, false)

  -- `ex.intent_end_commit or ex.end_commit`
  abbrev pub intent_tip : ExecutionView → Value
  intent_tip ex = if truthy ex.intent_end_commit then ex.intent_end_commit else ex.end_commit

  unfoldable pub merge_step : String → ExecutionView → Action (Orchestrator c World) (Unit {0})
  unfolding emits join
  merge_step issue ex = do
    on_target ← outside (services.is_ancestor (intent_tip ex) settings.target)
    mc ← merged on_target issue (intent_tip ex)
    emits env c settings services commit_created issue
        (field "merge_commit" (str mc.0)
          (field "target_branch" (str settings.target) (field "backfilled" (bool mc.1) end)))
        (some ex.execution_id)
    return tt

  unfoldable pub complete_step : String → ExecutionView → Action (Orchestrator c World) (Unit {0})
  unfolding emits
  complete_step issue ex = do
    emits env c settings services issue_completed issue
        (field "reason" (str "accepted") (field "evidence_refs" (arr (cons ex.end_commit nil)) end))
        none
    outside (services.delete_attempt_ref issue ex.execution_id)

  -- _commit_sequence
  unfoldable pub commit_sequence : String → ExecutionView → Action (Orchestrator c World) (Unit {0})
  unfolding is_pinned merge_step complete_step emits
  commit_sequence issue ex = elim ex.commit_intended [
    | false ↦ pin_gate (is_pinned ex) issue ex
    | true ↦ elim ex.commit_created [ false ↦ merge_step issue ex | true ↦ complete_step issue ex ]
  ]
