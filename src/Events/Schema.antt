-- ===== src/Events/Schema.antt =====
-- src/runtime/events/schema.py: event types, kinds and the immutable envelope.
use draindeck.Base.{
  ℕ, String, Option, ◌≡◌, refl, none, some, ◌==◌, if◌then◌else◌, List, [], ◌∷◌, string_comparable,
}
use draindeck.Base.Json.{Value, Fields}

pub data Kind : Type 0 where
  intent fact : Kind

pub data EventType : Type 0 where
  issue_created issue_activated execution_spawned execution_containment_prepared
        execution_containment_established execution_termination_unconfirmed
        execution_containment_released execution_finished execution_crashed validation_passed
        validation_failed review_approved review_rejected commit_intent commit_created
        issue_completed issue_escalated human_intervention guideline_promoted run_started
        run_finished :
      EventType

-- KIND_OF
unfoldable pub kind_of : EventType → Kind
kind_of execution_spawned = intent
kind_of execution_containment_prepared = intent
kind_of commit_intent = intent
kind_of run_started = intent
kind_of _ = fact

-- RESOLUTION_OF: the facts that resolve an intent.
unfoldable pub resolution_of : EventType → Option (List EventType)
resolution_of execution_spawned = some (execution_finished ∷ execution_crashed ∷ [])
resolution_of execution_containment_prepared =
    some (execution_containment_established ∷ execution_containment_released ∷ [])
resolution_of commit_intent = some (commit_created ∷ [])
resolution_of _ = none

-- The type string of each event type (`ev.type.value`).
unfoldable pub value : EventType → String
value issue_created = "IssueCreated"
value issue_activated = "IssueActivated"
value execution_spawned = "ExecutionSpawned"
value execution_containment_prepared = "ExecutionContainmentPrepared"
value execution_containment_established = "ExecutionContainmentEstablished"
value execution_termination_unconfirmed = "ExecutionTerminationUnconfirmed"
value execution_containment_released = "ExecutionContainmentReleased"
value execution_finished = "ExecutionFinished"
value execution_crashed = "ExecutionCrashed"
value validation_passed = "ValidationPassed"
value validation_failed = "ValidationFailed"
value review_approved = "ReviewApproved"
value review_rejected = "ReviewRejected"
value commit_intent = "CommitIntent"
value commit_created = "CommitCreated"
value issue_completed = "IssueCompleted"
value issue_escalated = "IssueEscalated"
value human_intervention = "HumanIntervention"
value guideline_promoted = "GuidelinePromoted"
value run_started = "RunStarted"
value run_finished = "RunFinished"

abbrev pub all_types : List EventType
all_types =
    issue_created ∷ issue_activated ∷ execution_spawned ∷ execution_containment_prepared
    ∷ execution_containment_established ∷ execution_termination_unconfirmed
    ∷ execution_containment_released ∷ execution_finished ∷ execution_crashed ∷ validation_passed
    ∷ validation_failed ∷ review_approved ∷ review_rejected ∷ commit_intent ∷ commit_created
    ∷ issue_completed ∷ issue_escalated ∷ human_intervention ∷ guideline_promoted ∷ run_started
    ∷ run_finished ∷ []

-- EventType(text): the member with that value.
unfoldable pub find_type : String → List EventType → Option EventType
unfolding value
find_type s [] = none
find_type s (t ∷ ts) = if value t == s then some t else find_type s ts

unfoldable pub of_value : String → Option EventType
unfolding find_type
of_value s = find_type s all_types

-- Every type string is read back as its type.
pub of_value-value : (t : EventType) → of_value (value t) ≡ some t
unfolding of_value
of_value-value issue_created = refl
of_value-value _ = refl

-- `run_id` is the envelope's only field that the code does not take to be text.
pub record Event : Type 0 where
  pub type : EventType
  pub payload : Fields
  pub issue_id : Option String
  pub execution_id : Option String
  pub run_id : Value
  pub ts : String
  pub event_id : ℕ

unfoldable pub schema_version : ℕ
schema_version = 1

pub kind : Event → Kind
unfolding kind_of
kind ev = kind_of ev.type
