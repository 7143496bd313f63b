-- ===== src/Events/Projection/View.antt =====
-- The projection's data: ExecutionView, ContainmentView and StateProjection, and its queries.
use draindeck.Base.{
  ℕ, String, Bool, true, false, not, ◌&&◌, Option, none, some, List, [], ◌∷◌, ◌++◌, ◌==◌,
  string_comparable, if◌then◌else◌,
}
use draindeck.Base.Dict.{Dict, get}
use draindeck.Base.Lists.{length, last?}
use draindeck.Base.Json
use draindeck.Base.Json.{Value, Fields, null, str, obj, arr, truthy}
use draindeck.Base.Result.{Result, ok, err, type_error, key_error, ◌>>=◌, of_option}
use draindeck.States.{IssueState, ExecutionState, is_done, is_executing}

-- Fields that the code copies from a payload keep the JSON value; `null` is Python's None.
pub record ExecutionView : Type 0 where
  pub execution_id : String
  pub issue_id : String
  pub state : ExecutionState
  pub commit_intended : Bool
  pub commit_created : Bool
  pub base_commit : Option Value
  pub start_commit : Value
  pub end_commit : Value
  pub intent_end_commit : Value
  pub intent_target_branch : Value
  pub validated_commit : Value
  pub reviewed_commit : Value
  pub taxonomy_category : Value
  pub feedback : List Value
  pub pre_execution_untracked : List Value

pub data ContainmentState : Type 0 where
  prepared established unconfirmed released : ContainmentState

pub record ContainmentView : Type 0 where
  pub execution_id : String
  pub workspace_key : String
  pub generation : String
  pub state : ContainmentState
  pub prepared_payload : Fields
  pub established_payload : Option Fields
  pub unconfirmed_payload : Option Fields
  pub released_payload : Option Fields

pub record IssueMeta : Type 0 where
  pub title : Value
  pub body : Value
  pub acceptance_criteria : Value

pub record StateProjection : Type 0 where
  pub issues : Dict String IssueState
  pub executions : Dict String ExecutionView
  pub issue_executions : Dict String (List String)
  pub issue_base_commit : Dict String Value
  pub issue_depends_on : Dict String (List Value)
  pub issue_meta : Dict String IssueMeta
  pub containments : Dict (String × String) ContainmentView
  pub last_event_id : ℕ
  pub counts : Dict String ℕ

-- StateProjection()
abbrev pub empty : StateProjection
empty = record {
  issues = [];
  executions = [];
  issue_executions = [];
  issue_base_commit = [];
  issue_depends_on = [];
  issue_meta = [];
  containments = [];
  last_event_id = 0;
  counts = [];
}

-- d.get(k, [])
abbrev pub or_nil {ℓ} : {A : Type ℓ} → Option (List A) → List A
or_nil none = []
or_nil (some xs) = xs

abbrev pub values {ℓ κ} : {K : Type ℓ} {V : Type κ} → Dict K V → List V
values [] = []
values ((k, v) ∷ d) = v ∷ values d

-- [x for x in xs if test(x)]
abbrev pub select {ℓ} : {A : Type ℓ} → (A → Bool) → List A → List A
select p [] = []
select p (x ∷ xs) = let rest = select p xs in if p x then x ∷ rest else rest

abbrev pub executions_of : StateProjection → String → List String
executions_of p iid = or_nil (get iid p.issue_executions)

-- `self.executions[ids[-1]]` raises KeyError if the list names an unknown execution.
unfoldable pub latest_execution : StateProjection → String → Result (Option ExecutionView)
latest_execution p iid = elim (last? (executions_of p iid)) [
  | none ↦ ok none
  | some xid ↦ elim (get xid p.executions) [ none ↦ err key_error | some view ↦ ok (some view) ]
]

unfoldable pub open_executions : StateProjection → List ExecutionView
open_executions p = select (λ x. is_executing x.state) (values p.executions)

abbrev pub is_released : ContainmentState → Bool
is_released released = true
is_released _ = false

abbrev matches_key : Option String → String → Bool
matches_key none key = true
matches_key (some wanted) key = key == wanted

unfoldable pub unreleased_containments : StateProjection → Option String → List ContainmentView
unreleased_containments p workspace_key =
    select (λ view. not (is_released view.state) && matches_key workspace_key view.workspace_key)
      (values p.containments)

abbrev pub is_nonempty {ℓ} : {A : Type ℓ} → List A → Bool
is_nonempty [] = false
is_nonempty (_ ∷ _) = true

unfoldable pub is_workspace_blocked : StateProjection → String → Bool
unfolding unreleased_containments
is_workspace_blocked p workspace_key = is_nonempty (unreleased_containments p (some workspace_key))

unfoldable pub attempts : StateProjection → String → ℕ
attempts p iid = length (executions_of p iid)

-- `self.issues.get(dep) is IssueState.DONE`: a key that cannot be hashed raises TypeError, and one
-- that is no text names no issue.
unfoldable pub dep_done : StateProjection → Value → Result Bool
dep_done p (str dep) = ok (elim (get dep p.issues) [ none ↦ false | some st ↦ is_done st ])
dep_done p (arr _) = err type_error
dep_done p (obj _) = err type_error
dep_done p _ = ok false

-- `all(...)` stops at the first dependency that is not DONE.
unfoldable pub all_done : StateProjection → List Value → Result Bool
unfolding dep_done
all_done p [] = ok true
all_done p (dep ∷ deps) =
    let rest = all_done p deps in do d ← dep_done p dep; if d then rest else ok false

unfoldable pub deps_met : StateProjection → String → Result Bool
unfolding all_done
deps_met p iid = all_done p (or_nil (get iid p.issue_depends_on))

-- The category of one feedback entry, if it is a dict with a truthy one.
abbrev category : Value → List Value
category (obj fs) = let c = Json.get_null "category" fs in if truthy c then c ∷ [] else []
category _ = []

abbrev categories : List Value → List Value
categories [] = []
categories (fb ∷ fbs) = category fb ++ categories fbs

-- The loop over an issue's executions; `self.executions[xid]` raises KeyError on an unknown one.
unfoldable pub feedback_categories : StateProjection → List String → Result (List Value)
feedback_categories p [] = ok []
feedback_categories p (xid ∷ xids) = do
  view ← of_option key_error (get xid p.executions)
  rest ← feedback_categories p xids
  ok (categories view.feedback ++ rest)

unfoldable pub reviewer_feedback_categories : StateProjection → String → Result (List Value)
unfolding feedback_categories
reviewer_feedback_categories p iid = feedback_categories p (executions_of p iid)
