-- ===== src/Tests/BindingsTests.antt =====
-- Check 2 on an execution whose merge did not happen.
use draindeck.Base.{String, true, false, none, some, List, [], ◌∷◌, ◌≡◌, refl}
use draindeck.Base.Lists.{In}
use draindeck.Base.Json.{str}
use draindeck.Base.Result.{ok}
use draindeck.Events.Schema.{Event}
use draindeck.Events.Projection.View.{StateProjection, ExecutionView, empty, values}
use draindeck.Events.Projection.Executions.{new_view}
use draindeck.Recovery.Bindings.{Adapter, check_unwitnessed_commit, commit_event}
use draindeck.Recovery.Witness.{Owed, check_unwitnessed_commit-Owed}

-- HEAD is on the target branch, at c0, and c1 is not merged.
abbrev adapter : Adapter (Unit {0})
adapter = record {
  is_ancestor = λ commit branch w. (ok false, w);
  find_merge_commit = λ branch commit w. (ok none, w);
  head_of = λ branch w. (ok (some "c0"), w);
  current_commit = λ w. (ok "c0", w);
  checkout_branch = λ branch base w. (ok tt, w);
  merge_to = λ branch commit message w. (ok "m1", w);
  utcnow = λ w. "2026-07-05T21:20:00Z";
}

abbrev intended : ExecutionView
intended = record (new_view "A-e1" "A" (some (str "c0")) []) {
  commit_intended = true;
  intent_end_commit = str "c1";
}

abbrev interrupted : StateProjection
interrupted = record empty { executions = ("A-e1", intended) ∷ [] }

abbrev backfill : Event
backfill = commit_event intended (str "main") ("m1", false) "2026-07-05T21:20:00Z"

finds : check_unwitnessed_commit adapter "main" interrupted tt ≡ (ok (backfill ∷ [], []), tt)
unfolding check_unwitnessed_commit new_view commit_event
finds = refl

check_unwitnessed_commit-Owed_example :
    (◌≡◌ {A = List String} [] [])
    × ((ev : Event) → In ev (backfill ∷ []) → Owed (values interrupted.executions) ev)
check_unwitnessed_commit-Owed_example =
    check_unwitnessed_commit-Owed adapter "main" interrupted tt tt (backfill ∷ []) [] finds
