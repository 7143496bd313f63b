-- ===== src/Loop/CommitMoves.antt =====
-- What `_commit_sequence` has done when it ends, in each of its three moves.
use draindeck.Base.{
  String, Bool, true, false, Option, none, some, ◌≡◌, refl, sym, ap, ◌∙◌, subst, Bool-cases, inl,
  inr, ◌⊎◌,
}
use draindeck.Base.Json.{Value, str, bool, end, field}
use draindeck.Base.Result.{Result, ok, err}
use draindeck.Base.Action.{Action, ◌>>=◌, follow, Ends}
use draindeck.States.{Env}
use draindeck.Events.Schema.{commit_created}
use draindeck.Events.Log.Codec.{Codec}
use draindeck.Events.Projection.View.{ExecutionView}
use draindeck.Recovery.Containment.{join}
use draindeck.Loop.Services.{Services, Settings, Python}
use draindeck.Loop.Emits.{Orchestrator}
use draindeck.Loop.Verdicts.{
  commit_sequence, pin_gate, merge_step, merged, complete_step, witnessed, intent_tip, is_pinned,
}
use draindeck.Loop.Pinned.{with_world, outside_then, Emitted, emits_then, Pinned, pin_gate-Pinned}
use draindeck.Loop.Closing.{Closed, HalfClosed, complete_step-Closed}

module _ (env : Env) (c : Codec) (py : Python) {World : Type 0} (settings : Settings)
    (services : Services World) where
  -- The merge commit is one that the repository names: found, where the end is on the target branch
  -- already, and made otherwise.
  abbrev pub Named : Bool → String → Value → String → World → World → Type 0
  Named was_merged issue tip commit w w' =
      ((was_merged ≡ true)
        × (services.find_merge_commit settings.target tip w ≡ (ok (some commit), w')))
      ⊎ ((was_merged ≡ false)
          × (services.merge_to settings.target tip (join "merge " issue) w ≡ (ok commit, w')))

  -- The fact of the merge is written behind the merge, and names its commit.
  pub record Merged (issue : String) (ex : ExecutionView) (s t : Orchestrator c World)
      : Type 0 where
    pub was_merged : Bool
    pub commit : String
    pub between : World
    pub asked :
        services.is_ancestor
          (intent_tip env c py settings services ex)
          settings.target
          s.world.world
        ≡ (ok was_merged, between)
    pub named :
        Named was_merged issue
          (intent_tip env c py settings services ex)
          commit
          between
          t.world.world
    pub created :
        Emitted env c py settings services commit_created issue
          (some ex.execution_id)
          (field "merge_commit" (str commit) (
            field "target_branch" (str settings.target) (field "backfilled" (bool was_merged) end)))
          s
          t

  -- How the merge, or the search for it, ends, with what follows it.
  merged_then {κ ν} :
      {U : Type κ} (Q : U → Orchestrator c World → Type ν) (R : Orchestrator c World → Type ν)
      (b : Bool) (issue : String) (tip : Value)
      (k : String × Bool → Action (Orchestrator c World) U) (s : Orchestrator c World)
      → ((commit : String) (w : World)
          → Named b issue tip commit s.world.world w
          → Ends Q R (k (commit, b) (with_world s w)))
      → ((w : World) → R (with_world s w))
      → Ends Q R ((merged env c py settings services b issue tip >>= k) s)
  unfolding join
  merged_then Q R false issue tip k s returned raised =
      go (services.merge_to settings.target tip (join "merge " issue) s.world.world) refl
    where
      go :
          (r : Result String × World)
          → services.merge_to settings.target tip (join "merge " issue) s.world.world ≡ r
          → Ends Q R (follow k (follow (λ mc t. (ok (mc, false), t)) (r.0, with_world s r.1)))
      go (ok commit, w) e = returned commit w (inr (refl, e))
      go (err x, w) e = raised w
  merged_then Q R true issue tip k s returned raised =
      go (services.find_merge_commit settings.target tip s.world.world) refl
    where
      go :
          (r : Result (Option String) × World)
          → services.find_merge_commit settings.target tip s.world.world ≡ r
          → Ends Q R
              (follow k (follow (witnessed env c py settings services) (r.0, with_world s r.1)))
      go (ok (some commit), w) e = returned commit w (inl (refl, e))
      go (ok none, w) e = raised w
      go (err x, w) e = raised w

  merge_step-Merged :
      (issue : String) (ex : ExecutionView) (s : Orchestrator c World)
      → Ends
          (λ _ t. Merged issue ex s t)
          (λ t. t.proj ≡ s.proj)
          (merge_step env c py settings services issue ex s)
  unfolding merge_step
  merge_step-Merged issue ex s =
      let tip = intent_tip env c py settings services ex in
      let Q = λ (u : Unit {0}) (t : Orchestrator c World). Merged issue ex s t in
      let R = λ (t : Orchestrator c World). t.proj ≡ s.proj in
      outside_then Q R (services.is_ancestor tip settings.target) _ s
        (λ b w asked.
          merged_then Q R b issue tip _ (with_world s w)
            (λ commit w' named.
              emits_then env c py settings services Q R commit_created issue
                (field "merge_commit" (str commit)
                  (field "target_branch" (str settings.target) (field "backfilled" (bool b) end)))
                (some ex.execution_id) (λ _ t. (ok tt, t)) (with_world s w')
                (λ ev log q sent. record {
                  was_merged = b;
                  commit = commit;
                  between = w;
                  asked = asked;
                  named = named;
                  created = sent;
                })
                (λ t _ same. same))
            (λ w'. refl))
        (λ e w _. refl)

  -- The commit sequence of an execution makes one of three moves. Without an intent: when it
  -- returns, the pin gate held, for the very commit that the intent in the log then names, and
  -- nothing was merged. With an intent and no fact: when it returns, the fact in the log names the
  -- merge commit that the repository found, or made where the end was not on the target branch. With
  -- both: when it returns, IssueCompleted is in the log and the attempt ref of this execution is
  -- deleted; when it raises, either the issue was not closed and the repository is untouched, or
  -- IssueCompleted is in the log and the deletion behind it raised. The first two moves leave the
  -- projection as it was when they raise.
  pub commit_sequence-Gated :
      (issue : String) (ex : ExecutionView) (s : Orchestrator c World)
      → ((ex.commit_intended ≡ false)
          × Ends
              (λ _ t. Pinned env c py settings services issue ex s t)
              (λ t. t.proj ≡ s.proj)
              (commit_sequence env c py settings services issue ex s))
        ⊎ ((ex.commit_intended ≡ true)
            × (ex.commit_created ≡ false)
            × Ends
                (λ _ t. Merged issue ex s t)
                (λ t. t.proj ≡ s.proj)
                (commit_sequence env c py settings services issue ex s))
        ⊎ ((ex.commit_intended ≡ true)
            × (ex.commit_created ≡ true)
            × Ends
                (λ _ t. Closed env c py settings services issue ex s t)
                (λ t. HalfClosed env c py settings services issue ex s t)
                (commit_sequence env c py settings services issue ex s))
  unfolding commit_sequence
  commit_sequence-Gated issue ex s = elim (Bool-cases ex.commit_intended) [
    | inr fresh ↦ inl (
      fresh,
      subst (Ends (λ _ t. Pinned env c py settings services issue ex s t) (λ t. t.proj ≡ s.proj))
          (sym (gates fresh))
          (pin_gate-Pinned env c py settings services (is_pinned env c py settings services ex)
            issue ex s refl),
    )
    | inl intended ↦ elim (Bool-cases ex.commit_created) [
      | inr unmade ↦ inr (
          inl (
            intended,
            unmade,
            subst (Ends (λ _ t. Merged issue ex s t) (λ t. t.proj ≡ s.proj))
                (sym (merges intended unmade)) (merge_step-Merged issue ex s),
          ))
      | inl made ↦ inr (
          inr (
            intended,
            made,
            subst
                (Ends (λ _ t. Closed env c py settings services issue ex s t)
                  (λ t. HalfClosed env c py settings services issue ex s t))
                (sym (closes intended made))
                (complete_step-Closed env c py settings services issue ex s),
          ))
    ]
  ]
    where
      branch : Bool → Bool → Action (Orchestrator c World) (Unit {0})
      branch b d = elim b [
        | false ↦
            pin_gate env c py settings services (is_pinned env c py settings services ex) issue ex
        | true ↦ elim d [
          | false ↦ merge_step env c py settings services issue ex
          | true ↦ complete_step env c py settings services issue ex
        ]
      ]

      gates :
          ex.commit_intended ≡ false
          → commit_sequence env c py settings services issue ex s
            ≡ pin_gate env c py settings services
                (is_pinned env c py settings services ex)
                issue
                ex
                s
      gates fresh = ap (λ (b : Bool). branch b ex.commit_created s) fresh

      merges :
          ex.commit_intended ≡ true
          → ex.commit_created ≡ false
          → commit_sequence env c py settings services issue ex s
            ≡ merge_step env c py settings services issue ex s
      merges intended unmade =
          ap (λ (b : Bool). branch b ex.commit_created s) intended
          ∙ ap (λ (b : Bool). branch true b s) unmade

      closes :
          ex.commit_intended ≡ true
          → ex.commit_created ≡ true
          → commit_sequence env c py settings services issue ex s
            ≡ complete_step env c py settings services issue ex s
      closes intended made =
          ap (λ (b : Bool). branch b ex.commit_created s) intended
          ∙ ap (λ (b : Bool). branch true b s) made
