-- ===== src/Loop/PackFeedback.antt =====
-- What earlier attempts were told reaches the prompt of the next one.
use draindeck.Base.{
  String, true, false, some, ◌⊎◌, List, [], ◌∷◌, ◌++◌, ◌≡◌, refl, sym, subst, Bool-cases, inl, inr,
  string_comparable,
}
use draindeck.Base.Dict.{get}
use draindeck.Base.Lists.{In, In-append_left, In-append_right}
use draindeck.Base.Json
use draindeck.Base.Json.{Value, Fields, obj, truthy}
use draindeck.Base.Result.{ok, key_error, bind_elim, option_elim, ok-injective}
use draindeck.Events.Projection.View.{StateProjection, ExecutionView, executions_of}
use draindeck.Recovery.Containment.{join}
use draindeck.Loop.Services.{Python}
use draindeck.Loop.Pack.{
  build_prompt, prompt_lines, join_lines, accumulated_feedback, attempt_lines, feedback_lines,
  feedback_line, has_entries, section, body_section, prefixed, stripped, members_of, title_of,
  body_of, criteria_of,
}

module _ (py : Python) where
  feedback_lines-In :
      (fb : Value) (fbs : List Value) (line : String)
      → In fb fbs
      → In line (feedback_line py fb)
      → In line (feedback_lines py fbs)
  unfolding feedback_lines
  feedback_lines-In fb [] line m l = absurd m
  feedback_lines-In fb (x ∷ fbs) line (inl e) l =
      In-append_left line (feedback_line py x) (feedback_lines py fbs)
        (subst (λ v. In line (feedback_line py v)) (sym e) l)
  feedback_lines-In fb (x ∷ fbs) line (inr m) l =
      In-append_right line (feedback_line py x) (feedback_lines py fbs)
        (feedback_lines-In fb fbs line m l)

  attempt_lines-In :
      (xid : String) (view : ExecutionView) (fb : Value) (line : String)
      → In fb view.feedback
      → In line (feedback_line py fb)
      → In line (attempt_lines py xid view)
  unfolding attempt_lines join truthy
  attempt_lines-In xid view fb line m l = elim (Bool-cases (truthy view.taxonomy_category)) [
    | inl named ↦ rw (named, attempt_lines) (inr (feedback_lines-In fb view.feedback line m l))
    | inr unnamed ↦
        rw (unnamed, attempt_lines, some_entries view.feedback m)
          (inr (feedback_lines-In fb view.feedback line m l))
  ]
    where
      some_entries : (fbs : List Value) → In fb fbs → has_entries fbs ≡ true
      some_entries [] m = absurd m
      some_entries (x ∷ fbs) m = refl

  accumulated-In :
      (p : StateProjection) (xids : List String) (xid : String) (view : ExecutionView) (fb : Value)
      (line : String) (found : List String)
      → In xid xids
      → get xid p.executions ≡ some view
      → In fb view.feedback
      → In line (feedback_line py fb)
      → accumulated_feedback py p xids ≡ ok found
      → In line found
  unfolding accumulated_feedback
  accumulated-In p [] xid view fb line found m there f l h = absurd m
  accumulated-In p (x ∷ xids) xid view fb line found m there f l h =
      option_elim key_error (get x p.executions) h λ v is h1.
        bind_elim (accumulated_feedback py p xids) h1 λ rest later e.
          subst (In line) (ok-injective e) (elim m [
            | inl same ↦ In-append_left line (attempt_lines py x v) rest (
                attempt_lines-In x v fb line
                  (subst (λ (w : ExecutionView). In fb w.feedback) (is_view v is same) f) l)
            | inr m' ↦
                In-append_right line (attempt_lines py x v) rest
                  (accumulated-In p xids xid view fb line rest m' there f l later)
          ])
    where
      is_view : (v : ExecutionView) → get x p.executions ≡ some v → x ≡ xid → view ≡ v
      is_view v is same = cc (there, is, same)

  section-In :
      (lines heading : List String) (line : String)
      → In line lines
      → In line (section lines heading lines)
  section-In [] heading line m = absurd m
  section-In (x ∷ lines) heading line m =
      In-append_right line heading ((x ∷ lines) ++ "" ∷ [])
        (In-append_left line (x ∷ lines) ("" ∷ []) m)

  build_prompt-In :
      (p : StateProjection) (issue : String) (commands : List String) (prompt xid : String)
      (view : ExecutionView) (fb : Value) (line : String)
      → In xid (executions_of p issue)
      → get xid p.executions ≡ some view
      → In fb view.feedback
      → In line (feedback_line py fb)
      → build_prompt py p issue commands ≡ ok prompt
      → (lines : List String) × (prompt ≡ join (join_lines lines) "\n") × In line lines
  unfolding build_prompt prompt_lines stripped accumulated_feedback members_of truthy
  build_prompt-In p issue commands prompt xid view fb line m there f l h =
      bind_elim (stripped py (title_of (get issue p.issue_meta))) h λ title _ h1.
        bind_elim (stripped py (body_of (get issue p.issue_meta))) h1 λ body _ h2.
          bind_elim (criteria_of (get issue p.issue_meta)) h2 λ criteria _ h3.
            bind_elim (accumulated_feedback py p (executions_of p issue)) h3 λ feedback told e.
              let found =
                accumulated-In p (executions_of p issue) xid view fb line feedback m there f l
                  told in
              (
                prompt_lines py issue title body criteria feedback commands,
                sym (ok-injective e),
                inr (
                    inr (
                      In-append_right line (body_section body) _ (
                        In-append_right line
                          (section (prefixed py "- " criteria) ("## Acceptance criteria" ∷ [])
                            (prefixed py "- " criteria))
                          _ (In-append_left line _ _ (section-In feedback _ line found))))),
              )

  -- The line for a feedback entry: its category, if it has one, and its message.
  abbrev pub Says : Fields → String → Type 0
  Says fb line =
      ((truthy (Json.get_null "category" fb) ≡ true)
        × (line
            ≡ join "  - [" (
                join (py.text (Json.get_null "category" fb))
                  (join "] " (py.text (Json.get_null "message" fb))))))
      ⊎ ((truthy (Json.get_null "category" fb) ≡ false)
          × (line ≡ join "  - " (py.text (Json.get_null "message" fb))))

  feedback_line-Says :
      (fb : Fields)
      → truthy (Json.get_null "message" fb) ≡ true
      → (line : String) × In line (feedback_line py (obj fb)) × Says fb line
  unfolding feedback_line
  feedback_line-Says fb told = elim (Bool-cases (truthy (Json.get_null "category" fb))) [
    | inl named ↦ (_, rw (told, named) (inl refl), inl (named, refl))
    | inr unnamed ↦ (_, rw (told, unnamed) (inl refl), inr (unnamed, refl))
  ]

  -- A prompt that is built tells what every earlier execution in the issue's list was told: for
  -- every feedback entry that is a dict with a message, one of its lines is that message, behind
  -- the entry's category in brackets if there is one.
  pub build_prompt-Feedback :
      (p : StateProjection) (issue : String) (commands : List String) (prompt xid : String)
      (view : ExecutionView) (fb : Fields)
      → In xid (executions_of p issue)
      → get xid p.executions ≡ some view
      → In (obj fb) view.feedback
      → truthy (Json.get_null "message" fb) ≡ true
      → build_prompt py p issue commands ≡ ok prompt
      → (lines : List String) × (prompt ≡ join (join_lines lines) "\n")
        × ((line : String) × In line lines × Says fb line)
  build_prompt-Feedback p issue commands prompt xid view fb m there f told h =
      let (line, l, says) = feedback_line-Says fb told in
      let (lines, built, found) =
        build_prompt-In p issue commands prompt xid view (obj fb) line m there f l h in
      (lines, built, (line, found, says))
