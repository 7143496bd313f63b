-- ===== src/Dashboard/Retries.antt =====
-- A request for an enqueue that is sent again with its key.
use draindeck.Base.{
  ℕ, suc, ◌≤◌, String, Bool, true, false, Option, none, some, List, [], ◌∷◌, ◌++◌, ◌≡◌, refl, sym,
  ap, ◌∙◌, subst, arith, nat_eq_iff, ==_iff, string_comparable, Bool-cases, Option-cases, inl, inr,
}
use draindeck.Base.Result.{Result, Error, ok, err}
use draindeck.Base.Action.{Action, follow_elim, ◌>>=◌}
use draindeck.Queue.Planner.{is_nil}
use draindeck.Dashboard.Commands.{Store, Command, RunRequest, find_where, has_id}
use draindeck.Dashboard.Transactions.{
  has_key, new_command, insert_row, normalized, same_request, list_eq, ids_eq,
}
use draindeck.Dashboard.Machine.{
  Machine, Desk, CommandView, get_command, shown, view_of, clean_worktree,
}
use draindeck.Dashboard.RunPlan.{RunPlan, plan_run}
use draindeck.Dashboard.RunQueue.{
  Enqueued, command, noop, existing_command, insert_command, enqueue_planned, enqueue_command,
  only_clean, stored_ids,
}
use draindeck.Dashboard.Effects.{plan_run-kept, clean_worktree-kept}
use draindeck.Dashboard.Rows.{Ordered}
use draindeck.Dashboard.Slots.{Slots}

list_eq_refl : (xs : List String) → list_eq xs xs ≡ true
list_eq_refl [] = refl
list_eq_refl (x ∷ xs) = rw ((==_iff x x).1 refl) (list_eq_refl xs)

ids_eq_refl : (o : Option (List String)) → ids_eq o o ≡ true
ids_eq_refl none = refl
ids_eq_refl (some xs) = list_eq_refl xs

same_request_refl : (r : RunRequest) → same_request r r ≡ true
unfolding same_request
same_request_refl r =
    rw
      (
        (==_iff r.mode r.mode).1 refl,
        ids_eq_refl r.issue_ids,
        (==_iff r.issues_digest r.issues_digest).1 refl,
      )
      refl

-- The new row is the first with its test, if no row before it passes.
find_where-snoc :
    (p : Command → Bool) (rows : List Command) (c : Command)
    → find_where p rows ≡ none
    → p c ≡ true
    → find_where p (rows ++ c ∷ []) ≡ some c
unfolding find_where
find_where-snoc p [] c free passes = rw (passes, find_where) refl
find_where-snoc p (r ∷ rows) c free passes = elim (Bool-cases (p r)) [
  | inl hit ↦ absurd (some-none (rw (hit, find_where) at free))
  | inr miss ↦
      rw (miss, find_where) (find_where-snoc p rows c (rw (miss, find_where) at free) passes)
]
  where
    some-none : some r ≡ none → ⊥
    some-none e = absurd (cc)

-- No row has the next id.
Ordered-below : (lo hi : ℕ) (rows : List Command) → Ordered lo rows hi → lo ≤ hi
Ordered-below lo hi [] h = h
Ordered-below lo hi (c ∷ rows) h = omega (arith, h.0, Ordered-below (suc c.id) hi rows h.1)

next_id-free :
    (lo hi : ℕ) (rows : List Command) → Ordered lo rows hi → find_where (has_id hi) rows ≡ none
unfolding find_where
next_id-free lo hi [] h = refl
next_id-free lo hi (c ∷ rows) h =
    ground (arith, h.0, Ordered-below (suc c.id) hi rows h.1, next_id-free (suc c.id) hi rows h.1)

module _ {World : Type 0} (machine : Machine World) where
  abbrev Answer : Type 0
  Answer = Result Enqueued × Desk World

  -- A request whose row stands in the table is answered with it.
  known_request :
      (repo : ℕ) (mode : String) (ids : Option (List String)) (expected key : String)
      (row : Command) (d : Desk World)
      → find_where (has_key repo key) d.store.commands ≡ some row
      → find_where (has_id row.id) d.store.commands ≡ some row
      → same_request row.normalized_request (normalized mode ids expected) ≡ true
      → enqueue_command machine repo mode ids expected key d
        ≡ (ok (command (view_of machine d row)), d)
  unfolding enqueue_command get_command
  known_request repo mode ids expected key row d by_key by_id same =
      rw (by_key, enqueue_command, existing_command, same) (rw (by_id, get_command, shown) refl)

  inserted_known :
      (repo : ℕ) (mode : String) (ids stored : Option (List String)) (expected key : String)
      (v : CommandView) (d d' : Desk World)
      → Slots d.store
      → find_where (has_key repo key) d.store.commands ≡ none
      → insert_command machine repo mode stored expected key (normalized mode ids expected) d
        ≡ (ok (command v), d')
      → enqueue_command machine repo mode ids expected key d' ≡ (ok (command v), d')
  unfolding insert_command insert_row new_command get_command
  inserted_known repo mode ids stored expected key v d d' slots free h =
      let row =
        new_command d.store.next_id repo mode stored expected key (normalized mode ids expected)
          (machine.now d.world) in
      let inserted = record d {
        store = record d.store {
          commands = d.store.commands ++ row ∷ [];
          next_id = suc d.store.next_id;
        };
      } in
      let by_id : find_where (has_id row.id) inserted.store.commands ≡ some row =
        find_where-snoc (has_id row.id) d.store.commands row
          (next_id-free 0 d.store.next_id d.store.commands slots.ordered)
          ((nat_eq_iff row.id row.id).1 refl) in
      let by_key : find_where (has_key repo key) inserted.store.commands ≡ some row =
        find_where-snoc (has_key repo key) d.store.commands row free
          (rw ((nat_eq_iff repo repo).1 refl, (==_iff key key).1 refl) refl) in
      let done : (ok (command (view_of machine inserted row)), inserted) ≡ (ok (command v), d') =
        rw (by_id, shown) at (rw (free, insert_command, existing_command) at h) in
      let again =
        known_request repo mode ids expected key row inserted by_key by_id
          (same_request_refl (normalized mode ids expected)) in
      subst (λ (a : Answer). enqueue_command machine repo mode ids expected key a.1 ≡ a) done again

  planned_known :
      (repo : ℕ) (mode : String) (ids : Option (List String)) (expected key : String)
      (plan : RunPlan) (v : CommandView) (d d' : Desk World)
      → Slots d.store
      → find_where (has_key repo key) d.store.commands ≡ none
      → enqueue_planned machine repo mode expected key (normalized mode ids expected) plan d
        ≡ (ok (command v), d')
      → enqueue_command machine repo mode ids expected key d' ≡ (ok (command v), d')
  unfolding enqueue_planned
  planned_known repo mode ids expected key plan v d d' slots free h =
      elim (Bool-cases plan.result.is_ok) [
        | inr bad ↦ absurd (err-ok (ap (λ (a : Answer). a.0) (rw (bad, enqueue_planned) at h)))
        | inl fine ↦ elim (Bool-cases (is_nil plan.result.ordered_ids)) [
          | inl nothing ↦
              absurd
                (noop-command (ap (λ (a : Answer). a.0) (rw (fine, nothing, enqueue_planned) at h)))
          | inr runs ↦
              follow_elim (clean_worktree machine machine.worktree_clean repo d)
                (rw (fine, runs, enqueue_planned) at h)
                λ clean d1 e1 h1.
                  cleaned clean d1
                    (subst (λ (a : Result Bool × Desk World). a.1.store ≡ d.store) e1
                      (clean_worktree-kept machine (λ s. s ≡ d.store) machine.worktree_clean repo d
                        refl))
                    h1
        ]
      ]
    where
      err-ok : {x : Error} → err x ≡ ok (command v) → ⊥
      err-ok q = absurd (cc)

      noop-command : ok (noop plan.result.excluded) ≡ ok (command v) → ⊥
      noop-command q = absurd (cc)

      cleaned :
          (clean : Bool) (d1 : Desk World)
          → d1.store ≡ d.store
          → only_clean machine clean
              (insert_command machine repo mode
                (stored_ids machine mode plan.result.ordered_ids)
                expected
                key
                (normalized mode ids expected))
              d1
            ≡ (ok (command v), d')
          → enqueue_command machine repo mode ids expected key d' ≡ (ok (command v), d')
      cleaned false d1 same q = absurd (err-ok (ap (λ (a : Answer). a.0) q))
      cleaned true d1 same q =
          inserted_known repo mode ids (stored_ids machine mode plan.result.ordered_ids) expected
            key v d1 d' (subst Slots (sym same) slots)
            (subst (λ (s : Store). find_where (has_key repo key) s.commands ≡ none) (sym same) free)
            q

  -- The answer to a known key is read, and nothing changes.
  unchanged :
      (request : RunRequest) (row : Command) (v : CommandView) (d d' : Desk World)
      (otherwise : Action (Desk World) Enqueued)
      → existing_command machine request (some row) otherwise d ≡ (ok (command v), d')
      → d ≡ d'
  unfolding get_command
  unchanged request row v d d' otherwise h =
      elim (Bool-cases (same_request row.normalized_request request)) [
        | inr other ↦ absurd (err-ok (ap (λ (a : Answer). a.0) (rw (other, existing_command) at h)))
        | inl same ↦
            follow_elim (get_command machine row.id d) (rw (same, existing_command) at h)
              λ view d1 e1 h1.
                ap (λ (p : Result CommandView × Desk World). p.1) e1 ∙ ap (λ (a : Answer). a.1) h1
      ]
    where
      err-ok : {x : Error} → err x ≡ ok (command v) → ⊥
      err-ok q = absurd (cc)

  -- A request for an enqueue that was answered with a command gives the same answer when it is
  -- sent again with its key, from the state that the first one left, and it changes nothing:
  -- whatever has become of the file of issues and of the worktree meanwhile.
  pub enqueue_command-retry :
      (repo : ℕ) (mode : String) (ids : Option (List String)) (expected key : String)
      (v : CommandView) (d d' : Desk World)
      → Slots d.store
      → enqueue_command machine repo mode ids expected key d ≡ (ok (command v), d')
      → enqueue_command machine repo mode ids expected key d' ≡ (ok (command v), d')
  unfolding enqueue_command get_command
  enqueue_command-retry repo mode ids expected key v d d' slots h =
      elim (Option-cases (find_where (has_key repo key) d.store.commands)) [
        | inl free ↦
            follow_elim (plan_run machine repo mode ids expected d)
              (rw (free, enqueue_command, existing_command) at h)
              λ plan d1 e1 h1.
                let same : d1.store ≡ d.store =
                  subst (λ (a : Result RunPlan × Desk World). a.1.store ≡ d.store) e1
                    (plan_run-kept machine (λ s. s ≡ d.store) repo mode ids expected d refl) in
                planned_known repo mode ids expected key plan v d1 d' (subst Slots (sym same) slots)
                  (subst (λ (s : Store). find_where (has_key repo key) s.commands ≡ none) (sym same)
                    free)
                  h1
        | inr (row, found) ↦
            let same : d ≡ d' =
              unchanged (normalized mode ids expected) row v d d'
                (plan_run machine repo mode ids expected >>= λ plan.
                  enqueue_planned machine repo mode expected key (normalized mode ids expected)
                    plan)
                (rw (found, enqueue_command) at h) in
            subst (λ e. enqueue_command machine repo mode ids expected key e ≡ (ok (command v), d'))
              same h
      ]
