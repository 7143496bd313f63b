-- ===== src/Dashboard/Slots.antt =====
-- The invariant of the run-command tables, and what keeps it.
use draindeck.Base.{ℕ, ◌≤◌, String, Bool, true, List, ◌≡◌, arith, string_comparable}
use draindeck.Base.Lists.{In}
use draindeck.Dashboard.Commands.{
  Store, Command, is_blocking, active_in, count_where, update_where, delete_where, empty_store,
}
use draindeck.Dashboard.Transactions.{has_key}
use draindeck.Dashboard.Rows.{
  Ordered, Ordered-update, Ordered-delete, count_where-update_le, count_where-delete_le,
}

-- Ids rise and are not handed out again; a repository has one active command at most; a key of a
-- repository has one command at most.
pub record Slots (s : Store) : Type 0 where
  pub ordered : Ordered 0 s.commands s.next_id
  pub one_active : (repo : ℕ) → count_where (active_in repo) s.commands ≤ 1
  pub one_key : (repo : ℕ) (key : String) → count_where (has_key repo key) s.commands ≤ 1

pub empty-Slots : Slots empty_store
unfolding count_where
empty-Slots = record {
  ordered = omega arith;
  one_active = λ repo. omega arith;
  one_key = λ repo key. omega arith;
}

-- A change of rows that keeps what identifies them, and makes none active that was not.
pub record Quiet (rows : List Command) (t : Command → Bool) (f : Command → Command) : Type 0 where
  pub id : (c : Command) → (f c).id ≡ c.id
  pub repository : (c : Command) → (f c).repository_id ≡ c.repository_id
  pub key : (c : Command) → (f c).idempotency_key ≡ c.idempotency_key
  pub quiet :
      (c : Command)
      → In c rows
      → t c ≡ true
      → is_blocking (f c).status ≡ true
      → is_blocking c.status ≡ true

pub update-Slots :
    (s : Store) (t : Command → Bool) (f : Command → Command)
    → Quiet s.commands t f
    → Slots s
    → Slots (record s { commands = update_where t f s.commands })
update-Slots s t f q h = record {
  ordered = Ordered-update 0 s.next_id t f s.commands q.id h.ordered;
  one_active = λ repo. omega (
    arith,
    count_where-update_le (active_in repo) t f s.commands
        (λ c m hit on. still_active repo c m hit on),
    h.one_active repo,
  );
  one_key = λ repo key. omega (
    arith,
    count_where-update_le (has_key repo key) t f s.commands
        (λ c m hit on. cc (q.repository c, q.key c, on)),
    h.one_key repo key,
  );
}
  where
    still_active :
        (repo : ℕ) (c : Command)
        → In c s.commands
        → t c ≡ true
        → active_in repo (f c) ≡ true
        → active_in repo c ≡ true
    still_active repo c m hit on = ground (arith, q.repository c, q.quiet c m hit)

pub delete-Slots :
    (s : Store) (t : Command → Bool)
    → Slots s
    → Slots (record s { commands = delete_where t s.commands })
delete-Slots s t h = record {
  ordered = Ordered-delete 0 s.next_id t s.commands h.ordered;
  one_active =
      λ repo. omega (arith, count_where-delete_le (active_in repo) t s.commands, h.one_active repo);
  one_key = λ repo key.
      omega (arith, count_where-delete_le (has_key repo key) t s.commands, h.one_key repo key);
}
