-- ===== src/Persistence/Engine/Atomic.antt =====
-- A transaction writes all or nothing.
-- The tables of the second database are those of the first; the sequences may have moved on.
use lsstack.Exec.{Error, Exec, Result, err, ok}
use lsstack.Persistence.Engine.{
  Outcome, cancelled, commits, commits_unheard, fails_to_commit, run, settle,
}
use lsstack.Persistence.Models.{Database, World}
use lsstack.Prelude.{inl, inr, refl, ◌≡◌, ◌⊎◌}
use lsstack.Text.{before}

pub record SameTables (db db' : Database) : Type 0 where
  pub users : db'.users ≡ db.users
  pub tasks : db'.tasks ≡ db.tasks
  pub outbox : db'.outbox ≡ db.outbox

settle_cases :
    {A : Type 0} (outcome : Outcome) (before : Database) (r : Result A) (w : World)
    → (((a : A) × (r ≡ ok a)) × ((settle outcome before (r, w)).1 ≡ w))
      ⊎ (((e : Error) × ((settle outcome before (r, w)).0 ≡ err e))
          × SameTables before (settle outcome before (r, w)).1.db)
unfolding settle
settle_cases commits before (ok a) w = inl ((a, refl), refl)
settle_cases commits_unheard before (ok a) w = inl ((a, refl), refl)
settle_cases fails_to_commit before (ok a) w =
    inr ((_, refl), record { users = refl; tasks = refl; outbox = refl })
settle_cases cancelled before (ok a) w =
    inr ((_, refl), record { users = refl; tasks = refl; outbox = refl })
settle_cases _ before (err e) w =
    inr ((e, refl), record { users = refl; tasks = refl; outbox = refl })

-- Either the operation returned and its writes are committed, whether or not the transaction hears
-- of it, or the transaction raises and every table is as it was before.
pub run_cases :
    {A : Type 0} (outcome : Outcome) (operation : Exec World A) (w : World)
    → (((a : A) × ((operation w).0 ≡ ok a)) × ((run outcome operation w).1 ≡ (operation w).1))
      ⊎ (((e : Error) × ((run outcome operation w).0 ≡ err e))
          × SameTables w.db (run outcome operation w).1.db)
unfolding run
run_cases outcome operation w = settle_cases outcome w.db (operation w).0 (operation w).1
