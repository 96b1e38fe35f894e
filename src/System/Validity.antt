-- ===== src/System/Validity.antt =====
-- The database is well formed after any sequence of transactions.
use lsstack.Persistence.Validity.{Sound-preorder as sound_preorder}
use lsstack.Application.Auth.{
  SessionClaims, UserSession, check_version, get_user_session, revalidate_session,
}
use lsstack.Application.Soundness.{
  authenticate-Sound, change_password-Sound, platform_rules, register-Sound,
}
use lsstack.Application.Soundness.Tasks.{
  acknowledge_message-Sound, claim_messages-Sound, create_task-Sound, delete_task-Sound,
  fail_message-Sound, get_task-Sound, list_tasks-Sound, process_task_created-Sound,
  update_task-Sound,
}
use lsstack.Application.Soundness.Toggle.{toggle_task-Sound}
use lsstack.Exec.{Exec}
use lsstack.Exec.Steps.{Steps, Steps-bind}
use lsstack.Persistence.Models.{World}
use lsstack.Persistence.Validity.{IsValid, Sound, sound_rules}
use lsstack.Persistence.Validity.Engine.{run-Sound}
use lsstack.Platform.{Platform}
use lsstack.Prelude.{List, Option, [], none, some, ℕ, ◌∷◌}
use lsstack.System.{
  Transaction, UseCase, acknowledges, changes_password, claims_batch, creates, deletes, done,
  empty_database, fails, gets_task, lists, logs_in, perform, processes, registers, revalidates,
  serve, step, toggles, updates,
}

get_user_session-Sound : (user_id : ℕ) → Steps Sound (get_user_session user_id)
unfolding get_user_session
get_user_session-Sound user_id = search platform_rules

check_version-Sound :
    (version : ℕ) (current : Option UserSession) → Steps Sound (check_version version current)
unfolding check_version
check_version-Sound version none = search platform_rules
check_version-Sound version (some current) = search platform_rules

revalidate_session-Sound : (p : Platform) (c : SessionClaims) → Steps Sound (revalidate_session p c)
unfolding revalidate_session
revalidate_session-Sound p c =
    search (platform_rules, get_user_session-Sound, check_version-Sound) depth 8

done-Sound : {A : Type 0} (m : Exec World A) → Steps Sound m → Steps Sound (done m)
unfolding done
done-Sound m h = Steps-bind m _ h (λ a. search sound_rules)

perform-Sound : (p : Platform) (c : UseCase) → Steps Sound (perform p c)
unfolding perform
perform-Sound p (registers e pw) = done-Sound _ (register-Sound p e pw)
perform-Sound p (logs_in e pw) = done-Sound _ (authenticate-Sound p e pw)
perform-Sound p (revalidates c) = done-Sound _ (revalidate_session-Sound p c)
perform-Sound p (changes_password u c n k) = done-Sound _ (change_password-Sound p u c n k)
perform-Sound p (lists u) = done-Sound _ (list_tasks-Sound u)
perform-Sound p (creates u t d m) = done-Sound _ (create_task-Sound p u t d m)
perform-Sound p (gets_task u k) = done-Sound _ (get_task-Sound u k)
perform-Sound p (toggles u k) = done-Sound _ (toggle_task-Sound p u k)
perform-Sound p (deletes u k) = done-Sound _ (delete_task-Sound u k)
perform-Sound p (updates u k t d) = done-Sound _ (update_task-Sound p u k t d)
perform-Sound p (processes k) = done-Sound _ (process_task_created-Sound p k)
perform-Sound p (claims_batch o l n) = done-Sound _ (claim_messages-Sound p o l n)
perform-Sound p (acknowledges k o) = done-Sound _ (acknowledge_message-Sound p k o)
perform-Sound p (fails k o e) = done-Sound _ (fail_message-Sound k o e)

step-IsValid : (p : Platform) (w : World) (t : Transaction) → IsValid w.db → IsValid (step p w t).db
unfolding step
step-IsValid p w t v =
    ((run-Sound t.outcome (perform p t.use_case) (perform-Sound p t.use_case)).at
        (record w { locked = t.locked_rows })).valid
      v

-- From a well-formed database, any sequence of use cases, each committed, failed or cancelled,
-- leaves a well-formed database: numbers and emails are unique, every email is a login email with
-- one `@` and no space, every title and description is stripped and within its bounds, every task
-- has its owner, and every message tells of a numbered task and is leased or free as its
-- publication allows.
pub serve-IsValid :
    (p : Platform) (w : World) (ts : List Transaction) → IsValid w.db → IsValid (serve p w ts).db
unfolding serve
serve-IsValid p w [] v = v
serve-IsValid p w (t ∷ ts) v = serve-IsValid p (step p w t) ts (step-IsValid p w t v)

pub empty-IsValid : IsValid empty_database
empty-IsValid = record {
  users = tt;
  user_ids = tt;
  emails = tt;
  tasks = tt;
  task_ids = tt;
  messages = tt;
  message_ids = tt;
}
