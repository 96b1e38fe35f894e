-- ===== src/System/History.antt =====
-- A published message stays as it was published, through any sequence of transactions.
pub mod Statements
use lsstack.Persistence.Outbox.History.{History-preorder as history_preorder}
use lsstack.Application.Auth.{
  SessionClaims, UserSession, auth_result, authenticate, authenticate_email, authenticate_user,
  check_version, get_user_session, register, reject_unknown, revalidate_session, upgrade_hash,
}
use lsstack.Application.Outbox.{acknowledge_message, claim_messages, fail_message}
use lsstack.Application.Profiles.{change_password}
use lsstack.Application.Tasks.{
  announce_task, create_task, delete_task, get_task, list_tasks, message_id_or_new,
  process_task_created, result_of_option, toggle_task, update_task,
}
use lsstack.Domain.Tasks.{Task}
use lsstack.Domain.Users.{User, normalize_email}
use lsstack.Exec.{Exec, Result, err, ok}
use lsstack.Exec.Steps.{Steps, Steps-bind}
use lsstack.Persistence.Engine.{
  Outcome, cancelled, commits, commits_unheard, fails_to_commit, run, settle,
}
use lsstack.Persistence.Models.{OutboxMessageModel, World}
use lsstack.Persistence.Outbox.Claims.{IsKeyed}
use lsstack.Persistence.Outbox.History.{History, History-preorder, History_of_same, history_rules}
use lsstack.Persistence.Outbox.Published.{row}
use lsstack.Platform.{Platform}
use lsstack.Prelude.{List, Option, [], none, refl, some, ℕ, ◌∷◌, ◌≡◌}
use lsstack.Security.Passwords.{new_uuid}
use lsstack.System.{
  Transaction, UseCase, acknowledges, changes_password, claims_batch, creates, deletes, done, fails,
  gets_task, lists, logs_in, perform, processes, registers, revalidates, serve, step, toggles,
  updates,
}
use lsstack.System.History.Statements.{outbox_rules}
use lsstack.Text.{Text}
use lsstack.Tools.Shlex.{start}

upgrade_hash-History :
    (p : Platform) (user : User) (replacement : Option Text)
    → Steps History (upgrade_hash p user replacement)
unfolding upgrade_hash
upgrade_hash-History p user none = search outbox_rules
upgrade_hash-History p user (some replacement) = search outbox_rules

auth_result-History : (user : User) → Steps History (auth_result user)
unfolding auth_result
auth_result-History user = search outbox_rules

register-History :
    (p : Platform) (email password : Text) → Steps History (register p email password)
unfolding register
register-History p email password = search (outbox_rules, auth_result-History) depth 12

authenticate_user-History :
    (p : Platform) (password : Text) (found : Option User)
    → Steps History (authenticate_user p password found)
unfolding authenticate_user reject_unknown
authenticate_user-History p password none = search outbox_rules
authenticate_user-History p password (some user) =
    search (outbox_rules, upgrade_hash-History, auth_result-History)

authenticate_email-History :
    (p : Platform) (password : Text) (email : Result Text)
    → Steps History (authenticate_email p password email)
unfolding authenticate_email reject_unknown
authenticate_email-History p password (err e) = search outbox_rules
authenticate_email-History p password (ok email) = search (outbox_rules, authenticate_user-History)

authenticate-History :
    (p : Platform) (email password : Text) → Steps History (authenticate p email password)
unfolding authenticate
authenticate-History p email password =
    authenticate_email-History p password (normalize_email p email)

change_password-History :
    (p : Platform) (user_id : ℕ) (current new confirmation : Text)
    → Steps History (change_password p user_id current new confirmation)
unfolding change_password
change_password-History p user_id current new confirmation = search outbox_rules depth 12

get_user_session-History : (user_id : ℕ) → Steps History (get_user_session user_id)
unfolding get_user_session
get_user_session-History user_id = search outbox_rules

check_version-History :
    (version : ℕ) (current : Option UserSession) → Steps History (check_version version current)
unfolding check_version
check_version-History version none = search outbox_rules
check_version-History version (some current) = search outbox_rules

revalidate_session-History :
    (p : Platform) (c : SessionClaims) → Steps History (revalidate_session p c)
unfolding revalidate_session
revalidate_session-History p c =
    search (outbox_rules, get_user_session-History, check_version-History) depth 8

message_id_or_new-History :
    (p : Platform) (message_id : Option ℕ) → Steps History (message_id_or_new p message_id)
unfolding message_id_or_new
message_id_or_new-History p none = record { at = λ w. unfold new_uuid in History_of_same w _ refl }
message_id_or_new-History p (some n) = search outbox_rules

announce_task-History :
    (p : Platform) (message_id : Option ℕ) (time : ℕ) (task : Task)
    → Steps History (announce_task p message_id time task)
unfolding announce_task
announce_task-History p message_id time task = search (outbox_rules, message_id_or_new-History)

create_task-History :
    (p : Platform) (user_id : ℕ) (title : Text) (description : Option Text) (message_id : Option ℕ)
    → Steps History (create_task p user_id title description message_id)
unfolding create_task
create_task-History p user_id title description message_id =
    search (outbox_rules, announce_task-History) depth 8

result_of_option-History : (task : Option Task) → Steps History (result_of_option task)
unfolding result_of_option
result_of_option-History none = search outbox_rules
result_of_option-History (some task) = search outbox_rules

done-History : {A : Type 0} (m : Exec World A) → Steps History m → Steps History (done m)
unfolding done
done-History m h = Steps-bind m _ h (λ a. search history_rules)

perform-History : (p : Platform) (c : UseCase) → Steps History (perform p c)
unfolding perform list_tasks get_task toggle_task delete_task update_task process_task_created
    claim_messages acknowledge_message fail_message
perform-History p (registers e pw) = done-History _ (register-History p e pw)
perform-History p (logs_in e pw) = done-History _ (authenticate-History p e pw)
perform-History p (revalidates c) = done-History _ (revalidate_session-History p c)
perform-History p (changes_password u c n k) = done-History _ (change_password-History p u c n k)
perform-History p (lists u) = done-History _ (search outbox_rules)
perform-History p (creates u t d m) = done-History _ (create_task-History p u t d m)
perform-History p (gets_task u k) = done-History _ (search outbox_rules)
perform-History p (toggles u k) = done-History _ (search outbox_rules)
perform-History p (deletes u k) = done-History _ (search outbox_rules)
perform-History p (updates u k t d) = done-History _ (search outbox_rules depth 8)
perform-History p (processes k) = done-History _ (search (outbox_rules, result_of_option-History))
perform-History p (claims_batch o l n) = done-History _ (search outbox_rules depth 10)
perform-History p (acknowledges k o) = done-History _ (search outbox_rules)
perform-History p (fails k o e) = done-History _ (search outbox_rules)

settle-History :
    {A : Type 0} (o : Outcome) (s : World) (r : Result A) (t : World)
    → History s t
    → History s (settle o s.db (r, t)).1
unfolding settle
settle-History commits s (ok a) t h = h
settle-History commits s (err e) t h = History_of_same s _ refl
settle-History commits_unheard s (ok a) t h = h
settle-History commits_unheard s (err e) t h = History_of_same s _ refl
settle-History fails_to_commit s (ok a) t h = History_of_same s _ refl
settle-History fails_to_commit s (err e) t h = History_of_same s _ refl
settle-History cancelled s (ok a) t h = History_of_same s _ refl
settle-History cancelled s (err e) t h = History_of_same s _ refl

step-History : (p : Platform) (w : World) (t : Transaction) → History w (step p w t)
unfolding step run
step-History p w t =
    let start = record w { locked = t.locked_rows } in
    let (r, u) = perform p t.use_case start in
    History-preorder.chain w start _ (History_of_same w start refl)
      (settle-History t.outcome start r u ((perform-History p t.use_case).at start))

serve-History : (p : Platform) (w : World) (ts : List Transaction) → History w (serve p w ts)
unfolding serve
serve-History p w [] = History_of_same w w refl
serve-History p w (t ∷ ts) =
    History-preorder.chain w (step p w t) _ (step-History p w t) (serve-History p (step p w t) ts)

-- In an outbox with distinct numbers, once a message is published, its row is the same after any
-- sequence of use cases, each committed, failed or cancelled: it is never leased, failed or
-- published again, nor removed.
pub published_forever :
    (p : Platform) (w : World) (ts : List Transaction) (k time : ℕ) (r : OutboxMessageModel)
    → IsKeyed w
    → row k w ≡ some r
    → r.published_at ≡ some time
    → row k (serve p w ts) ≡ some r
published_forever p w ts k time r u found at = (serve-History p w ts).kept u k r time found at
