-- ===== src/Workers/Tasks.antt =====
-- app/workers/tasks.py: the Celery tasks round the jobs, which count an outcome or ask Celery for a
-- retry. What Celery does with a retry is outside.
use tenantflow_api.Prelude.{
  ℕ, String, Bool, true, Option, none, some, ⊤, if◌then◌else◌, [], ◌∷◌, ◌++◌,
}
use tenantflow_api.Core.Errors.{Error, Result, ok, err}
use tenantflow_api.Db.Session.{Platform, World}
use tenantflow_api.Webhooks.Targets.{Network}
use tenantflow_api.Workers.Deliver.{HttpOutcome, Outcome, run, retry_countdown}
use tenantflow_api.Workers.Mail.{EmailMessage, invitation_email}
use tenantflow_api.Workers.Maintenance.{
  MailOutcome, success, send_invitation, cleanup_expired_state,
}

-- how a task ends: it returns, asks for a retry in so many seconds, or raises
pub data TaskEnd : Type 0 where
  finished : TaskEnd
  retry : ℕ → TaskEnd
  raised : Error → TaskEnd

abbrev pub counted : String → String → World → World
counted name label w = record w { metrics = w.metrics ++ (name, label) ∷ [] }

module _ ⦃p : Platform⦄ where
  -- an HTTP error has been recorded by the job; a RuntimeError is a row that is not committed
  abbrev pub end_delivery : ℕ → Result Outcome → World → TaskEnd × World
  end_delivery retries (ok Outcome.retry) w = (TaskEnd.retry (retry_countdown retries), w)
  end_delivery retries (ok _) w = (TaskEnd.finished, w)
  end_delivery retries (err (Error.runtime_error m)) w =
      (TaskEnd.retry (retry_countdown retries), counted "webhook_delivery_job" "retry" w)
  end_delivery retries (err e) w = (TaskEnd.raised e, w)

  unfoldable pub deliver_webhook_task : Network → ℕ → ℕ → HttpOutcome → World → TaskEnd × World
  unfolding run retry_countdown
  deliver_webhook_task network delivery_id retries http w =
      let (r, v) = run network delivery_id http w in end_delivery retries r v

  -- asyncio.to_thread(send_invitation_email, …): `smtp` tells whether the message was taken; an
  -- OSError or SMTPException of it asks for a retry
  abbrev pub end_mail :
      ℕ
      → String
      → Bool
      → Result (MailOutcome × Option (String × String))
      → World
      → (TaskEnd × Option EmailMessage) × World
  end_mail retries token smtp (ok (success, some (email, name))) w =
      if smtp
      then (
        (TaskEnd.finished, some (invitation_email p.settings email name token)),
        counted "invitation_email" "success" w,
      )
      else ((TaskEnd.retry (retry_countdown retries), none), counted "invitation_email" "retry" w)
  end_mail retries token smtp (ok (outcome, mail)) w =
      ((TaskEnd.finished, none), counted "invitation_email" "skipped" w)
  end_mail retries token smtp (err (Error.runtime_error m)) w =
      ((TaskEnd.retry (retry_countdown retries), none), counted "invitation_email" "retry" w)
  end_mail retries token smtp (err e) w = ((TaskEnd.raised e, none), w)

  -- the second component is the message that went out
  unfoldable pub send_invitation_task :
      ℕ → String → ℕ → Bool → World → (TaskEnd × Option EmailMessage) × World
  unfolding send_invitation retry_countdown invitation_email
  send_invitation_task invitation_id raw_token retries smtp w =
      let (r, v) = send_invitation invitation_id w in end_mail retries raw_token smtp r v

  -- an OSError, RuntimeError or SQLAlchemyError of the database, or its commit
  abbrev pub end_cleanup : Bool → Result ⊤ → World → World → TaskEnd × World
  end_cleanup true (ok u) before w = (TaskEnd.finished, counted "cleanup" "success" w)
  end_cleanup _ r before w =
      (TaskEnd.retry 60, counted "cleanup" "retry" (record w { db = before.db }))

  -- `database` tells whether the database answers
  unfoldable pub cleanup_expired_state_task : Bool → World → TaskEnd × World
  unfolding cleanup_expired_state
  cleanup_expired_state_task database w =
      let (r, v) = cleanup_expired_state w in end_cleanup database r w v
