-- ===== src/Mail.antt =====
-- src/modules/mail: the producer of mail jobs, the controller that calls it, and the worker.
pub mod Jobs
pub mod Tests
use nest_fastify_boilerplate.Prelude.{
  ℕ, String, ◌≡◌, Bool, true, Option, none, some, List, ◌∷◌, any, or_else, ltb, ◌==◌, ◌&&◌,
  if◌then◌else◌,
}
use nest_fastify_boilerplate.Effects.{Outcome, Exec, returned, thrown, is_returned, pure, ◌>>=◌}

pub record SendMailJob : Type 0 where
  pub to : String
  pub subject : String
  pub body : String

pub data Backoff : Type 0 where
  exponential : ℕ → Backoff

pub record JobOptions : Type 0 where
  pub job_id : Option String
  pub attempts : ℕ
  pub backoff : Backoff
  pub remove_on_complete : Bool

-- A job in the queue.
pub record Job : Type 0 where
  pub id : String
  pub name : String
  pub content : SendMailJob
  pub options : JobOptions

abbrev pub has_job : String → List Job → Bool
has_job id jobs = any (λ j. j.id == id) jobs

-- What is relied on of a queue of BullMQ: `add` stores a job under the id that the caller gives, or
-- under a new one, unless a job of that id is there. Nothing is said of a call that is rejected.
abbrev pub with_job : String → String → SendMailJob → JobOptions → List Job → List Job
with_job id name mail options jobs =
    if has_job id jobs
    then jobs
    else record { id = id; name = name; content = mail; options = options } ∷ jobs

pub record Queue : Type 1 where
  pub State : Type 0
  pub jobs : State → List Job
  pub new_id : State → String
  pub add : String → SendMailJob → JobOptions → Exec State String
  pub add-result :
      (name : String) (mail : SendMailJob) (options : JobOptions) (s : State) (id : String)
      → (add name mail options s).0 ≡ returned id
      → id ≡ or_else options.job_id (new_id s)
  pub add-jobs :
      (name : String) (mail : SendMailJob) (options : JobOptions) (s : State)
      → is_returned (add name mail options s).0 ≡ true
      → jobs (add name mail options s).1
        ≡ with_job (or_else options.job_id (new_id s)) name mail options (jobs s)

-- The options of `MailProducer.enqueue`.
abbrev pub mail_options : Option String → JobOptions
mail_options id = record {
  job_id = id;
  attempts = 3;
  backoff = exponential 1000;
  remove_on_complete = true;
}

pub record MailTest : Type 0 where
  pub enqueued : Bool
  pub job_id : String

module _ (queue : Queue) where
  -- `MailProducer.enqueue`
  unfoldable pub enqueue_mail : SendMailJob → Option String → Exec queue.State String
  enqueue_mail mail id = queue.add "send" mail (mail_options id)

  -- `MailController.test`
  unfoldable pub test_mail : SendMailJob → Exec queue.State MailTest
  unfolding enqueue_mail
  test_mail mail = do id ← enqueue_mail mail none; pure (record { enqueued = true; job_id = id })

-- `MailProcessor.process`, without its log line.
abbrev pub process_mail : {S : Type 0} → Job → Exec S Bool
process_mail job = pure true

-- `mailWorkerConcurrency`: `number_of` is `Number` of the variable where that is a natural number.
unfoldable pub mail_worker_concurrency : Option ℕ → ℕ
mail_worker_concurrency none = 5
mail_worker_concurrency (some n) = if ltb 0 n then n else 5
