-- ===== src/Mail/Tests.antt =====
-- A queue of mails that is a list.
use nest_fastify_boilerplate.Prelude.{String, ◌<>◌, ◌≡◌, refl, List, or_else, length, show, arith}
use nest_fastify_boilerplate.Effects.{Exec, returned}
use nest_fastify_boilerplate.Mail.{SendMailJob, JobOptions, Job, Queue, with_job}

abbrev id_of : List Job → JobOptions → String
id_of jobs options = or_else options.job_id ("job" <> show (length jobs))

abbrev add : String → SendMailJob → JobOptions → Exec (List Job) String
add name mail options jobs =
    (returned (id_of jobs options), with_job (id_of jobs options) name mail options jobs)

pub add-id :
    (name : String) (mail : SendMailJob) (options : JobOptions) (jobs : List Job) (id : String)
    → (add name mail options jobs).0 ≡ returned id
    → id ≡ id_of jobs options
add-id name mail options jobs id h = ground arith

abbrev pub mails : Queue
mails = record {
  State = List Job;
  jobs = λ s. s;
  new_id = λ s. "job" <> show (length s);
  add = add;
  add-result = add-id;
  add-jobs = λ name mail options s ok. refl;
}
