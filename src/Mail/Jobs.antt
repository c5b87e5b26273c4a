-- ===== src/Mail/Jobs.antt =====
-- The jobs that src/modules/mail/jobs/mail.producer.ts leaves in the queue.
use nest_fastify_boilerplate.Prelude.{String, ◌≡◌, true, some, arith, eq_refl}
use nest_fastify_boilerplate.Effects.{returned}
use nest_fastify_boilerplate.Mail.{Queue, SendMailJob, has_job, mail_options, enqueue_mail}

-- With an id, a mail that is enqueued again while its first job is there is not sent twice: the job of
-- the first call is in the queue, and the second call, whatever its mail, changes no job and answers
-- with the same id.
pub enqueue_mail-enqueue_mail :
    (queue : Queue) (mail again : SendMailJob) (id a b : String) (s : queue.State)
    → (enqueue_mail queue mail (some id) s).0 ≡ returned a
    → (enqueue_mail queue again (some id) (enqueue_mail queue mail (some id) s).1).0 ≡ returned b
    → (a ≡ id)
      × (b ≡ id)
      × (has_job id (queue.jobs (enqueue_mail queue mail (some id) s).1) ≡ true)
      × (queue.jobs (enqueue_mail queue again (some id) (enqueue_mail queue mail (some id) s).1).1
          ≡ queue.jobs (enqueue_mail queue mail (some id) s).1)
unfolding enqueue_mail
enqueue_mail-enqueue_mail queue mail again id a b s first second =
    let s' : queue.State = (enqueue_mail queue mail (some id) s).1 in
    (
      queue.add-result "send" mail (mail_options (some id)) s a first,
      queue.add-result "send" again (mail_options (some id)) s' b second,
      ground (arith, first, eq_refl id, queue.add-jobs "send" mail (mail_options (some id)) s),
      ground (
        arith,
        first,
        second,
        eq_refl id,
        queue.add-jobs "send" mail (mail_options (some id)) s,
        queue.add-jobs "send" again (mail_options (some id)) s',
      ),
    )
