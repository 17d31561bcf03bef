-- ===== src/Mail/Tests.antt =====
-- The queue of e-mails at concrete rows.
use final_aldaro.Common.{ℕ, ◌≤◌, ◌≡◌, refl, none, some, List, [], ◌∷◌, All, arith, find_first}
use final_aldaro.Mail.Outbox.{
  Mail, pending, sending, Post, Sending, accepted, refused, died, mail_with_id, mail_ticks,
  email_outbox_tick, recover_orphans, due_mails, send_each, mail_backoff,
}
use final_aldaro.Mail.Counted.{IsPost}
use final_aldaro.Mail.Counted.{IsPost, calls_of}
use final_aldaro.Mail.Bounded.{mail_ticks_bounded}
use final_aldaro.Mail.Stuck.{mail_ticks_stuck}

abbrev fresh : Mail
fresh = record {
  id = 1;
  status = pending;
  attempt_count = 0;
  last_attempt_at = none;
  next_attempt_at = none;
  sent_at = none;
  provider_message_id = none;
  created_at = 0;
}

abbrev worn_out : Mail
worn_out = record fresh { id = 2; status = sending; attempt_count = 5; last_attempt_at = some 10 }

abbrev post : Post
post = record { mails = fresh ∷ worn_out ∷ []; calls = 2 ∷ 2 ∷ 2 ∷ 2 ∷ 2 ∷ [] }

post-IsPost : IsPost post
post-IsPost = record {
  distinct = ground arith;
  counted = (
    record { covered = omega arith; most = omega arith; waits = λ e. omega arith },
    (record { covered = omega arith; most = omega arith; waits = λ e. absurd (ground arith) }, tt),
  );
}

-- The provider refuses, then the process ends, then the e-mail is taken up again and sent.
abbrev ticks : List (ℕ × (Mail → Sending))
ticks = (1000, (λ m. refused)) ∷ (20_000, (λ m. died)) ∷ (400_000, (λ m. accepted (some 7))) ∷ []

ticks_calls : (mail_ticks ticks post).calls ≡ 1 ∷ 1 ∷ 1 ∷ post.calls
unfolding mail_ticks email_outbox_tick recover_orphans due_mails send_each mail_backoff
ticks_calls = refl

mail_ticks_bounded_example :
    All (λ m. calls_of m.id (mail_ticks ticks post).calls ≤ 5) (mail_ticks ticks post).mails
mail_ticks_bounded_example = mail_ticks_bounded ticks post post-IsPost

mail_ticks_stuck_example : find_first (mail_with_id 2) (mail_ticks ticks post).mails ≡ some worn_out
mail_ticks_stuck_example = mail_ticks_stuck ticks post worn_out post-IsPost refl refl refl
