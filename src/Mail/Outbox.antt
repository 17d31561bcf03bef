-- ===== src/Mail/Outbox.antt =====
-- The queue of e-mails: `emailOutboxTick` of worker/src/jobs/email-outbox.ts over the table `email_outbox`
-- (packages/db/prisma/schema.prisma). The provider is a parameter, which may also never answer
-- because the process ends; the texts of the e-mails are left out.
use final_aldaro.Common.{
  ℕ, suc, ◌+◌, ◌-◌, Bool, true, false, Option, none, some, List, [], ◌∷◌, ◌==◌, ◌&&◌, if◌then◌else◌,
  ltb, leb, take, get_or, find_many, order_by, update_many,
}
use final_aldaro.Billing.Metering.{is_ready}

pub data MailStatus : Type 0 where
  pending sending sent failed : MailStatus

abbrev pub is_pending : MailStatus → Bool
is_pending pending = true
is_pending sending = false
is_pending sent = false
is_pending failed = false

abbrev pub is_sending : MailStatus → Bool
is_sending pending = false
is_sending sending = true
is_sending sent = false
is_sending failed = false

pub record Mail : Type 0 where
  pub id : ℕ
  pub status : MailStatus
  pub attempt_count : ℕ
  pub last_attempt_at : Option ℕ
  pub next_attempt_at : Option ℕ
  pub sent_at : Option ℕ
  pub provider_message_id : Option ℕ
  pub created_at : ℕ

-- The table, and the ids of the rows whose e-mail was handed to the provider.
pub record Post : Type 0 where
  pub mails : List Mail
  pub calls : List ℕ

abbrev pub batch_size : ℕ
batch_size = 10

abbrev pub max_mail_attempts : ℕ
max_mail_attempts = 5

abbrev pub mail_backoff_ms : List ℕ
mail_backoff_ms = 10_000 ∷ 30_000 ∷ 60_000 ∷ 300_000 ∷ 900_000 ∷ []

-- `nextBackoff`
unfoldable pub mail_backoff : ℕ → ℕ
mail_backoff attempts = get_or mail_backoff_ms (attempts - 1) 900_000

abbrev pub mail_with_id : ℕ → Mail → Bool
mail_with_id id m = m.id == id

-- `lastAttemptAt: { lt: … }`: a row without an attempt does not fit.
abbrev pub is_orphan : ℕ → Mail → Bool
is_orphan now m =
    is_sending m.status
    && ((elim m.last_attempt_at [ none ↦ false | some t ↦ ltb (t + 300_000) now ])
        && ltb m.attempt_count max_mail_attempts)

abbrev pub reset : Mail → Mail
reset m = record m { status = pending }

unfoldable pub recover_orphans : ℕ → Post → Post
recover_orphans now p = record p { mails = update_many (is_orphan now) reset p.mails }

abbrev pub is_due : ℕ → Mail → Bool
is_due now m =
    is_pending m.status && (ltb m.attempt_count max_mail_attempts && is_ready now m.next_attempt_at)

unfoldable pub due_mails : ℕ → Post → List Mail
due_mails now p = take batch_size (order_by (λ m. m.created_at) (find_many (is_due now) p.mails))

abbrev pub claim_mail : ℕ → Mail → Mail
claim_mail now m = record m {
  status = sending;
  last_attempt_at = some now;
  attempt_count = suc m.attempt_count;
}

abbrev pub sent_mail : ℕ → Option ℕ → Mail → Mail
sent_mail now message m = record m {
  status = sent;
  sent_at = some now;
  provider_message_id = message;
  next_attempt_at = none;
}

-- `snapshot` is the row as it was read.
abbrev pub refused_mail : ℕ → Mail → Mail → Mail
refused_mail now snapshot m =
    if leb max_mail_attempts (snapshot.attempt_count + 1)
    then record m { status = failed; next_attempt_at = none }
    else record m {
      status = pending;
      next_attempt_at = some (now + mail_backoff (snapshot.attempt_count + 1));
    }

-- What `sendEmail` comes to.
pub data Sending : Type 0 where
  accepted : Option ℕ → Sending
  refused : Sending
  -- the process ends while the provider is asked
  died : Sending

abbrev pub claim : ℕ → Mail → Post → Post
claim now m p = record p { mails = update_many (mail_with_id m.id) (claim_mail now) p.mails }

-- The row is claimed and its e-mail handed over.
abbrev pub hand_over : ℕ → Mail → Post → Post
hand_over now m p = record (claim now m p) { calls = m.id ∷ p.calls }

abbrev pub settle : (Mail → Mail) → Mail → Post → Post
settle change m p = record p { mails = update_many (mail_with_id m.id) change p.mails }

unfoldable pub send_each : (Mail → Sending) → ℕ → List Mail → Post → Post
send_each provider now [] p = p
send_each provider now (m ∷ ms) p =
    let claimed = hand_over now m p in
    elim (provider m) [
      | accepted message ↦ send_each provider now ms (settle (sent_mail now message) m claimed)
      | refused ↦ send_each provider now ms (settle (refused_mail now m) m claimed)
      | died ↦ claimed
    ]

unfoldable pub email_outbox_tick : (Mail → Sending) → ℕ → Post → Post
email_outbox_tick provider now p =
    let recovered = recover_orphans now p in
    send_each provider now (due_mails now recovered) recovered

-- Ticks at the given times, with the provider's answers in each.
unfoldable pub mail_ticks : List (ℕ × (Mail → Sending)) → Post → Post
mail_ticks [] p = p
mail_ticks ((now, provider) ∷ ticks) p = mail_ticks ticks (email_outbox_tick provider now p)
