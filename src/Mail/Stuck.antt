-- ===== src/Mail/Stuck.antt =====
-- A row of the queue of worker/src/jobs/email-outbox.ts whose last attempt never came to its end.
use final_aldaro.Common.{
  ℕ, ◌≡◌, ◌≢◌, refl, ◌∙◌, ap, subst, inl, inr, true, false, some, List, [], ◌∷◌, arith, All,
  All-map, All-take, All-order_by, All-find_many, All-find_many-fits, All-both, find_first,
  find_many, order_by, find_first-update_many_past, find_first-Distinct, Distinct,
}
use final_aldaro.Mail.Outbox.{
  Mail, sending, Post, Sending, is_orphan, reset, recover_orphans, is_due, due_mails, claim_mail,
  sent_mail, refused_mail, hand_over, settle, send_each, email_outbox_tick, mail_ticks,
  mail_with_id,
}
use final_aldaro.Mail.Counted.{IsPost}
use final_aldaro.Mail.Bounded.{email_outbox_tick-IsPost, recover_orphans-IsPost, Sending-cases}

abbrev At : Mail → Post → Type 0
At m p = find_first (mail_with_id m.id) p.mails ≡ some m

module _ (m : Mail) where
  settle-At :
      (change : Mail → Mail) (s : Mail) (p : Post)
      → ((x : Mail) → (change x).id ≡ x.id)
      → s.id ≢ m.id
      → At m p
      → At m (settle change s p)
  settle-At change s p same other at =
      find_first-update_many_past (mail_with_id s.id) (mail_with_id m.id) change p.mails m
        (λ x. ground (arith, same x)) (ground arith) at

  send_each-At :
      (provider : Mail → Sending) (now : ℕ) (ms : List Mail) (p : Post)
      → All (λ s. s.id ≢ m.id) ms
      → At m p
      → At m (send_each provider now ms p)
  unfolding send_each
  send_each-At provider now [] p others at = at
  send_each-At provider now (s ∷ ms) p others at =
      let claimed : At m (hand_over now s p) =
        settle-At (claim_mail now) s p (λ x. refl) others.0 at in
      elim (Sending-cases (provider s)) [
        | inl (message, e) ↦
            let v = settle (sent_mail now message) s (hand_over now s p) in
            rw (e, send_each)
              (send_each-At provider now ms v others.1 (
                settle-At (sent_mail now message) s (hand_over now s p) (λ x. refl) others.0
                  claimed))
        | inr (inl e) ↦
            let v = settle (refused_mail now s) s (hand_over now s p) in
            rw (e, send_each)
              (send_each-At provider now ms v others.1 (
                settle-At (refused_mail now s) s (hand_over now s p) (λ x. ground arith) others.0
                  claimed))
        | inr (inr e) ↦ rw (e, send_each) claimed
      ]

  module _ (stuck : m.status ≡ sending) (worn : m.attempt_count ≡ 5) where
    not_due : (now : ℕ) → is_due now m ≡ false
    not_due now = rw stuck refl

    recover_orphans-At : (now : ℕ) (p : Post) → At m p → At m (recover_orphans now p)
    unfolding recover_orphans
    recover_orphans-At now p at =
        find_first-update_many_past (is_orphan now) (mail_with_id m.id) reset p.mails m (λ x. refl)
          (ground (arith, worn)) at

    -- A row that is due is another one.
    others_due :
        (now : ℕ) (p : Post)
        → Distinct (λ x. x.id) p.mails
        → At m p
        → All (λ s. s.id ≢ m.id) (due_mails now p)
    unfolding due_mails
    others_due now p d at =
        let fits = find_many (is_due now) p.mails in
        let apart : All (λ s. s.id ≢ m.id) fits =
          All-map (λ s. (is_due now s ≡ true) × At s p) (λ s. s.id ≢ m.id) fits
            (λ s both e. clash now p s both.0 both.1 at e)
            (All-both (λ s. is_due now s ≡ true) (λ s. At s p) fits
              (All-find_many-fits (is_due now) p.mails)
              (All-find_many (λ s. At s p) (is_due now) p.mails
                (find_first-Distinct (λ x. x.id) p.mails d))) in
        All-take (λ s. s.id ≢ m.id) 10 (order_by (λ s. s.created_at) fits)
          (All-order_by (λ s. s.id ≢ m.id) (λ s. s.created_at) fits apart)
      where
        clash :
            (now : ℕ) (p : Post) (s : Mail)
            → is_due now s ≡ true
            → At s p
            → At m p
            → s.id ≡ m.id
            → ⊥
        clash now p s due at_s at_m e =
            let here : find_first (mail_with_id m.id) p.mails ≡ some s =
              subst (λ k. find_first (mail_with_id k) p.mails ≡ some s) e at_s in
            let same : s ≡ m = ground arith in
            let never : is_due now s ≡ false = ap (is_due now) same ∙ not_due now in
            absurd (ground arith)

    mail_ticks-At :
        (ticks : List (ℕ × (Mail → Sending))) (p : Post)
        → IsPost p
        → At m p
        → At m (mail_ticks ticks p)
    unfolding mail_ticks email_outbox_tick
    mail_ticks-At [] p h at = at
    mail_ticks-At ((now, provider) ∷ ticks) p h at =
        let q = recover_orphans now p in
        let there = recover_orphans-At now p at in
        mail_ticks-At ticks (email_outbox_tick provider now p)
          (email_outbox_tick-IsPost provider now p h)
          (send_each-At provider now (due_mails now q) q
            (others_due now q (recover_orphans-IsPost now p h).distinct there) there)

-- On a table with distinct ids, where rows count as far as five and a pending one less, a row that
-- is SENDING with five attempts, as its fifth attempt leaves it when the process ends, is found
-- unchanged after any sequence of ticks.
pub mail_ticks_stuck :
    (ticks : List (ℕ × (Mail → Sending))) (p : Post) (m : Mail)
    → IsPost p
    → m.status ≡ sending
    → m.attempt_count ≡ 5
    → find_first (mail_with_id m.id) p.mails ≡ some m
    → find_first (mail_with_id m.id) (mail_ticks ticks p).mails ≡ some m
mail_ticks_stuck ticks p m h stuck worn at = mail_ticks-At m stuck worn ticks p h at
