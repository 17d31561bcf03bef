-- ===== src/Mail/Bounded.antt =====
-- How often worker/src/jobs/email-outbox.ts hands an e-mail to the provider.
use final_aldaro.Common.{
  ℕ, ◌≤◌, ◌<◌, ◌≡◌, ◌≢◌, refl, sym, subst, ◌⊎◌, inl, inr, Bool, true, Option, List, [], ◌∷◌, arith,
  All, All-map, All-both, All-take, All-order_by, All-find_many, All-find_many-fits,
  All-update_many, Distinct, Distinct-take, Distinct-order_by, Distinct-find_many,
  Distinct-update_many, find_many, order_by, update_many,
}
use final_aldaro.Mail.Outbox.{
  Mail, Post, Sending, accepted, refused, died, is_orphan, reset, recover_orphans, is_due,
  due_mails, claim_mail, sent_mail, refused_mail, hand_over, settle, send_each, email_outbox_tick,
  mail_ticks, mail_with_id,
}
use final_aldaro.Mail.Counted.{
  calls_of, IsCounted, IsPost, Known, Fit, IsEnding-sent, IsEnding-refused, IsEnding-died, turn-Fit,
}

turn-Distinct :
    (now : ℕ) (m : Mail) (change : Mail → Mail) (p : Post)
    → ((x : Mail) → (change x).id ≡ x.id)
    → Distinct (λ x. x.id) p.mails
    → Distinct (λ x. x.id) (settle change m (hand_over now m p)).mails
turn-Distinct now m change p same d =
    Distinct-update_many (λ x. x.id) (mail_with_id m.id) change
      (update_many (mail_with_id m.id) (claim_mail now) p.mails) same
      (Distinct-update_many (λ x. x.id) (mail_with_id m.id) (claim_mail now) p.mails (λ x. refl) d)

update_many_id : (p : Mail → Bool) (xs : List Mail) → update_many p (λ x. x) xs ≡ xs
update_many_id p [] = refl
update_many_id p (x ∷ xs) = let rest = update_many_id p xs in ground arith

pub Sending-cases :
    (s : Sending) → ((o : Option ℕ) × (s ≡ accepted o)) ⊎ ((s ≡ refused) ⊎ (s ≡ died))
Sending-cases (accepted o) = inl (o, refl)
Sending-cases refused = inr (inl refl)
Sending-cases died = inr (inr refl)

module _ (provider : Mail → Sending) (now : ℕ) where
  send_each-IsPost :
      (ms : List Mail) (p : Post)
      → Distinct (λ m. m.id) ms
      → All (λ m. m.attempt_count < 5) ms
      → Distinct (λ m. m.id) p.mails
      → All (Fit ms p.calls) p.mails
      → IsPost (send_each provider now ms p)
  unfolding send_each
  send_each-IsPost [] p dm few d h = record {
    distinct = d;
    counted = All-map (Fit [] p.calls) (IsCounted p.calls) p.mails (λ x fit. fit.0) h;
  }
  send_each-IsPost (m ∷ ms) p dm few d h = elim (Sending-cases (provider m)) [
    | inl (message, e) ↦
        let change = sent_mail now message in
        let ending = IsEnding-sent now message m in
        rw (e, send_each)
          (send_each-IsPost ms (settle change m (hand_over now m p)) dm.1 few.1
            (turn-Distinct now m change p ending.same_id d)
            (turn-Fit now m ms change ending p few.0 dm.0 h))
    | inr (inl e) ↦
        let change = refused_mail now m in
        let ending = IsEnding-refused now m in
        rw (e, send_each)
          (send_each-IsPost ms (settle change m (hand_over now m p)) dm.1 few.1
            (turn-Distinct now m change p ending.same_id d)
            (turn-Fit now m ms change ending p few.0 dm.0 h))
    | inr (inr e) ↦
        let rows = update_many (mail_with_id m.id) (claim_mail now) p.mails in
        let fit = turn-Fit now m ms (λ x. x) (IsEnding-died m) p few.0 dm.0 h in
        rw (e, send_each)
          (record {
            distinct =
                Distinct-update_many (λ x. x.id) (mail_with_id m.id) (claim_mail now) p.mails
                  (λ x. refl) d;
            counted =
                subst (All (IsCounted (m.id ∷ p.calls))) (update_many_id (mail_with_id m.id) rows) (
                  All-map (Fit ms (m.id ∷ p.calls)) (IsCounted (m.id ∷ p.calls))
                    (update_many (mail_with_id m.id) (λ x. x) rows) (λ x f. f.0) fit);
          })
  ]

pub recover_orphans-IsPost : (now : ℕ) (p : Post) → IsPost p → IsPost (recover_orphans now p)
unfolding recover_orphans
recover_orphans-IsPost now p h = record {
  distinct = Distinct-update_many (λ m. m.id) (is_orphan now) reset p.mails (λ x. refl) h.distinct;
  counted =
      All-update_many (IsCounted p.calls) (IsCounted p.calls) (is_orphan now) reset p.mails
        (λ x c hit. record { covered = c.covered; most = c.most; waits = λ e. ground arith })
        (λ x c miss. c) h.counted;
}

-- A row of a table with distinct ids is the only one with its id.
known_in :
    (xs : List Mail) → Distinct (λ m. m.id) xs → All (λ x. All (λ s. s.id ≡ x.id → s ≡ x) xs) xs
known_in [] d = tt
known_in (y ∷ ys) d = (
  (
    λ e. refl,
    All-map (λ s. s.id ≢ y.id) (λ s. s.id ≡ y.id → s ≡ y) ys (λ s ne e. absurd (ne e)) d.0,
  ),
  All-map (λ x. (x.id ≢ y.id) × All (λ s. s.id ≡ x.id → s ≡ x) ys)
      (λ x. All (λ s. s.id ≡ x.id → s ≡ x) (y ∷ ys)) ys
      (λ x both. (λ e. absurd (both.0 (sym e)), both.1))
      (All-both (λ x. x.id ≢ y.id) (λ x. All (λ s. s.id ≡ x.id → s ≡ x) ys) ys d.0
        (known_in ys d.1)),
)

pub email_outbox_tick-IsPost :
    (provider : Mail → Sending) (now : ℕ) (p : Post)
    → IsPost p
    → IsPost (email_outbox_tick provider now p)
unfolding email_outbox_tick due_mails
email_outbox_tick-IsPost provider now p h =
    let q = recover_orphans now p in
    let k = recover_orphans-IsPost now p h in
    let fits = find_many (is_due now) q.mails in
    let few : All (λ m. m.attempt_count < 5) fits =
      All-map (λ m. is_due now m ≡ true) (λ m. m.attempt_count < 5) fits (λ m e. ground arith)
        (All-find_many-fits (is_due now) q.mails) in
    let known : All (λ x. Known (due_mails now q) x) q.mails =
      All-map (λ x. Known q.mails x) (λ x. Known (due_mails now q) x) q.mails
        (λ x all.
          All-take (λ s. s.id ≡ x.id → s ≡ x) 10 (order_by (λ m. m.created_at) fits)
            (All-order_by (λ s. s.id ≡ x.id → s ≡ x) (λ m. m.created_at) fits
              (All-find_many (λ s. s.id ≡ x.id → s ≡ x) (is_due now) q.mails all)))
        (known_in q.mails k.distinct) in
    send_each-IsPost provider now (due_mails now q) q
      (Distinct-take (λ m. m.id) 10 (order_by (λ m. m.created_at) fits)
        (Distinct-order_by (λ m. m.id) (λ m. m.created_at) fits
          (Distinct-find_many (λ m. m.id) (is_due now) q.mails k.distinct)))
      (All-take (λ m. m.attempt_count < 5) 10 (order_by (λ m. m.created_at) fits)
        (All-order_by (λ m. m.attempt_count < 5) (λ m. m.created_at) fits few))
      k.distinct
      (All-both (IsCounted q.calls) (λ x. Known (due_mails now q) x) q.mails k.counted known)

mail_ticks-IsPost :
    (ticks : List (ℕ × (Mail → Sending))) (p : Post) → IsPost p → IsPost (mail_ticks ticks p)
unfolding mail_ticks
mail_ticks-IsPost [] p h = h
mail_ticks-IsPost ((now, provider) ∷ ticks) p h =
    mail_ticks-IsPost ticks (email_outbox_tick provider now p)
      (email_outbox_tick-IsPost provider now p h)

-- On a table with distinct ids, where each e-mail has been handed to the provider at most as often
-- as its row counts, a row counts five at most, and a pending one less, no sequence of ticks hands
-- an e-mail over more than five times in all, whatever the provider answers and wherever the
-- process ends.
pub mail_ticks_bounded :
    (ticks : List (ℕ × (Mail → Sending))) (p : Post)
    → IsPost p
    → All (λ m. calls_of m.id (mail_ticks ticks p).calls ≤ 5) (mail_ticks ticks p).mails
mail_ticks_bounded ticks p h =
    let after = mail_ticks-IsPost ticks p h in
    All-map (IsCounted (mail_ticks ticks p).calls)
      (λ m. calls_of m.id (mail_ticks ticks p).calls ≤ 5) (mail_ticks ticks p).mails
      (λ m c. omega (arith, c.covered, c.most)) after.counted
