-- ===== src/Mail/Counted.antt =====
-- What the rows of worker/src/jobs/email-outbox.ts count, under one turn of its loop.
use final_aldaro.Common.{
  ℕ, suc, ◌≤◌, ◌<◌, ◌≡◌, ◌≢◌, refl, sym, ◌∙◌, ap, subst, true, false, Option, List, ◌∷◌, ◌==◌,
  arith, All, All-map, All-update_many, Distinct, count, update_many,
}
use final_aldaro.Mail.Outbox.{
  Mail, is_pending, Post, claim_mail, sent_mail, refused_mail, hand_over, settle, mail_with_id,
}

-- How often an e-mail was handed over.
abbrev pub calls_of : ℕ → List ℕ → ℕ
calls_of id calls = count (λ c. c == id) calls

-- A row counts every time that its e-mail is handed over, up to five, and waits with less than five.
pub record IsCounted (calls : List ℕ) (m : Mail) : Type 0 where
  pub covered : calls_of m.id calls ≤ m.attempt_count
  pub most : m.attempt_count ≤ 5
  pub waits : is_pending m.status ≡ true → m.attempt_count < 5

pub record IsPost (p : Post) : Type 0 where
  pub distinct : Distinct (λ m. m.id) p.mails
  pub counted : All (IsCounted p.calls) p.mails

-- A row, and what the rest of the batch knows of it.
abbrev pub Known : List Mail → Mail → Type 0
Known batch m = All (λ s. s.id ≡ m.id → s ≡ m) batch

abbrev pub Fit : List Mail → List ℕ → Mail → Type 0
Fit batch calls m = IsCounted calls m × Known batch m

-- What becomes of a row that is claimed.
pub record IsEnding (change : Mail → Mail) (m : Mail) : Type 0 where
  pub same_id : (x : Mail) → (change x).id ≡ x.id
  pub same_count : (x : Mail) → (change x).attempt_count ≡ x.attempt_count
  pub waiting :
      (now : ℕ) → is_pending (change (claim_mail now m)).status ≡ true → suc m.attempt_count < 5

pub IsEnding-sent : (now : ℕ) (message : Option ℕ) (m : Mail) → IsEnding (sent_mail now message) m
IsEnding-sent now message m = record {
  same_id = λ x. refl;
  same_count = λ x. refl;
  waiting = λ t e. absurd (ground arith);
}

pub IsEnding-refused : (now : ℕ) (m : Mail) → IsEnding (refused_mail now m) m
IsEnding-refused now m = record {
  same_id = λ x. ground arith;
  same_count = λ x. ground arith;
  waiting = λ t e. ground arith;
}

pub IsEnding-died : (m : Mail) → IsEnding (λ x. x) m
IsEnding-died m = record {
  same_id = λ x. refl;
  same_count = λ x. refl;
  waiting = λ t e. absurd (ground arith);
}

module _ (now : ℕ) (m : Mail) (ms : List Mail) (change : Mail → Mail)
    (ending : IsEnding change m) where
  -- Between the claim and the end: the row of `m` is claimed, and the others are as they were.
  abbrev Claimed : Post → Mail → Type 0
  Claimed p x =
      (x.id ≡ m.id → (x ≡ claim_mail now m) × IsCounted p.calls m)
      × (x.id ≢ m.id → Fit (m ∷ ms) p.calls x)

  -- One turn of the loop: the row is claimed, handed over and comes to its end.
  pub turn-Fit :
      (p : Post)
      → m.attempt_count < 5
      → All (λ s. s.id ≢ m.id) ms
      → All (Fit (m ∷ ms) p.calls) p.mails
      → All (Fit ms (m.id ∷ p.calls)) (settle change m (hand_over now m p)).mails
  turn-Fit p few apart h =
      All-update_many (Claimed p) (Fit ms (m.id ∷ p.calls)) (mail_with_id m.id) change
        (update_many (mail_with_id m.id) (claim_mail now) p.mails) ended others
        (All-update_many (Fit (m ∷ ms) p.calls) _ (mail_with_id m.id) (claim_mail now) p.mails
          claimed passed h)
    where
      claimed :
          (x : Mail)
          → Fit (m ∷ ms) p.calls x
          → mail_with_id m.id x ≡ true
          → Claimed p (claim_mail now x)
      claimed x (counted, known) hit =
          let same : m ≡ x = known.0 (ground arith) in
          (
            λ e. (ap (claim_mail now) (sym same), subst (IsCounted p.calls) (sym same) counted),
            λ ne. absurd (ground arith),
          )

      passed : (x : Mail) → Fit (m ∷ ms) p.calls x → mail_with_id m.id x ≡ false → Claimed p x
      passed x fit miss = (λ e. absurd (ground arith), λ ne. fit)

      ended :
          (x : Mail) → Claimed p x → mail_with_id m.id x ≡ true → Fit ms (m.id ∷ p.calls) (change x)
      ended x (own, other) hit =
          let (same, before) = own (ground arith) in
          let count_x : (change x).attempt_count ≡ suc m.attempt_count =
            ending.same_count x ∙ ap (λ (y : Mail). y.attempt_count) same in
          let id_x : (change x).id ≡ m.id = ending.same_id x ∙ ap (λ (y : Mail). y.id) same in
          (
            record {
              covered = ground (arith, count_x, id_x, before.covered);
              most = ground (arith, count_x, few);
              waits = λ e.
                  subst (λ n. n < 5) (sym count_x)
                    (ending.waiting now
                      (ap (λ (y : Mail). is_pending (change y).status) (sym same) ∙ e));
            },
            All-map (λ s. s.id ≢ m.id) (λ s. s.id ≡ (change x).id → s ≡ change x) ms
                (λ s ne e. absurd (ne (e ∙ id_x))) apart,
          )

      others : (x : Mail) → Claimed p x → mail_with_id m.id x ≡ false → Fit ms (m.id ∷ p.calls) x
      others x (own, other) miss =
          let (counted, known) = other (ground arith) in
          (
            record {
              covered = ground (arith, counted.covered);
              most = counted.most;
              waits = counted.waits;
            },
            known.1,
          )
