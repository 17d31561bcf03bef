-- ===== src/Store/Agreement.antt =====
-- The Map of apps/api/src/lib/ephemeralStore.ts, call by call, against its contract.
use final_aldaro.Common.{
  ℕ, ◌+◌, ◌*◌, ◌≤◌, ◌≡◌, refl, sym, ap, ◌∙◌, inl, inr, true, false, Option, none, some, List, [],
  ◌∷◌, arith, ◌==◌, ==_refl, leb, ltb, if◌then◌else◌, find_first, delete_many, Bool-cases,
  Option-cases, All-map, Distinct, Distinct-set, find_first-none, find_first-set,
  find_first-upsert_other, Distinct-delete_many,
}
use final_aldaro.Store.Memory.{
  Slot, slot_of, is_expired, ttl_seconds, put, set_with_ttl, get_value, set_if_absent_with_ttl,
  sweep,
}
use final_aldaro.Store.Contract.{
  Call, set_value, read_value, claim, collect, value_is, claimed, serve, Spec, live, value_part,
  is_none, assign, specify, entry, view, Agrees,
}

live-live :
    (now later : ℕ) (x : Option (ℕ × ℕ)) → now ≤ later → live later (live now x) ≡ live later x
live-live now later none h = refl
live-live now later (some (v, t)) h = elim (Bool-cases (leb t now)) [
  | inl gone ↦ ground arith
  | inr here ↦ rw here refl
]

live-later :
    (now later : ℕ) (x y : Option (ℕ × ℕ))
    → now ≤ later
    → live now x ≡ live now y
    → live later x ≡ live later y
live-later now later x y h e =
    sym (live-live now later x h) ∙ (ap (live later) e ∙ live-live now later y h)

pub Agrees-later :
    (now later : ℕ) (mem : List Slot) (f : Spec)
    → now ≤ later
    → Agrees now mem f
    → Agrees later mem f
Agrees-later now later mem f h a = record {
  keys = a.keys;
  same = λ k. live-later now later (view mem k) (f k) h (a.same k);
}

view-put :
    (now key value ttl_ms : ℕ) (mem : List Slot) (k : ℕ)
    → view (put now key value ttl_ms mem) k
      ≡ assign key (some (value, now + ttl_seconds ttl_ms * 1000)) (view mem) k
unfolding put
view-put now key value ttl_ms mem k =
    let slot : Slot = record {
      key = key;
      value = value;
      expires_at = now + ttl_seconds ttl_ms * 1000;
    } in
    elim (Bool-cases (k == key)) [
      | inl own ↦
          let same : k ≡ key = ground arith in
          rw same (rw (find_first-set (slot_of key) slot mem (==_refl key), ==_refl key) refl)
      | inr other ↦
          let kept =
            find_first-upsert_other (slot_of key) (slot_of k) (λ _. slot) slot mem (ground arith)
              (λ x hit. (ground arith, ground arith)) in
          rw (kept, other) refl
    ]

put-Agrees :
    (now key value ttl_ms : ℕ) (mem : List Slot) (f : Spec)
    → Agrees now mem f
    → Agrees now
        (put now key value ttl_ms mem)
        (assign key (some (value, now + ttl_seconds ttl_ms * 1000)) f)
unfolding put
put-Agrees now key value ttl_ms mem f a = record {
  keys = Distinct-set (λ s. s.key) key _ mem refl a.keys;
  same = λ k.
      rw (view-put now key value ttl_ms mem k)
        (elim (Bool-cases (k == key)) [ inl own ↦ rw own refl | inr other ↦ rw other (a.same k) ]);
}

-- A key whose slot is deleted reads as missing; the others as before.
view-forget :
    (key : ℕ) (mem : List Slot) (k : ℕ)
    → view (delete_many (slot_of key) mem) k ≡ assign key none (view mem) k
view-forget key [] k = ground arith
view-forget key (s ∷ mem) k =
    let rest = view-forget key mem k in
    elim (Bool-cases (slot_of key s)) [
      | inl hit ↦ rw hit (elim (Bool-cases (k == key)) [
        | inl own ↦ rest ∙ ground arith
        | inr other ↦ rest ∙ ground arith
      ])
      | inr miss ↦
          rw miss (elim (Bool-cases (slot_of k s)) [
            | inl own ↦ ground arith
            | inr other ↦ rw (other) rest
          ])
    ]

-- What a sweep takes away has ended.
sweep-live :
    (now : ℕ) (mem : List Slot) (k : ℕ)
    → Distinct (λ (s : Slot). s.key) mem
    → live now (view (delete_many (is_expired now) mem) k) ≡ live now (view mem k)
sweep-live now [] k d = refl
sweep-live now (s ∷ mem) k d =
    let rest = sweep-live now mem k d.1 in
    elim (Bool-cases (is_expired now s)) [
      | inl old ↦ elim (Bool-cases (slot_of k s)) [
        | inl own ↦
            let gone : find_first (slot_of k) mem ≡ none =
              find_first-none (slot_of k) mem (All-map _ _ mem (λ y ne. ground arith) d.0) in
            let nothing : view mem k ≡ none = ap entry gone in
            rw old (rest ∙ rw (nothing, own, old) refl)
        | inr other ↦ rw old (rw other rest)
      ]
      | inr fresh ↦
          rw fresh
            (elim (Bool-cases (slot_of k s)) [ inl own ↦ rw own refl | inr other ↦ rw other rest ])
    ]

forget-Agrees :
    (now key : ℕ) (mem : List Slot) (f : Spec)
    → live now (view mem key) ≡ none
    → Agrees now mem f
    → Agrees now (delete_many (slot_of key) mem) f
forget-Agrees now key mem f ended a = record {
  keys = Distinct-delete_many (λ s. s.key) (slot_of key) mem a.keys;
  same = λ k. rw (view-forget key mem k) (elim (Bool-cases (k == key)) [
    | inl own ↦ let same : k ≡ key = ground arith in rw own (rw same (sym ended ∙ a.same key))
    | inr other ↦ rw other (a.same k)
  ]);
}

get_value-Agrees :
    (now key : ℕ) (mem : List Slot) (f : Spec)
    → Agrees now mem f
    → ((get_value none now key mem).0 ≡ value_part (live now (f key)))
      × Agrees now (get_value none now key mem).1 f
unfolding get_value
get_value-Agrees now key mem f a = elim (Option-cases (find_first (slot_of key) mem)) [
  | inl absent ↦
      let spec : live now (f key) ≡ none = sym (a.same key) ∙ ap (λ o. live now (entry o)) absent in
      rw (absent, get_value) (rw spec (refl, a))
  | inr (s, found) ↦
      let spec : live now (f key) ≡ live now (some (s.value, s.expires_at)) =
        sym (a.same key) ∙ ap (λ o. live now (entry o)) found in
      elim (Bool-cases (is_expired now s)) [
        | inl old ↦
            let ended : live now (view mem key) ≡ none = rw found (rw old refl) in
            rw (found, get_value) (rw spec (rw old (refl, forget-Agrees now key mem f ended a)))
        | inr fresh ↦ rw (found, get_value) (rw spec (rw fresh (refl, a)))
      ]
]

set_if_absent-Agrees :
    (now key value ttl_ms : ℕ) (mem : List Slot) (f : Spec)
    → Agrees now mem f
    → ((set_if_absent_with_ttl none now key value ttl_ms mem).0 ≡ is_none (live now (f key)))
      × Agrees now (set_if_absent_with_ttl none now key value ttl_ms mem).1 (
          if is_none (live now (f key))
          then assign key (some (value, now + ttl_seconds ttl_ms * 1000)) f
          else f)
unfolding set_if_absent_with_ttl
set_if_absent-Agrees now key value ttl_ms mem f a =
    let set = put-Agrees now key value ttl_ms mem f a in
    elim (Option-cases (find_first (slot_of key) mem)) [
      | inl absent ↦
          let spec : live now (f key) ≡ none =
            sym (a.same key) ∙ ap (λ o. live now (entry o)) absent in
          rw (absent, set_if_absent_with_ttl) (rw spec (refl, set))
      | inr (s, found) ↦
          let spec : live now (f key) ≡ live now (some (s.value, s.expires_at)) =
            sym (a.same key) ∙ ap (λ o. live now (entry o)) found in
          elim (Bool-cases (ltb now s.expires_at)) [
            | inl fresh ↦
                let not_old : is_expired now s ≡ false = ground arith in
                rw (found, set_if_absent_with_ttl) (rw spec (rw (fresh, not_old) (refl, a)))
            | inr old ↦
                let is_old : is_expired now s ≡ true = ground arith in
                rw (found, set_if_absent_with_ttl) (rw spec (rw (old, is_old) (refl, set)))
          ]
    ]

-- One call is answered as the specification says, and leaves the Map in agreement with it.
pub serve-Agrees :
    (now : ℕ) (c : Call) (mem : List Slot) (f : Spec)
    → Agrees now mem f
    → ((serve now c mem).0 ≡ (specify now c f).0)
      × Agrees now (serve now c mem).1 (specify now c f).1
unfolding serve specify set_with_ttl sweep
serve-Agrees now (set_value key value ttl_ms) mem f a =
    (refl, put-Agrees now key value ttl_ms mem f a)
serve-Agrees now (read_value key) mem f a =
    let (answer, after) = get_value-Agrees now key mem f a in (ap value_is answer, after)
serve-Agrees now (claim key value ttl_ms) mem f a =
    let (answer, after) = set_if_absent-Agrees now key value ttl_ms mem f a in
    (ap claimed answer, after)
serve-Agrees now collect mem f a = (
  refl,
  record {
    keys = Distinct-delete_many (λ s. s.key) (is_expired now) mem a.keys;
    same = λ k. sweep-live now mem k a.keys ∙ a.same k;
  },
)
