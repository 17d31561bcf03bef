-- ===== src/Launch/Replay.antt =====
-- What a second request with the same key gets.
use final_aldaro.Common.{
  ℕ, ◌≡◌, refl, sym, ◌∙◌, Bool, true, false, none, some, List, [], ◌∷◌, ◌++◌, arith, find_first,
  find_first-update_many,
}
use final_aldaro.Launch.Rows.{Desk, Request, Outside, LaunchOperation, operation_of, error}
use final_aldaro.Launch.Service.{
  Outcome, launched, threw, launch, answer_existing, create_and_launch, first_launch,
  settle_operation, settle_row, write_outcome, completed_outcome, complete_row, fail_row,
  new_operation, with_operation, operation_at, launch_workspace_internal, code_or_message,
}
use final_aldaro.Launch.Untouched.{Undisturbed, launch_workspace_internal-operation_at}

find_first-append {ℓ} :
    {A : Type ℓ} (p : A → Bool) (a : A) (xs : List A)
    → p a ≡ true
    → find_first p xs ≡ none
    → find_first p (xs ++ a ∷ []) ≡ some a
find_first-append p a [] fits absent = rw fits refl
find_first-append p a (x ∷ xs) fits absent = ground (arith, find_first-append p a xs fits)

settle_row-operation_of :
    (user key : ℕ) (outcome : Outcome) (op : LaunchOperation)
    → operation_of user key (settle_row outcome op) ≡ operation_of user key op
settle_row-operation_of user key (launched w replay) op = refl
settle_row-operation_of user key (threw t) op = refl

-- The same outcome as seen by a later request.
abbrev pub again : Outcome → Outcome
again (launched w replay) = launched w true
again (threw t) = threw (error (code_or_message t))

write_outcome-operation_at :
    (o : Outside) (r : Request) (outcome : Outcome) (d : Desk) (op : LaunchOperation)
    → o.fail_fault ≡ false
    → operation_at r d ≡ some op
    → operation_at r (write_outcome o r outcome d) ≡ some (settle_row outcome op)
write_outcome-operation_at o r (launched w replay) d op kept found =
    find_first-update_many (operation_of r.user_id r.operation_key) (complete_row w) d.operations op
      (settle_row-operation_of r.user_id r.operation_key (launched w replay)) found
write_outcome-operation_at o r (threw t) d op kept found = rw kept (
    find_first-update_many (operation_of r.user_id r.operation_key) (fail_row t) d.operations op
      (settle_row-operation_of r.user_id r.operation_key (threw t)) found)

first_launch-operation_at :
    (o : Outside) (r : Request) (d : Desk)
    → Undisturbed o r
    → o.fail_fault ≡ false
    → operation_at r d ≡ none
    → operation_at r (first_launch o r d).0
      ≡ some (settle_row (first_launch o r d).1 (new_operation r))
unfolding first_launch settle_operation
first_launch-operation_at o r d calm kept fresh =
    let made = launch_workspace_internal o r (with_operation r d) in
    write_outcome-operation_at o r (completed_outcome o.complete_fault made.1) made.0
      (new_operation r) kept
      (launch_workspace_internal-operation_at o r (with_operation r d) calm
        ∙ find_first-append (operation_of r.user_id r.operation_key) (new_operation r) d.operations
            (ground arith) fresh)

answer_existing-again :
    (o : Outside) (r : Request) (op : LaunchOperation) (outcome : Outcome) (d : Desk)
    → op.request_hash ≡ r.request_hash
    → op.workspace_id ≡ none
    → answer_existing o r (settle_row outcome op) d ≡ (d, again outcome)
unfolding answer_existing
answer_existing-again o r op (launched w replay) d same fresh = ground arith
answer_existing-again o r op (threw t) d same fresh = ground arith

launch-existing :
    (o : Outside) (r : Request) (op : LaunchOperation) (d : Desk)
    → operation_at r d ≡ some op
    → launch o r d ≡ answer_existing o r op d
unfolding launch
launch-existing o r op d found = rw (found, launch) refl

pub launch-fresh :
    (o : Outside) (r : Request) (d : Desk)
    → operation_at r d ≡ none
    → operation_at r (o.before_create d) ≡ none
    → launch o r d ≡ first_launch o r (o.before_create d)
unfolding launch create_and_launch
launch-fresh o r d fresh still = rw (fresh, launch) (rw (still, create_and_launch) refl)

-- A later request of the same user with the same key and hash.
pub record IsRepeat (r s : Request) : Type 0 where
  pub user : s.user_id ≡ r.user_id
  pub key : s.operation_key ≡ r.operation_key
  pub hash : s.request_hash ≡ r.request_hash

-- Where a user's key has no row, neither at the start nor when the row is created, other requests
-- leave the row alone, and the update of a failed launch is answered, a second launch by the same
-- user with the same key and hash changes nothing and answers with the outcome of the first: the
-- same workspace as a replay, or the error that the first one stored, also where the update of a
-- launch that went well threw it.
pub launch-again :
    (o p : Outside) (r s : Request) (d : Desk)
    → IsRepeat r s
    → Undisturbed o r
    → o.fail_fault ≡ false
    → operation_at r d ≡ none
    → operation_at r (o.before_create d) ≡ none
    → launch p s (launch o r d).0 ≡ ((launch o r d).0, again (launch o r d).1)
launch-again o p r s d repeat calm kept fresh still = rw (launch-fresh o r d fresh still) (
    let e = o.before_create d in
    let row : operation_at s (first_launch o r e).0
        ≡ some (settle_row (first_launch o r e).1 (new_operation r)) =
      rw repeat.user (rw repeat.key (first_launch-operation_at o r e calm kept still)) in
    launch-existing p s (settle_row (first_launch o r e).1 (new_operation r)) (first_launch o r e).0
      row
    ∙ answer_existing-again p s (new_operation r) (first_launch o r e).1 (first_launch o r e).0
        (sym repeat.hash) refl)
