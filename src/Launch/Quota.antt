-- ===== src/Launch/Quota.antt =====
-- The checks before a launch, and what the launch adds to the workspaces of the user.
use final_aldaro.Common.{
  ℕ, ◌+◌, ◌≤◌, ◌<◌, ◌≡◌, refl, sym, ◌∙◌, inl, inr, Bool, true, false, Option, none, some, List,
  ◌||◌, arith, Option-cases, Distinct, find_first, find_first-fits, ==_iff, count, update_many,
  count_mono, count-or-le, count-append_one, count-Distinct-le, count-update_many,
}
use final_aldaro.Cleanup.Rows.{Workspace, workspace_with_id}
use final_aldaro.Gateway.Leases.{Gateway, Reply, granted, allocate}
use final_aldaro.Launch.Assign.{
  claim, claim_row, take_reply, after_call, write_ports, port_row, run_row, allocate_gateway_ports,
  start_usage_session_with_status, open_session, assign_warm_workspace, find_warm_workspace,
  create_cold_workspace,
}
use final_aldaro.Launch.Replay.{launch-fresh}
use final_aldaro.Launch.Rows.{User, Desk, Request, Outside, Call, answered, lost, user_with_id}
use final_aldaro.Launch.Untouched.{write_outcome-Beside, completed_outcome-launched}
use final_aldaro.Launch.Service.{
  is_active_of, active_count, refusal_of, admit_user, hard_limit, is_over,
  compute_user_mtd_spend_cents, provide, launch_workspace_internal, launched, threw, launch,
  first_launch, settle_operation, completed_outcome, with_operation, operation_at,
}
use final_aldaro.Launch.Untouched.{Keeps, assign_warm_workspace-Keeps, view-outcome_of}

-- The active workspaces of a user, and the one workspace that is being assigned.
module _ (user w : ℕ) where
  abbrev near : Workspace → Bool
  near ws = is_active_of user ws || workspace_with_id w ws

  abbrev near_count : Desk → ℕ
  near_count d = count near d.platform.workspaces

  or_true : (b : Bool) → (b || true) ≡ true
  or_true true = refl
  or_true false = refl

  changed :
      (f : Workspace → Workspace) (xs : List Workspace)
      → ((ws : Workspace) → (f ws).id ≡ ws.id)
      → count near (update_many (workspace_with_id w) f xs) ≡ count near xs
  changed f xs same = count-update_many (workspace_with_id w) near f xs (λ ws hit.
      rw (same ws)
        (rw hit (or_true (is_active_of user (f ws)) ∙ sym (or_true (is_active_of user ws)))))

  claim-near : (r : Request) (now : ℕ) → Keeps near_count (claim r now w)
  unfolding claim
  claim-near r now d = ground (arith, changed (claim_row r now) d.platform.workspaces (λ ws. refl))

  after_call-near :
      (o : Outside) (call : Call) (served : Gateway × Reply)
      → Keeps near_count (after_call o w call served)
  unfolding after_call take_reply write_ports
  after_call-near o answered (g, granted p q s) d =
      changed (port_row o.now p q s) d.platform.workspaces (λ ws. refl)
  after_call-near o answered (g, Reply.threw) d = refl
  after_call-near o (lost true t) (g, reply) d = refl
  after_call-near o (lost false t) (g, reply) d = refl

  allocate_gateway_ports-near :
      (o : Outside) (ip : ℕ) → Keeps near_count (allocate_gateway_ports o w ip)
  unfolding allocate_gateway_ports
  allocate_gateway_ports-near o ip d =
      after_call-near o o.call (allocate o.gateway w ip d.platform.gateway) d

  start_usage_session_with_status-near :
      (o : Outside) (gpu : ℕ) → Keeps near_count (start_usage_session_with_status o user w gpu)
  unfolding start_usage_session_with_status open_session
  start_usage_session_with_status-near o gpu d =
      ground (arith, changed (run_row o.now) d.platform.workspaces (λ ws. refl))

-- An assignment adds one active workspace at most.
assigned_one :
    (o : Outside) (r : Request) (ws : Workspace) (d : Desk)
    → Distinct (λ x. x.id) d.platform.workspaces
    → active_count r.user_id (assign_warm_workspace o r ws d).0 ≤ active_count r.user_id d + 1
assigned_one o r ws d ids =
    let user = r.user_id in
    let xs = d.platform.workspaces in
    let after = (assign_warm_workspace o r ws d).0 in
    let kept : near_count user ws.id after ≡ near_count user ws.id d =
      assign_warm_workspace-Keeps (near_count user ws.id) o r ws (claim-near user ws.id r o.now)
        (allocate_gateway_ports-near user ws.id o)
        (start_usage_session_with_status-near user ws.id o ws.gpu_type) d in
    let wider : active_count user after ≤ near_count user ws.id after =
      count_mono (is_active_of user) (near user ws.id) after.platform.workspaces
        (λ x h. rw h refl) in
    omega (
      arith,
      kept,
      wider,
      count-or-le (is_active_of user) (workspace_with_id ws.id) xs,
      count-Distinct-le (λ x. x.id) ws.id xs ids,
    )

created_one :
    (o : Outside) (r : Request) (d : Desk)
    → active_count r.user_id (create_cold_workspace o r d) ≤ active_count r.user_id d + 1
unfolding create_cold_workspace
created_one o r d = count-append_one (is_active_of r.user_id) d.platform.workspaces _

-- No other request writes while this one assigns a warm workspace.
abbrev pub IsAlone : Outside → Type 0
IsAlone o = (d : Desk) → o.before_assign d ≡ d

provide_one :
    (o : Outside) (r : Request) (d : Desk)
    → IsAlone o
    → Distinct (λ x. x.id) d.platform.workspaces
    → active_count r.user_id (provide o r d).0 ≤ active_count r.user_id d + 1
unfolding provide
provide_one o r d alone ids = elim (Option-cases (find_warm_workspace r d)) [
  | inl cold ↦ rw (cold, provide) (created_one o r d)
  | inr (ws, warm) ↦
      rw (warm, provide)
        (rw (alone d) (
          rw (view-outcome_of (active_count r.user_id) ws.id (assign_warm_workspace o r ws d))
            (assigned_one o r ws d ids)))
]

-- What the checks come to for a user whom they let through.
pub record IsAdmitted (o : Outside) (d : Desk) (u : User) : Type 0 where
  pub paid : o.require_payment ≡ true → u.payment_valid ≡ true
  pub below :
      (limit : ℕ) → hard_limit u ≡ some limit → compute_user_mtd_spend_cents o u.id d < limit
  pub room : active_count u.id d < u.max_active_workspaces

below_limit :
    (limit : Option ℕ) (spend : ℕ)
    → is_over limit spend ≡ false
    → (l : ℕ) → limit ≡ some l
    → spend < l
below_limit none spend h l e = cc
below_limit (some m) spend h l e = ground arith

admit_user-IsAdmitted :
    (o : Outside) (d : Desk) (u : User) → admit_user o d u ≡ none → IsAdmitted o d u
unfolding admit_user
admit_user-IsAdmitted o d u h =
    let spend = compute_user_mtd_spend_cents o u.id d in
    record {
      paid = λ required. ground arith;
      below = below_limit (hard_limit u) spend (ground arith);
      room = ground arith;
    }

refusal_of-IsAdmitted :
    (o : Outside) (user : ℕ) (d : Desk) (u : User)
    → find_first (user_with_id user) d.users ≡ some u
    → refusal_of o user d ≡ none
    → IsAdmitted o d u
unfolding refusal_of
refusal_of-IsAdmitted o user d u known h = admit_user-IsAdmitted o d u (rw (known, refusal_of) at h)

-- A launch that is not a replay was admitted, and with it the user has no more active workspaces than allowed.
launch_workspace_internal-IsAdmitted :
    (o : Outside) (r : Request) (d : Desk) (u : User) (w : ℕ)
    → IsAlone o
    → Distinct (λ x. x.id) d.platform.workspaces
    → find_first (user_with_id r.user_id) d.users ≡ some u
    → (launch_workspace_internal o r d).1 ≡ launched w false
    → IsAdmitted o d u
      × (active_count r.user_id (launch_workspace_internal o r d).0 ≤ u.max_active_workspaces)
unfolding launch_workspace_internal
launch_workspace_internal-IsAdmitted o r d u w alone ids known made =
    elim (Option-cases (refusal_of o r.user_id d)) [
      | inr (t, refused) ↦
          let thrown : threw t ≡ launched w false =
            rw (refused, launch_workspace_internal) at made in
          cc
      | inl free ↦
          let ok = refusal_of-IsAdmitted o r.user_id d u known free in
          let own : u.id ≡ r.user_id =
            (==_iff u.id r.user_id).0 (find_first-fits (user_with_id r.user_id) d.users u known) in
          let room : active_count r.user_id d < u.max_active_workspaces = rw own at ok.room in
          (ok, rw (free, launch_workspace_internal) (omega (arith, provide_one o r d alone ids)))
    ]

-- Where a user's key has no row, workspaces have distinct ids and no other request writes during
-- the assignment, a launch that makes or assigns a workspace for a user who is there was paid for
-- where that is required, was below a hard budget limit, found room under the quota, and leaves
-- the user with no more active workspaces than the quota.
pub launch-IsAdmitted :
    (o : Outside) (r : Request) (d : Desk) (u : User) (w : ℕ)
    → IsAlone o
    → operation_at r d ≡ none
    → operation_at r (o.before_create d) ≡ none
    → Distinct (λ x. x.id) (o.before_create d).platform.workspaces
    → find_first (user_with_id r.user_id) (o.before_create d).users ≡ some u
    → (launch o r d).1 ≡ launched w false
    → IsAdmitted o (o.before_create d) u
      × (active_count r.user_id (launch o r d).0 ≤ u.max_active_workspaces)
unfolding first_launch settle_operation compute_user_mtd_spend_cents
launch-IsAdmitted o r d u w alone fresh still ids known =
    rw (launch-fresh o r d fresh still) λ made.
      let x = launch_workspace_internal o r (with_operation r (o.before_create d)) in
      let same = write_outcome-Beside o r (completed_outcome o.complete_fault x.1) x.0 in
      let (ok, within) =
        launch_workspace_internal-IsAdmitted o r (with_operation r (o.before_create d)) u w alone
          ids known (completed_outcome-launched o.complete_fault x.1 w made) in
      (record { paid = ok.paid; below = ok.below; room = ok.room }, rw same.platform within)
