-- ===== src/Fleet/Late.antt =====
-- An agent that answers late: `processWaitingWorkspaces` of worker/src/jobs/warm-pool.ts makes the workspace ready
-- and gives it up in the same turn.
use final_aldaro.Common.{
  ℕ, ◌≡◌, refl, sym, ap, ◌∙◌, inl, inr, Bool, true, false, Option, none, some, List, [], ◌∷◌, ◌++◌,
  if◌then◌else◌, arith, any, find_first, find_first-fits, ==_iff, find_first-update_many,
  update_many, Bool-cases, ==_refl,
}
use final_aldaro.Billing.Rows.{Ledger, UsageSession, running_in}
use final_aldaro.Billing.Start.{start_cold_session, create_session, new_session}
use final_aldaro.Billing.Catalog.{Catalog, cold_price}
use final_aldaro.Cleanup.Rows.{Workspace, Platform, terminating, workspace_with_id}
use final_aldaro.Cleanup.Attempt.{has_vm}
use final_aldaro.Fleet.Claim.{change_workspace, on_platform}
use final_aldaro.Fleet.Rows.{Fleet}
use final_aldaro.Fleet.Waiting.{
  Watch, address, note_ip, bill_cold, make_ready, ready_row, beats, has_ip, give_up_waiting,
  waited_too_long, timeout_row, check_waiting, process_waiting_workspace,
}

-- A session of the workspace is running afterwards, whether or not there was one.
any-append_last :
    (w : ℕ) (ss : List UsageSession) (s : UsageSession)
    → running_in w s ≡ true
    → any (running_in w) (ss ++ s ∷ []) ≡ true
any-append_last w [] s live = rw live refl
any-append_last w (x ∷ ss) s live = ground (arith, any-append_last w ss s live)

start_cold_session_runs :
    (id user w gpu : ℕ) (locked : Option ℕ) (now : ℕ) (l : Ledger) (c : Catalog)
    → any (running_in w) (start_cold_session id user w gpu locked now l c l).sessions ≡ true
unfolding start_cold_session create_session new_session
start_cold_session_runs id user w gpu locked now l c =
    elim (Bool-cases (any (running_in w) l.sessions)) [
      | inl already ↦ rw already already
      | inr none_yet ↦ rw none_yet (
          any-append_last w l.sessions (new_session id user w gpu now (cold_price gpu locked c))
            (ground (arith, ==_refl w)))
    ]

note_ip_known :
    (t : Watch) (ws : Workspace) (ip : Option ℕ) (fl : Fleet)
    → has_ip ws ≡ true
    → note_ip t ws ip fl ≡ fl
unfolding note_ip
note_ip_known t ws none fl known = refl
note_ip_known t ws (some ip) fl known = ground arith

-- The workspace is to be taken down, and a session bills it.
pub record IsLate (w : ℕ) (fl : Fleet) : Type 0 where
  pub row : Workspace
  pub found : find_first (workspace_with_id w) fl.platform.workspaces ≡ some row
  pub status : row.status ≡ terminating
  pub running : any (running_in w) fl.platform.ledger.sessions ≡ true

-- The tables after a cold workspace has become ready.
abbrev ready : Watch → Workspace → ℕ → Fleet → Fleet
ready t r user fl = bill_cold t r (some user) (change_workspace r.id (ready_row t.now r) fl)

make_ready-ready :
    (t : Watch) (r : Workspace) (user : ℕ) (fl : Fleet)
    → has_ip r ≡ true
    → beats t.now r.last_agent_heartbeat_at ≡ true
    → r.assigned_user_id ≡ some user
    → make_ready t (some r) fl ≡ ready t r user fl
unfolding make_ready
make_ready-ready t r user fl known beating owner = rw known (rw beating (rw owner refl))

abbrev billed : Watch → Workspace → ℕ → Fleet → Fleet
billed t r user fl =
    on_platform
      (λ (p : Platform). record p {
        ledger =
            start_cold_session t.session_id user r.id r.gpu_type r.locked_spot_price_cents t.now
              p.ledger fl.catalog p.ledger;
      })
      fl

bill_cold-billed :
    (t : Watch) (r : Workspace) (user : ℕ) (fl : Fleet)
    → r.is_warm_pool ≡ false
    → bill_cold t r (some user) fl ≡ billed t r user fl
unfolding bill_cold
bill_cold-billed t r user fl cold = ap (λ (b : Bool). if b then fl else billed t r user fl) cold

give_up-IsLate :
    (t : Watch) (ws r : Workspace) (user : ℕ) (fl : Fleet)
    → find_first (workspace_with_id ws.id) fl.platform.workspaces ≡ some r
    → r.id ≡ ws.id
    → waited_too_long t.now ws ≡ true
    → IsLate ws.id
        (give_up_waiting t ws (billed t r user (change_workspace r.id (ready_row t.now r) fl)))
unfolding give_up_waiting
give_up-IsLate t ws r user fl there own long =
    let xs = fl.platform.workspaces in
    rw long (record {
      row = timeout_row t.now (ready_row t.now r r);
      found =
          find_first-update_many (workspace_with_id ws.id) (timeout_row t.now)
            (update_many (workspace_with_id r.id) (ready_row t.now r) xs) (ready_row t.now r r)
            (λ x. refl)
            (ap
                (λ (k : ℕ).
                  find_first (workspace_with_id ws.id)
                    (update_many (workspace_with_id k) (ready_row t.now r) xs))
                own
              ∙ find_first-update_many (workspace_with_id ws.id) (ready_row t.now r) xs r
                  (λ x. refl) there);
      status = refl;
      running =
          ap
            (λ (k : ℕ).
              any (running_in k)
                (start_cold_session t.session_id user r.id r.gpu_type r.locked_spot_price_cents
                  t.now fl.platform.ledger fl.catalog fl.platform.ledger).sessions)
            (sym own)
          ∙ start_cold_session_runs t.session_id user r.id r.gpu_type r.locked_spot_price_cents
              t.now fl.platform.ledger fl.catalog;
    })

-- A cold workspace with a machine and an address, whose agent has beaten in the last 30 seconds
-- but which booted more than five minutes ago, is in status TERMINATING after its turn, and a
-- session is running in it.
pub process_waiting_workspace-IsLate :
    (t : Watch) (ws r : Workspace) (user : ℕ) (ip : Option ℕ) (fl : Fleet)
    → t.ip ≡ address ip
    → has_vm ws ≡ true
    → has_ip ws ≡ true
    → find_first (workspace_with_id ws.id) fl.platform.workspaces ≡ some r
    → has_ip r ≡ true
    → beats t.now r.last_agent_heartbeat_at ≡ true
    → r.is_warm_pool ≡ false
    → r.assigned_user_id ≡ some user
    → waited_too_long t.now ws ≡ true
    → IsLate ws.id (process_waiting_workspace t ws fl)
unfolding process_waiting_workspace check_waiting
process_waiting_workspace-IsLate t ws r user ip fl answer vm known there known' beating cold owner
      long =
    let own : r.id ≡ ws.id =
      (==_iff r.id ws.id).0
        (find_first-fits (workspace_with_id ws.id) fl.platform.workspaces r there) in
    rw (answer, process_waiting_workspace)
      (rw vm (
        rw (note_ip_known t ws ip fl known, check_waiting)
          (rw there (
            rw (make_ready-ready t r user fl known' beating owner) (
              rw (bill_cold-billed t r user (change_workspace r.id (ready_row t.now r) fl) cold)
                (give_up-IsLate t ws r user fl there own long))))))
