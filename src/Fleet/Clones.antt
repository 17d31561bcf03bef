-- ===== src/Fleet/Clones.antt =====
-- The semaphore of clones: `acquireCloneSemaphore`, `releaseCloneSemaphore` and `cleanupOrphanedSemaphores` of
-- worker/src/jobs/warm-pool.ts. A workspace has one row for good, by a unique index.
use final_aldaro.Common.{
  ℕ, ◌+◌, Bool, true, false, none, some, List, [], ◌∷◌, ◌++◌, ◌==◌, ◌&&◌, ◌||◌, if◌then◌else◌, ltb,
  leb, any, count, update_many,
}
use final_aldaro.Fleet.Rows.{Fleet, Hands, CloneSemaphore, is_held, held_on, held_by}

abbrev pub clone_semaphore_timeout_ms : ℕ
clone_semaphore_timeout_ms = 900_000

abbrev pub new_semaphore : (node workspace now : ℕ) → CloneSemaphore
new_semaphore node w now = record {
  proxmox_node = node;
  workspace_id = w;
  acquired_at = now;
  released_at = none;
}

abbrev pub semaphore_of : ℕ → CloneSemaphore → Bool
semaphore_of w s = s.workspace_id == w

-- Whether the transaction returns `true`; an error is caught and counts as `false`.
unfoldable pub may_clone : Hands → (node workspace : ℕ) → List CloneSemaphore → Bool
may_clone h node w ss =
    if h.semaphore_fault || leb h.max_concurrent_clones (count (held_on node) ss)
    then false
    else if any (semaphore_of w) ss
    then false
    else true

abbrev pub on_semaphores : (List CloneSemaphore → List CloneSemaphore) → Fleet → Fleet
on_semaphores f fl = record fl { semaphores = f fl.semaphores }

unfoldable pub acquire_clone_semaphore : Hands → (node workspace : ℕ) → Fleet → Fleet × Bool
unfolding may_clone
acquire_clone_semaphore h node w fl =
    if may_clone h node w fl.semaphores
    then (
      on_semaphores (λ (ss : List CloneSemaphore). ss ++ new_semaphore node w h.now ∷ []) fl,
      true,
    )
    else (fl, false)

abbrev pub let_go : ℕ → CloneSemaphore → CloneSemaphore
let_go now s = record s { released_at = some now }

unfoldable pub release_clone_semaphore : (now workspace : ℕ) → Fleet → Fleet
release_clone_semaphore now w = on_semaphores (update_many (held_by w) (let_go now))

-- Held for more than the timeout.
abbrev pub is_orphaned : ℕ → CloneSemaphore → Bool
is_orphaned now s = is_held s && ltb (s.acquired_at + clone_semaphore_timeout_ms) now

unfoldable pub cleanup_orphaned_semaphores : ℕ → Fleet → Fleet
cleanup_orphaned_semaphores now = on_semaphores (update_many (is_orphaned now) (let_go now))
