-- ===== src/CodexScope/World.antt =====
-- What the handlers of the hooks of Codex act on: the state file and the mutation trace. A world
-- holds the state file, the calls of the seam (the mutation trace) with whether each worked, and the
-- fates of the operations to come: each lock, read, write and call of the seam takes the next fate,
-- and works if there is none left. A failed write leaves the state file.
use shared_context_engineeri.Common.{String, Bool, true, List, [], ◌∷◌, if◌then◌else◌, string_eq}
use shared_context_engineeri.Common.Result.{Result, ok, err}
use shared_context_engineeri.Common.Exec.{Exec, pure, raise, ◌>>=◌}
use shared_context_engineeri.CodexScope.{option_string_eq}
use shared_context_engineeri.CodexScope.State.{
  attempt_phase_eq, AdapterState, AdapterError, io_failed, seam_failed, StateTransaction, unchanged,
  persist,
}

-- what the seam is told: the scope
pub data Payload : Type 0 where
  start close abandon : String → Payload
  flush : Payload

pub record World : Type 0 where
  pub state : AdapterState
  -- the newest call first
  pub calls : List (Payload × Bool)
  pub fates : List Bool

abbrev pub Action : Type 0 → Type 0
Action A = Exec AdapterError World A

-- whether the next operation works
abbrev pub next_fate : List Bool → Bool
next_fate [] = true
next_fate (fate ∷ _) = fate

abbrev pub later_fates : List Bool → List Bool
later_fates [] = []
later_fates (_ ∷ fates) = fates

-- a lock, a read or a write
unfoldable pub attempt_io : Action (Unit {0})
attempt_io w =
    let after = record w { fates = later_fates w.fates } in
    if next_fate w.fates then (ok tt, after) else (err io_failed, after)

unfoldable pub seam : Payload → Action Bool
seam payload w =
    let worked = next_fate w.fates in
    (ok worked, record w { calls = (payload, worked) ∷ w.calls; fates = later_fates w.fates })

-- `seam(…).await?`
unfoldable pub seam_or_fail : Payload → Action (Unit {0})
unfolding seam
seam_or_fail payload = seam payload >>= λ worked. if worked then pure tt else raise seam_failed

unfoldable pub read_state : Action AdapterState
unfolding attempt_io
read_state = attempt_io >>= λ _ w. (ok w.state, w)

unfoldable pub commit_transaction : {A : Type 0} → StateTransaction A → Action A
unfolding attempt_io
commit_transaction (unchanged a) = pure a
commit_transaction (persist a state) = attempt_io >>= λ _ w. (ok a, record w { state = state })

unfoldable pub with_locked_state : {A : Type 0} → (AdapterState → StateTransaction A) → Action A
unfolding read_state attempt_io
with_locked_state operation = read_state >>= λ state. commit_transaction (operation state)

-- an operation that may refuse the state
unfoldable pub commit_result : {A : Type 0} → Result AdapterError (StateTransaction A) → Action A
unfolding attempt_io
commit_result (ok transaction) = commit_transaction transaction
commit_result (err e) = raise e

unfoldable pub with_checked_state :
    {A : Type 0} → (AdapterState → Result AdapterError (StateTransaction A)) → Action A
unfolding read_state attempt_io
with_checked_state operation = read_state >>= λ state. commit_result (operation state)

unfoldable pub with_boundary_lock : {A : Type 0} → Action A → Action A
unfolding attempt_io
with_boundary_lock operation = attempt_io >>= λ _. operation
