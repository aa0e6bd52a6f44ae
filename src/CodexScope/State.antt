-- ===== src/CodexScope/State.antt =====
-- cli/src/services/hooks/codex_mutation_scope/state.rs: each transaction on the state of the adapter
-- as a function of it. The counters of attempts and of generations do not overflow.
use shared_context_engineeri.Common.{
  ℕ, ◌+◌, String, Bool, true, false, not, Option, none, some, List, [], ◌∷◌, ◌++◌, length, filter,
  ◌==◌, ◌!=◌, ◌&&◌, ◌||◌, if◌then◌else◌, Eq, nat_eq, string_eq,
}
use shared_context_engineeri.Common.Result.{Result, ok, err}
use shared_context_engineeri.CodexScope.{AttemptKey, format_codex_scope_id, option_string_eq}

pub data AttemptPhase : Type 0 where
  pending_start active : AttemptPhase

unfoldable pub AttemptPhase-discrete : Discrete AttemptPhase
AttemptPhase-discrete = hlevel

instance abbrev pub attempt_phase_eq : Eq AttemptPhase
attempt_phase_eq = record { dec = AttemptPhase-discrete }

-- a generation
pub data RecoveryState : Type 0 where
  clear : RecoveryState
  pending flushing : ℕ → RecoveryState

pub record AdapterAttempt : Type 0 where
  pub attempt_seq : ℕ
  pub scope_id : String
  pub session_id : String
  pub turn_id : String
  pub agent_id : Option String
  pub tool_use_id : String
  pub tool_name : String
  pub phase : AttemptPhase

abbrev pub matches_key : AttemptKey → AdapterAttempt → Bool
matches_key key a =
    a.session_id == key.session_id && a.agent_id == key.agent_id && a.tool_use_id == key.tool_use_id

abbrev pub in_builtin_lane : String → String → AdapterAttempt → Bool
in_builtin_lane session_id turn_id a = a.session_id == session_id && a.turn_id == turn_id

pub record AdapterState : Type 0 where
  pub version : ℕ
  pub next_attempt_seq : ℕ
  pub next_recovery_generation : ℕ
  pub recovery : RecoveryState
  pub attempts : List AdapterAttempt

abbrev pub default_state : AdapterState
default_state = record {
  version = 3;
  next_attempt_seq = 1;
  next_recovery_generation = 1;
  recovery = clear;
  attempts = [];
}

pub record AllocatedAttempt : Type 0 where
  pub attempt : AdapterAttempt
  pub reused : Bool

pub data AdmitDecision : Type 0 where
  admitted : AllocatedAttempt → AdmitDecision
  recovery_blocked uncertain_attempt_blocked stale_predecessor_blocked : AdmitDecision
  flush_claimed : ℕ → AdmitDecision

pub data RecoveryFlushCompletion : Type 0 where
  cleared superseded : RecoveryFlushCompletion

-- why the adapter fails; `out_of_fuel` is the model's own
pub data AdapterError : Type 0 where
  io_failed seam_failed attempt_not_found out_of_fuel : AdapterError

-- what a transaction gives, and the state to write if it changed it
pub data StateTransaction (A : Type 0) : Type 0 where
  unchanged : A → StateTransaction A
  persist : A → AdapterState → StateTransaction A

unfoldable pub find : (AdapterAttempt → Bool) → List AdapterAttempt → Option AdapterAttempt
find p [] = none
find p (a ∷ attempts) = if p a then some a else find p attempts

unfoldable pub any : (AdapterAttempt → Bool) → List AdapterAttempt → Bool
any p [] = false
any p (a ∷ attempts) = p a || any p attempts

unfoldable pub new_attempt : AdapterState → AttemptKey → String → String → AdapterAttempt
unfolding format_codex_scope_id
new_attempt state key turn_id tool_name = record {
  attempt_seq = state.next_attempt_seq;
  scope_id = format_codex_scope_id state.next_attempt_seq key;
  session_id = key.session_id;
  turn_id = turn_id;
  agent_id = key.agent_id;
  tool_use_id = key.tool_use_id;
  tool_name = tool_name;
  phase = pending_start;
}

-- `allocate_pending_start`
abbrev pub with_attempt : AdapterState → AdapterAttempt → AdapterState
with_attempt state a = record state {
  attempts = state.attempts ++ a ∷ [];
  next_attempt_seq = state.next_attempt_seq + 1;
}

-- the part of `admit_tracked_attempt` with no recovery outstanding
unfoldable pub admit_clear :
    AttemptKey → String → String → AdapterState → StateTransaction AdmitDecision
unfolding find any
admit_clear key turn_id tool_name state =
    let stale : AdapterAttempt → Bool =
      λ a. in_builtin_lane key.session_id turn_id a && not (matches_key key a) in
    let allocated = new_attempt state key turn_id tool_name in
    elim (find (matches_key key) state.attempts) [
      | some existing ↦ unchanged (admitted (record { attempt = existing; reused = true }))
      | none ↦
          if any stale state.attempts
          then unchanged stale_predecessor_blocked
          else if any (λ a. a.phase == pending_start) state.attempts
          then unchanged uncertain_attempt_blocked
          else persist (admitted (record { attempt = allocated; reused = false }))
              (with_attempt state allocated)
    ]

abbrev pub is_empty_list : List AdapterAttempt → Bool
is_empty_list [] = true
is_empty_list (_ ∷ _) = false

unfoldable pub admit_tracked_attempt :
    AttemptKey → String → String → AdapterState → StateTransaction AdmitDecision
unfolding admit_clear
admit_tracked_attempt key turn_id tool_name state = elim state.recovery [
  | flushing generation ↦ unchanged recovery_blocked
  | pending generation ↦
      if not (is_empty_list state.attempts)
      then unchanged recovery_blocked
      else persist (flush_claimed generation) (record state { recovery = flushing generation })
  | clear ↦ admit_clear key turn_id tool_name state
]

-- the first attempt of the scope becomes active
unfoldable pub activate : String → List AdapterAttempt → List AdapterAttempt
activate scope_id [] = []
activate scope_id (a ∷ attempts) =
    let rest = activate scope_id attempts in
    if a.scope_id == scope_id then record a { phase = active } ∷ attempts else a ∷ rest

unfoldable pub mark_active :
    String → AdapterState → Result AdapterError (StateTransaction (Unit {0}))
unfolding find activate
mark_active scope_id state = elim (find (λ a. a.scope_id == scope_id) state.attempts) [
  | none ↦ err attempt_not_found
  | some a ↦ ok (persist tt (record state { attempts = activate scope_id state.attempts }))
]

unfoldable pub remove_attempt : String → AdapterState → StateTransaction (Unit {0})
unfolding filter
remove_attempt scope_id state =
    let kept = filter (λ a. a.scope_id != scope_id) state.attempts in
    if length kept == length state.attempts
    then unchanged tt
    else persist tt (record state { attempts = kept })

unfoldable pub normalize_recovery : AdapterState → StateTransaction (Unit {0})
normalize_recovery state = elim state.recovery [
  | flushing generation ↦ persist tt (record state { recovery = pending generation })
  | pending generation ↦ unchanged tt
  | clear ↦ unchanged tt
]

unfoldable pub arm_recovery : AdapterState → StateTransaction ℕ
arm_recovery state =
    let generation = state.next_recovery_generation in
    let armed : StateTransaction ℕ =
      persist generation (record state {
        next_recovery_generation = generation + 1;
        recovery = pending generation;
      }) in
    elim state.recovery [
      | pending existing ↦ persist existing (record state { recovery = pending existing })
      | flushing _ ↦ armed
      | clear ↦ armed
    ]

unfoldable pub complete_recovery_flush : ℕ → AdapterState → StateTransaction RecoveryFlushCompletion
complete_recovery_flush generation state = elim state.recovery [
  | flushing owned ↦
      if owned == generation
      then persist cleared (record state { recovery = clear })
      else unchanged superseded
  | pending _ ↦ unchanged superseded
  | clear ↦ unchanged superseded
]

unfoldable pub relinquish_recovery_flush : ℕ → AdapterState → StateTransaction (Unit {0})
relinquish_recovery_flush generation state = elim state.recovery [
  | flushing owned ↦
      if owned == generation
      then persist tt (record state { recovery = pending owned })
      else unchanged tt
  | pending _ ↦ unchanged tt
  | clear ↦ unchanged tt
]
