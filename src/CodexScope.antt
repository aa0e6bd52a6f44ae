-- ===== src/CodexScope.antt =====
-- cli/src/services/hooks/codex_mutation_scope: the scopes that the hooks of Codex open, close and
-- abandon. The identities of events.rs.
pub mod State
pub mod World
pub mod Lifecycle
use Prim.Native.String as Text
use native.Mathlib.Decide.{ℕ_discrete}
use shared_context_engineeri.Common.{
  ℕ, ◌+◌, String, Bool, true, false, not, Option, none, some, List, [], ◌∷◌, ◌++◌, length, filter,
  ◌==◌, ◌!=◌, ◌&&◌, ◌||◌, if◌then◌else◌, contains, Eq, nat_eq, string_eq, String-discrete,
}
use shared_context_engineeri.Common.Text.{decimal, decimal_from}
use shared_context_engineeri.Common.Result.{Result, ok, err}

pub data ToolClassification : Type 0 where
  tracked_mutation delegation untracked : ToolClassification

unfoldable pub classify_tool : String → ToolClassification
unfolding contains
classify_tool tool_name =
    if contains tool_name ("Bash" ∷ "apply_patch" ∷ [])
    then tracked_mutation
    else if contains tool_name ("collaborationspawn_agent" ∷ "collaborationwait_agent" ∷ [])
    then delegation
    else untracked

pub record CodexTurnIdentity : Type 0 where
  pub session_id : String
  pub turn_id : String
  pub cwd : String

pub record CodexAgentIdentity : Type 0 where
  pub session_id : String
  pub turn_id : String
  pub cwd : String
  pub agent_id : String
  pub agent_type : Option String

pub record CodexSessionIdentity : Type 0 where
  pub session_id : String
  pub cwd : String

pub record AttemptKey : Type 0 where
  pub session_id : String
  pub agent_id : Option String
  pub tool_use_id : String

unfoldable pub OptionString-discrete : Discrete (Option String)
OptionString-discrete = hlevel String-discrete

instance abbrev pub option_string_eq : Eq (Option String)
option_string_eq = record { dec = OptionString-discrete }

pub record CodexToolIdentity : Type 0 where
  pub session_id : String
  pub turn_id : String
  pub cwd : String
  pub agent_id : Option String
  pub tool_name : String
  pub tool_use_id : String

abbrev pub attempt_key : CodexToolIdentity → AttemptKey
attempt_key identity = record {
  session_id = identity.session_id;
  agent_id = identity.agent_id;
  tool_use_id = identity.tool_use_id;
}

-- `command` is the text under that key of the tool's input, if there is one.
pub record CodexToolExecution : Type 0 where
  pub identity : CodexToolIdentity
  pub agent_type : Option String
  pub model : Option String
  pub command : Option String

pub data CodexHookEvent : Type 0 where
  pre_tool_use : CodexToolExecution → CodexHookEvent
  post_tool_use : CodexToolIdentity → CodexHookEvent
  stop interrupt : CodexTurnIdentity → CodexHookEvent
  subagent_stop : CodexAgentIdentity → CodexHookEvent
  session_end : CodexSessionIdentity → CodexHookEvent

-- a length before a text
abbrev pub with_length : String → String → String
with_length text rest = Text.◌++◌ (decimal (Text.len text)) (Text.◌++◌ ":" (Text.◌++◌ text rest))

abbrev pub or_empty : Option String → String
or_empty none = ""
or_empty (some s) = s

unfoldable pub format_codex_scope_id : ℕ → AttemptKey → String
unfolding decimal_from
format_codex_scope_id attempt_seq key = Text.◌++◌ "cx-tool-v1|n=" (
    Text.◌++◌ (decimal attempt_seq) (
      Text.◌++◌ "|s=" (
        with_length key.session_id (
          Text.◌++◌ "|a=" (
            with_length (or_empty key.agent_id)
              (Text.◌++◌ "|t=" (with_length key.tool_use_id "")))))))
