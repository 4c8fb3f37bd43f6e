-- ===== src/ResourceHub/Destinations.antt =====
-- internal/resourcehub/sync.go: the destination of a resource, and whom a resource is for.
-- `filepath.Join` is a parameter.
use Prim.Native.String.{String}
use text.Mathlib.Text.{◌==◌}
use agent_stack_manager.Prelude.{
  Bool, true, false, ◌||◌, Option, none, some, List, [], ◌∷◌, ◌++◌, if◌then◌else◌,
}
use agent_stack_manager.Prelude.Text.{concatenated}
use agent_stack_manager.ResourceHub.Types.{Kind, Agent, SyncMode, Resource, Target}

abbrev pub kind_text : Kind → String
kind_text Kind.skill = "skill"
kind_text Kind.agent = "agent"
kind_text Kind.rule = "rule"
kind_text Kind.command = "command"
kind_text Kind.prompt = "prompt"
kind_text Kind.mcp_server = "mcp-server"
kind_text Kind.context = "context"
kind_text (Kind.other text) = text

abbrev pub agent_text : Agent → String
agent_text Agent.codex = "codex"
agent_text Agent.claude = "claude"
agent_text Agent.cursor = "cursor"
agent_text Agent.opencode = "opencode"
agent_text Agent.copilot = "github-copilot"
agent_text Agent.generic = "generic"
agent_text (Agent.other text) = text

abbrev pub is_listed : String → List Agent → Bool
is_listed wanted [] = false
is_listed wanted (candidate ∷ agents) = agent_text candidate == wanted || is_listed wanted agents

unfoldable pub supports_agent : Resource → Agent → Bool
supports_agent resource agent = elim resource.targets [
  | [] ↦ true
  | candidate ∷ agents ↦ is_listed (agent_text agent) (candidate ∷ agents)
]

-- The first argument says whether the program runs on Windows.
unfoldable pub effective_target_mode : Bool → Target → SyncMode
effective_target_mode on_windows target = elim target.mode [
  | SyncMode.unset ↦ if on_windows then SyncMode.copy else SyncMode.link
  | SyncMode.auto ↦ if on_windows then SyncMode.copy else SyncMode.link
  | mode ↦ mode
]

-- Where an agent keeps what is of a kind, under the target's root, with what follows the id.
unfoldable pub place_of : Agent → Kind → Option (List String × String)
place_of Agent.codex Kind.skill = some (".agents" ∷ "skills" ∷ [], "")
place_of Agent.codex Kind.agent = some (".codex" ∷ "agents" ∷ [], ".md")
place_of Agent.codex Kind.rule = some (".agents" ∷ "rules" ∷ [], ".md")
place_of Agent.codex Kind.context = some (".agents" ∷ "rules" ∷ [], ".md")
place_of Agent.codex Kind.command = some (".codex" ∷ "prompts" ∷ [], ".md")
place_of Agent.codex Kind.prompt = some (".codex" ∷ "prompts" ∷ [], ".md")
place_of Agent.codex Kind.mcp_server = some (".agentstack" ∷ "mcp" ∷ [], ".json")
place_of Agent.claude Kind.skill = some (".claude" ∷ "skills" ∷ [], "")
place_of Agent.claude Kind.agent = some (".claude" ∷ "agents" ∷ [], ".md")
place_of Agent.claude Kind.rule = some (".claude" ∷ "rules" ∷ [], ".md")
place_of Agent.claude Kind.context = some (".claude" ∷ "rules" ∷ [], ".md")
place_of Agent.claude Kind.command = some (".claude" ∷ "commands" ∷ [], ".md")
place_of Agent.claude Kind.prompt = some (".claude" ∷ "commands" ∷ [], ".md")
place_of Agent.claude Kind.mcp_server = some (".agentstack" ∷ "mcp" ∷ [], ".json")
place_of Agent.cursor Kind.skill = some (".cursor" ∷ "skills" ∷ [], "")
place_of Agent.cursor Kind.agent = some (".cursor" ∷ "agents" ∷ [], ".md")
place_of Agent.cursor Kind.rule = some (".cursor" ∷ "rules" ∷ [], ".mdc")
place_of Agent.cursor Kind.context = some (".cursor" ∷ "rules" ∷ [], ".mdc")
place_of Agent.cursor Kind.command = some (".cursor" ∷ "commands" ∷ [], ".md")
place_of Agent.cursor Kind.prompt = some (".cursor" ∷ "commands" ∷ [], ".md")
place_of Agent.cursor Kind.mcp_server = some (".agentstack" ∷ "mcp" ∷ [], ".json")
place_of Agent.opencode Kind.skill = some (".opencode" ∷ "skills" ∷ [], "")
place_of Agent.opencode Kind.agent = some (".opencode" ∷ "agents" ∷ [], ".md")
place_of Agent.opencode Kind.rule = some (".opencode" ∷ "rules" ∷ [], ".md")
place_of Agent.opencode Kind.context = some (".opencode" ∷ "rules" ∷ [], ".md")
place_of Agent.opencode Kind.command = some (".opencode" ∷ "commands" ∷ [], ".md")
place_of Agent.opencode Kind.prompt = some (".opencode" ∷ "commands" ∷ [], ".md")
place_of Agent.opencode Kind.mcp_server = some (".agentstack" ∷ "mcp" ∷ [], ".json")
place_of Agent.copilot Kind.rule = some (".github" ∷ "instructions" ∷ [], ".instructions.md")
place_of Agent.copilot Kind.context = some (".github" ∷ "instructions" ∷ [], ".instructions.md")
place_of Agent.copilot Kind.prompt = some (".github" ∷ "prompts" ∷ [], ".prompt.md")
place_of Agent.copilot Kind.command = some (".github" ∷ "prompts" ∷ [], ".prompt.md")
place_of Agent.copilot Kind.skill = some (".agentstack" ∷ "skill" ∷ [], "")
place_of Agent.copilot Kind.agent = some (".agentstack" ∷ "agent" ∷ [], "")
place_of Agent.copilot Kind.mcp_server = some (".agentstack" ∷ "mcp-server" ∷ [], "")
place_of Agent.generic kind = some (".agentstack" ∷ kind_text kind ∷ [], "")
place_of _ _ = none

-- `none` is the error of a kind that the agent does not take.
unfoldable pub target_destination : (List String → String) → Target → Resource → Option String
target_destination join target resource = elim (place_of target.agent resource.kind) [
  | none ↦ none
  | some (folders, suffix) ↦
      some (join (target.root ∷ folders ++ concatenated (resource.id ∷ suffix ∷ []) ∷ []))
]
