-- ===== src/Tasks/Agents.antt =====
-- async_runtime/agents.py: the roles of the workers.
use xiao_ming.Prelude.{
  ℕ, String, Bool, true, Option, none, some, List, [], ◌∷◌, Result, ok, error, concat,
}
use xiao_ming.Prelude.Dict
use xiao_ming.Prelude.Dict.{Dict}

pub data ToolProfile : Type 0 where
  full read_only skill_install verify : ToolProfile

pub record AgentDefinition : Type 0 where
  pub name : String
  pub description : String
  pub when_to_use : String
  pub system_prompt : String
  pub tool_profile : ToolProfile
  pub default_skills : List String
  pub default_context_policy : String
  pub background_default : Bool
  pub model : Option String
  pub max_turns : Option ℕ

-- AgentRegistry.__init__
unfoldable pub agent_registry : List AgentDefinition → Dict AgentDefinition → Dict AgentDefinition
agent_registry [] agents = agents
agent_registry (agent ∷ rest) agents = agent_registry rest (Dict.put agents agent.name agent)

-- AgentRegistry.get: an error is its KeyError
unfoldable pub get_agent : Dict AgentDefinition → String → Result AgentDefinition
get_agent agents name = elim (Dict.get agents name) [
  | some agent ↦ ok agent
  | none ↦ error (concat ("unknown agent type: " ∷ name ∷ []))
]

abbrev pub worker_prompt : String
worker_prompt =
    "You are an independent coding agent. Your user is the coordinator, who represents the human user. Complete the assigned task using available tools and skills. Decide your own approach from the task goal and context. Ask the coordinator through talk when you need human intent, design approval, or a decision. For skill installation, use the native skill tool with action=install instead of recreating installer behavior with shell, git clone, curl, mkdir, cp, or write_file."

abbrev pub verifier_worker_prompt : String
verifier_worker_prompt =
    "You are an independent verification agent. Use only read-only tools to decide whether the worker result satisfies the user goal. Do not trust reported paths without inspecting them when existence or content matters."

-- builtin_agent_registry
unfoldable pub builtin_agent_registry : Dict AgentDefinition
unfolding agent_registry
builtin_agent_registry =
    agent_registry
      (record {
        name = "worker";
        description = "The single worker role for all concrete background work.";
        when_to_use =
            "Use for any concrete task that may inspect, modify, install, research, or verify work.";
        system_prompt = worker_prompt;
        tool_profile = full;
        default_skills = [];
        default_context_policy = "forked";
        background_default = true;
        model = none;
        max_turns = none;
      }
        ∷ record {
          name = "verifier";
          description = "Read-only worker that verifies whether reported work satisfies the task.";
          when_to_use = "Use internally after a worker reports completion.";
          system_prompt = verifier_worker_prompt;
          tool_profile = verify;
          default_skills = [];
          default_context_policy = "forked";
          background_default = true;
          model = none;
          max_turns = none;
        }
        ∷ [])
      []
