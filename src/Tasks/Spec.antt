-- ===== src/Tasks/Spec.antt =====
-- TaskSpec of async_runtime/tasks.py and ResourceClaim of async_runtime/context_packets.py.
pub mod RoundTrip
use xiao_ming.Prelude.{
  String, Bool, true, false, not, ◌&&◌, Option, none, some, List, [], ◌∷◌, map, ◌==◌, if◌then◌else◌,
  contains, keep, strip, concat, split_char, has_char, Result, ok, error, ◌>>=◌, ◌>>◌,
}
use xiao_ming.Json
use xiao_ming.Json.{
  Value, null, bool, num, literal, str, arr, obj, Fields, dict, of_list, to_list, Python, text,
  text_or, truth, truthy,
}

pub data ResourceKind : Type 0 where
  file directory code_module domain external : ResourceKind

pub data ResourceConfidence : Type 0 where
  explicit inferred unknown : ResourceConfidence

pub record ResourceClaim : Type 0 where
  pub resource : String
  pub kind : ResourceKind
  pub confidence : ResourceConfidence

abbrev pub kind_text : ResourceKind → String
kind_text file = "file"
kind_text directory = "directory"
kind_text code_module = "module"
kind_text domain = "domain"
kind_text external = "external"

abbrev pub kind_of : String → ResourceKind
kind_of s =
    if s == "file"
    then file
    else if s == "directory"
    then directory
    else if s == "module"
    then code_module
    else if s == "external"
    then external
    else domain

abbrev pub confidence_text : ResourceConfidence → String
confidence_text explicit = "explicit"
confidence_text inferred = "inferred"
confidence_text unknown = "unknown"

abbrev pub confidence_of : String → ResourceConfidence
confidence_of s =
    if s == "explicit" then explicit else if s == "inferred" then inferred else unknown

-- ResourceClaim.to_dict
unfoldable pub claim_to_dict : ResourceClaim → Fields
claim_to_dict claim = dict (
    ("resource", str claim.resource)
    ∷ ("kind", str (kind_text claim.kind))
    ∷ ("confidence", str (confidence_text claim.confidence))
    ∷ [])

pub data ExecutionMode : Type 0 where
  background foreground : ExecutionMode

abbrev pub mode_text : ExecutionMode → String
mode_text background = "background"
mode_text foreground = "foreground"

pub record TaskSpec : Type 0 where
  pub title : String
  pub goal : String
  pub success_criteria : List String
  pub expected_artifacts : List String
  pub allowed_write_paths : List String
  pub verification_commands : List String
  pub agent_type : String
  pub execution_mode : ExecutionMode
  pub context_policy : String
  pub skills_to_preload : List String
  pub constraints : List String
  pub resource_claims : List ResourceClaim
  pub verification_required : Bool
  pub notes : String

-- A list of texts, as JSON.
abbrev pub texts : List String → Value
texts xs = arr (of_list (map str xs))

-- TaskSpec.to_dict
unfoldable pub spec_to_dict : TaskSpec → Fields
unfolding claim_to_dict
spec_to_dict spec = dict (
    ("title", str spec.title)
    ∷ ("goal", str spec.goal)
    ∷ ("success_criteria", texts spec.success_criteria)
    ∷ ("expected_artifacts", texts spec.expected_artifacts)
    ∷ ("allowed_write_paths", texts spec.allowed_write_paths)
    ∷ ("verification_commands", texts spec.verification_commands)
    ∷ ("agent_type", str spec.agent_type)
    ∷ ("execution_mode", str (mode_text spec.execution_mode))
    ∷ ("context_policy", str spec.context_policy)
    ∷ ("skills_to_preload", texts spec.skills_to_preload)
    ∷ ("constraints", texts spec.constraints)
    ∷ (
      "resource_claims",
      arr (of_list (map (λ claim. obj (claim_to_dict claim)) spec.resource_claims)),
    )
    ∷ ("verification_required", bool spec.verification_required)
    ∷ ("notes", str spec.notes)
    ∷ [])

-- _required_string
unfoldable pub required_string : Fields → String → Result String
required_string fields key = elim (Json.get fields key) [
  | some (str s) ↦
      if strip s == ""
      then error (concat ("missing required task spec field: " ∷ key ∷ []))
      else ok (strip s)
  | _ ↦ error (concat ("missing required task spec field: " ∷ key ∷ []))
]

-- [text.strip() for text in parts if text.strip()]
unfoldable pub stripped_parts : List String → List String
stripped_parts parts = keep (λ s. not (s == "")) (map strip parts)

-- The dicts of a list.
unfoldable pub dicts : List Value → List Fields
dicts [] = []
dicts (obj fs ∷ vs) = fs ∷ dicts vs
dicts (v ∷ vs) = dicts vs

-- [item for item in value if isinstance(item, dict)] of a list, and [] of other values
abbrev dicts_of : Option Value → List Fields
dicts_of (some (arr vs)) = dicts (to_list vs)
dicts_of _ = []

module _ (python : Python) where
  -- ResourceClaim.from_dict
  unfoldable pub claim_from_dict : Fields → ResourceClaim
  claim_from_dict fields = record {
    resource = text_or python (Json.get fields "resource") "";
    kind = kind_of (text_or python (Json.get fields "kind") "domain");
    confidence = confidence_of (text_or python (Json.get fields "confidence") "unknown");
  }

  -- [str(item).strip() for item in value if str(item).strip()]
  unfoldable pub stripped_items : List Value → List String
  unfolding stripped_parts
  stripped_items vs = stripped_parts (map (text python) vs)

  -- The parts of a text that is no JSON or Python list: its lines, or what its commas separate.
  unfoldable pub separated : String → List String
  separated stripped =
      stripped_parts
        (if has_char "\n" stripped then split_char "\n" stripped else split_char "," stripped)

  abbrev items_of : Option Value → String → List String
  items_of (some (arr vs)) stripped = stripped_items (to_list vs)
  items_of _ stripped = separated stripped

  abbrev either_parse : Option Value → Option Value → Option Value
  either_parse none other = other
  either_parse parsed other = parsed

  -- _string_list: json.loads comes first, and ast.literal_eval where it fails.
  unfoldable pub string_list : Option Value → List String
  unfolding stripped_items separated
  string_list (some (arr vs)) = stripped_items (to_list vs)
  string_list (some (str s)) =
      let stripped = strip s in
      if stripped == ""
      then []
      else items_of (either_parse (python.loads stripped) (python.literal_eval stripped)) stripped
  string_list _ = []

  -- _dict_list
  unfoldable pub dict_list : Option Value → List Fields
  unfolding dicts
  dict_list (some (str s)) = dicts_of (python.loads s)
  dict_list v = dicts_of v

  -- _resource_claims
  unfoldable pub resource_claims : Option Value → List ResourceClaim
  unfolding dict_list
  resource_claims v = map claim_from_dict (dict_list v)

  -- _execution_mode
  unfoldable pub execution_mode : Option Value → ExecutionMode
  execution_mode v = if strip (text_or python v "") == "foreground" then foreground else background

  -- bool(data.get(key, True))
  abbrev pub truth_or_true : Option Value → Bool
  truth_or_true none = true
  truth_or_true (some v) = truthy v

  -- TaskSpec.from_dict
  unfoldable pub spec_from_dict : Fields → Result TaskSpec
  unfolding required_string string_list resource_claims execution_mode
  spec_from_dict fields = do
    title ← required_string fields "title"
    goal ← required_string fields "goal"
    ok (record {
      title = title;
      goal = goal;
      success_criteria = string_list (Json.get fields "success_criteria");
      expected_artifacts = string_list (Json.get fields "expected_artifacts");
      allowed_write_paths = string_list (Json.get fields "allowed_write_paths");
      verification_commands = string_list (Json.get fields "verification_commands");
      agent_type = text_or python (Json.get fields "agent_type") "";
      execution_mode = execution_mode (Json.get fields "execution_mode");
      context_policy = text_or python (Json.get fields "context_policy") "";
      skills_to_preload = string_list (Json.get fields "skills_to_preload");
      constraints = string_list (Json.get fields "constraints");
      resource_claims = resource_claims (Json.get fields "resource_claims");
      verification_required = truth_or_true (Json.get fields "verification_required");
      notes = text_or python (Json.get fields "notes") "";
    })

-- TaskSpec(title=title, goal=goal), with the defaults of the other fields.
abbrev pub spec_of : String → String → TaskSpec
spec_of title goal = record {
  title = title;
  goal = goal;
  success_criteria = [];
  expected_artifacts = [];
  allowed_write_paths = [];
  verification_commands = [];
  agent_type = "";
  execution_mode = background;
  context_policy = "";
  skills_to_preload = [];
  constraints = [];
  resource_claims = [];
  verification_required = true;
  notes = "";
}
