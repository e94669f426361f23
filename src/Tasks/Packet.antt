-- ===== src/Tasks/Packet.antt =====
-- WorkerContextPacket of async_runtime/context_packets.py: what a worker is told about its context.
use Prim.Native.Char.{code}
use xiao_ming.Prelude.{
  String, eqb, join, concat, ◌==◌, none, some, Option, List, [], ◌∷◌, ◌++◌, map, Bool,
  if◌then◌else◌,
}
use xiao_ming.Json
use xiao_ming.Json.{
  Value, str, arr, obj, Fields, dict, of_list, of_option, Python, text, text_or, optional_text,
  items_or_empty,
}
use xiao_ming.Tasks.Spec.{
  ResourceClaim, claim_to_dict, claim_from_dict, kind_text, confidence_text, dicts, texts,
}

pub record WorkerContextPacket : Type 0 where
  pub task_id : String
  pub session_id : String
  pub agent_type : String
  pub context_policy : String
  pub workspace : String
  pub selected_skills : List String
  pub active_tasks_summary : String
  pub source_item_ids : List String
  pub resource_claims : List ResourceClaim
  pub handoff_summary : String
  pub decisions_already_made : List String
  pub relevant_messages : List Fields
  pub prior_worker_summary : Option String
  pub content_hash : String

-- WorkerContextPacket._content_dict
unfoldable pub content_dict : WorkerContextPacket → Bool → Fields
unfolding claim_to_dict
content_dict p include_hash = dict (
    (("task_id", str p.task_id)
      ∷ ("session_id", str p.session_id)
      ∷ ("agent_type", str p.agent_type)
      ∷ ("context_policy", str p.context_policy)
      ∷ ("workspace", str p.workspace)
      ∷ ("selected_skills", texts p.selected_skills)
      ∷ ("active_tasks_summary", str p.active_tasks_summary)
      ∷ ("source_item_ids", texts p.source_item_ids)
      ∷ (
        "resource_claims",
        arr (of_list (map (λ claim. obj (claim_to_dict claim)) p.resource_claims)),
      )
      ∷ ("handoff_summary", str p.handoff_summary)
      ∷ ("decisions_already_made", texts p.decisions_already_made)
      ∷ ("relevant_messages", arr (of_list (map obj p.relevant_messages)))
      ∷ ("prior_worker_summary", of_option p.prior_worker_summary)
      ∷ [])
    ++ (if include_hash then ("content_hash", str p.content_hash) ∷ [] else []))

-- WorkerContextPacket.__post_init__, with the hash function of _stable_hash
unfoldable pub post_init : (Fields → String) → WorkerContextPacket → WorkerContextPacket
unfolding content_dict
post_init stable_hash p = record {
  task_id = p.task_id;
  session_id = p.session_id;
  agent_type = p.agent_type;
  context_policy = p.context_policy;
  workspace = p.workspace;
  selected_skills = p.selected_skills;
  active_tasks_summary = p.active_tasks_summary;
  source_item_ids = p.source_item_ids;
  resource_claims = p.resource_claims;
  handoff_summary = p.handoff_summary;
  decisions_already_made = p.decisions_already_made;
  relevant_messages = p.relevant_messages;
  prior_worker_summary = p.prior_worker_summary;
  content_hash = stable_hash (content_dict p Bool.false);
}

-- WorkerContextPacket.from_dict
unfoldable pub packet_from_dict : (Fields → String) → Python → Fields → WorkerContextPacket
unfolding post_init claim_from_dict dicts
packet_from_dict stable_hash python fields = post_init stable_hash (record {
  task_id = text_or python (Json.get fields "task_id") "";
  session_id = text_or python (Json.get fields "session_id") "";
  agent_type = text_or python (Json.get fields "agent_type") "worker";
  context_policy = text_or python (Json.get fields "context_policy") "forked";
  workspace = text_or python (Json.get fields "workspace") "";
  selected_skills = map (text python) (items_or_empty python (Json.get fields "selected_skills"));
  active_tasks_summary = text_or python (Json.get fields "active_tasks_summary") "";
  source_item_ids = map (text python) (items_or_empty python (Json.get fields "source_item_ids"));
  resource_claims =
      map (claim_from_dict python)
        (dicts (items_or_empty python (Json.get fields "resource_claims")));
  handoff_summary = text_or python (Json.get fields "handoff_summary") "";
  decisions_already_made =
      map (text python) (items_or_empty python (Json.get fields "decisions_already_made"));
  relevant_messages = dicts (items_or_empty python (Json.get fields "relevant_messages"));
  prior_worker_summary = optional_text python (Json.get fields "prior_worker_summary");
  content_hash = "";
})

-- _xml
unfoldable pub xml : String → String
xml String.[] = String.[]
xml (String.◌∷◌ c s) =
    let rest = xml s in
    if eqb (code c) 38
    then concat ("&amp;" ∷ rest ∷ [])
    else if eqb (code c) 60
    then concat ("&lt;" ∷ rest ∷ [])
    else if eqb (code c) 62
    then concat ("&gt;" ∷ rest ∷ [])
    else String.◌∷◌ c rest

-- "\n".join(lines) or "- (none)"
unfoldable pub lines_or_none : List String → String
lines_or_none [] = "- (none)"
lines_or_none (l ∷ ls) = join "\n" (l ∷ ls)

abbrev item : String → String
unfolding xml
item s = concat ("- " ∷ xml s ∷ [])

abbrev resource_line : ResourceClaim → String
unfolding xml
resource_line claim = concat (
    "- "
    ∷ xml claim.resource
    ∷ " ("
    ∷ kind_text claim.kind
    ∷ ", "
    ∷ confidence_text claim.confidence
    ∷ ")"
    ∷ [])

-- <tag>value</tag>
abbrev tagged : String → String → String
unfolding xml
tagged tag value = concat ("<" ∷ tag ∷ ">" ∷ xml value ∷ "</" ∷ tag ∷ ">" ∷ [])

-- The last section of render_for_worker, if the summary is there and not empty.
unfoldable pub prior_part : Option String → List String
unfolding xml
prior_part none = []
prior_part (some summary) =
    if summary == ""
    then []
    else "<prior_worker_summary>" ∷ xml summary ∷ "</prior_worker_summary>" ∷ []

module _ (python : Python) where
  abbrev message_line : Fields → String
  unfolding xml
  message_line message = concat (
      "- "
      ∷ xml (text_or python (Json.get message "role") "message")
      ∷ ": "
      ∷ xml (text_or python (Json.get message "content") "")
      ∷ [])

  -- WorkerContextPacket.render_for_worker
  unfoldable pub render_for_worker : WorkerContextPacket → String
  unfolding xml lines_or_none prior_part item resource_line tagged message_line
  render_for_worker p = join "\n" (
      ("<worker_context_packet>"
        ∷ tagged "task_id" p.task_id
        ∷ tagged "session_id" p.session_id
        ∷ tagged "agent_type" p.agent_type
        ∷ tagged "context_policy" p.context_policy
        ∷ tagged "workspace" p.workspace
        ∷ tagged "content_hash" p.content_hash
        ∷ "<handoff_summary>"
        ∷ xml p.handoff_summary
        ∷ "</handoff_summary>"
        ∷ "<decisions_already_made>"
        ∷ lines_or_none (map item p.decisions_already_made)
        ∷ "</decisions_already_made>"
        ∷ "<selected_skills>"
        ∷ lines_or_none (map item p.selected_skills)
        ∷ "</selected_skills>"
        ∷ "<resource_claims>"
        ∷ lines_or_none (map resource_line p.resource_claims)
        ∷ "</resource_claims>"
        ∷ "<active_tasks_summary>"
        ∷ xml p.active_tasks_summary
        ∷ "</active_tasks_summary>"
        ∷ "<relevant_messages>"
        ∷ lines_or_none (map message_line p.relevant_messages)
        ∷ "</relevant_messages>"
        ∷ [])
      ++ (prior_part p.prior_worker_summary ++ "</worker_context_packet>" ∷ []))
