-- ===== src/Tasks/Spec/RoundTrip.antt =====
-- A task specification is read back as it was written.
use xiao_ming.Prelude.{
  String, false, some, List, [], ◌∷◌, map, ◌==◌, ◌≡◌, refl, strip, All, ok, ap, ap₂,
}
use xiao_ming.Json
use xiao_ming.Json.{
  Value, str, arr, obj, Fields, of_list, to_list, to_list-of_list, Python, text, text_or,
  text_or-str, map-text-str,
}
use xiao_ming.Tasks.Spec.{
  ResourceKind, file, directory, code_module, domain, external, ResourceConfidence, explicit,
  inferred, unknown, ResourceClaim, kind_text, kind_of, confidence_text, confidence_of,
  claim_to_dict, ExecutionMode, background, foreground, mode_text, TaskSpec, texts, spec_to_dict,
  required_string, stripped_parts, dicts, claim_from_dict, string_list, resource_claims,
  execution_mode, spec_from_dict,
}

-- A text that `strip` keeps, and that is not empty.
abbrev pub IsStripped : String → Type 0
IsStripped s = (strip s ≡ s) × ((s == "") ≡ false)

pub record IsClean (spec : TaskSpec) : Type 0 where
  pub title : IsStripped spec.title
  pub goal : IsStripped spec.goal
  pub success_criteria : All IsStripped spec.success_criteria
  pub expected_artifacts : All IsStripped spec.expected_artifacts
  pub allowed_write_paths : All IsStripped spec.allowed_write_paths
  pub verification_commands : All IsStripped spec.verification_commands
  pub skills_to_preload : All IsStripped spec.skills_to_preload
  pub constraints : All IsStripped spec.constraints

required_string-eq :
    (fields : Fields) (key s : String)
    → Json.get fields key ≡ some (str s)
    → IsStripped s
    → required_string fields key ≡ ok s
unfolding required_string
required_string-eq fields key s h clean = rw (h, required_string, clean.0, clean.1)

stripped_parts-eq : (xs : List String) → All IsStripped xs → stripped_parts xs ≡ xs
unfolding stripped_parts
stripped_parts-eq [] h = refl
stripped_parts-eq (x ∷ xs) h = rw (h.0.0, h.0.1) (ap (λ l. x ∷ l) (stripped_parts-eq xs h.1))

module _ (python : Python) where
  pub string_list-texts :
      (xs : List String) → All IsStripped xs → string_list python (some (texts xs)) ≡ xs
  unfolding string_list
  string_list-texts xs h =
      rw (to_list-of_list (map str xs), map-text-str python xs) (stripped_parts-eq xs h)

  kind-eq : (k : ResourceKind) → kind_of (text_or python (some (str (kind_text k))) "domain") ≡ k
  kind-eq file = refl
  kind-eq directory = refl
  kind-eq code_module = refl
  kind-eq domain = refl
  kind-eq external = refl

  confidence-eq :
      (c : ResourceConfidence)
      → confidence_of (text_or python (some (str (confidence_text c))) "unknown") ≡ c
  confidence-eq explicit = refl
  confidence-eq inferred = refl
  confidence-eq unknown = refl

  claim_from-to_dict :
      (claim : ResourceClaim) → claim_from_dict python (claim_to_dict claim) ≡ claim
  unfolding claim_from_dict claim_to_dict
  claim_from-to_dict claim = λ i. record {
    resource = text_or-str python claim.resource i;
    kind = kind-eq claim.kind i;
    confidence = confidence-eq claim.confidence i;
  }

  claims :
      (cs : List ResourceClaim)
      → map (claim_from_dict python) (dicts (map (λ c. obj (claim_to_dict c)) cs)) ≡ cs
  unfolding dicts
  claims [] = refl
  claims (c ∷ cs) = ap₂ (λ d ds. d ∷ ds) (claim_from-to_dict c) (claims cs)

  resource_claims-eq :
      (cs : List ResourceClaim)
      → resource_claims python (some (arr (of_list (map (λ c. obj (claim_to_dict c)) cs)))) ≡ cs
  unfolding resource_claims
  resource_claims-eq cs = rw (to_list-of_list (map (λ c. obj (claim_to_dict c)) cs)) (claims cs)

  execution_mode-eq : (m : ExecutionMode) → execution_mode python (some (str (mode_text m))) ≡ m
  unfolding execution_mode strip
  execution_mode-eq background = refl
  execution_mode-eq foreground = refl

  -- A specification whose title, goal and listed texts are stripped and not empty is read back from
  -- its dict as it was.
  pub spec_from-to_dict :
      (spec : TaskSpec) → IsClean spec → spec_from_dict python (spec_to_dict spec) ≡ ok spec
  unfolding spec_from_dict spec_to_dict
  spec_from-to_dict spec clean =
      rw
        (
          required_string-eq (spec_to_dict spec) "title" spec.title refl clean.title,
          required_string-eq (spec_to_dict spec) "goal" spec.goal refl clean.goal,
        )
        (λ i. ok (record {
          title = spec.title;
          goal = spec.goal;
          success_criteria = string_list-texts spec.success_criteria clean.success_criteria i;
          expected_artifacts = string_list-texts spec.expected_artifacts clean.expected_artifacts i;
          allowed_write_paths =
              string_list-texts spec.allowed_write_paths clean.allowed_write_paths i;
          verification_commands =
              string_list-texts spec.verification_commands clean.verification_commands i;
          agent_type = text_or-str python spec.agent_type i;
          execution_mode = execution_mode-eq spec.execution_mode i;
          context_policy = text_or-str python spec.context_policy i;
          skills_to_preload = string_list-texts spec.skills_to_preload clean.skills_to_preload i;
          constraints = string_list-texts spec.constraints clean.constraints i;
          resource_claims = resource_claims-eq spec.resource_claims i;
          verification_required = spec.verification_required;
          notes = text_or-str python spec.notes i;
        }))
