-- ===== src/Permissions/Files.antt =====
-- File decisions of permissions/engine.py.
use xiao_ming.Prelude.{
  String, true, false, Option, none, some, List, ◌≡◌, ◌⊎◌, refl, arith, contains, inl, inr,
}
use xiao_ming.Permissions.Types.{
  allow, PermissionMode, accept_edits, auto, bypass, PermissionDecision,
}
use xiao_ming.Permissions.Rules.{match_rules}
use xiao_ming.Permissions.Engine.{
  Platform, PermissionEngine, or_else, relative, is_inside, read_tools, is_sensitive_write_path,
  decide_access, decide_file,
}

-- Why `decide_file` may allow a write that no rule matches.
abbrev pub MayEdit : PermissionMode → List String → Type 0
MayEdit mode resolved =
    (mode ≡ bypass)
    ⊎ ((is_sensitive_write_path resolved ≡ false) × ((mode ≡ accept_edits) ⊎ (mode ≡ auto)))

access-MayEdit :
    (mode : PermissionMode) (tool : String) (resolved : List String)
    → contains read_tools tool ≡ false
    → (decide_access mode tool resolved).behavior ≡ allow
    → MayEdit mode resolved
unfolding decide_access
access-MayEdit bypass tool resolved w h = inl refl
access-MayEdit accept_edits tool resolved w h = inr (ground (arith, w, h), inl refl)
access-MayEdit auto tool resolved w h = inr (ground (arith, w, h), inr refl)
access-MayEdit mode tool resolved w h = ground (arith, w, h)

-- The explicit decision allows, or there is none and the other decision allows.
abbrev Grants : Option PermissionDecision → PermissionDecision → Type 0
Grants explicit other =
    ((d : PermissionDecision) × (explicit ≡ some d) × (d.behavior ≡ allow))
    ⊎ ((explicit ≡ none) × (other.behavior ≡ allow))

or_else-Grants :
    (explicit : Option PermissionDecision) (other : PermissionDecision)
    → (or_else explicit other).behavior ≡ allow
    → Grants explicit other
or_else-Grants none other h = inr (refl, h)
or_else-Grants (some d) other h = inl (d, refl, h)

-- A tool that is none of the read-only ones is allowed to touch a path only if the path resolves
-- into the workspace and either a matching rule allows it, or no rule matches and the mode is
-- bypass, or it is accept_edits or auto and no part of the path is sensitive. So in the default and
-- plan modes the engine allows such a tool nothing by itself that no rule allows.
pub decide_file-allow-write :
    (platform : Platform) (engine : PermissionEngine) (tool requested : String)
    → contains read_tools tool ≡ false
    → (decide_file platform engine tool requested).behavior ≡ allow
    → (is_inside platform.root (platform.resolve requested) ≡ true)
      × (((d : PermissionDecision) × (match_rules platform.fnmatchcase engine.rules tool
                (relative platform.root (platform.resolve requested))
              ≡ some d)
            × (d.behavior ≡ allow))
          ⊎ ((match_rules platform.fnmatchcase engine.rules tool
                  (relative platform.root (platform.resolve requested))
                ≡ none)
              × MayEdit engine.mode (platform.resolve requested)))
unfolding decide_file
decide_file-allow-write platform engine tool requested w h =
    let resolved = platform.resolve requested in
    let inside : is_inside platform.root resolved ≡ true = ground (arith, h) in
    let explicit =
      match_rules platform.fnmatchcase engine.rules tool (relative platform.root resolved) in
    (
      inside,
      elim (or_else-Grants explicit (decide_access engine.mode tool resolved) (rw inside at h)) [
        | inl ruled ↦ inl ruled
        | inr (unruled, allowed) ↦ inr (unruled, access-MayEdit engine.mode tool resolved w allowed)
      ],
    )
