-- ===== src/Permissions/Types.antt =====
-- permissions/types.py
use mathlib.Core.Option.{Option}
use xiao_ming.Prelude.{ℕ, String, Bool, true, false}

pub data PermissionBehavior : Type 0 where
  allow ask deny : PermissionBehavior

pub data PermissionMode : Type 0 where
  default plan accept_edits auto bypass : PermissionMode

pub record PermissionRule : Type 0 where
  pub behavior : PermissionBehavior
  pub tool : String
  pub pattern : String
  pub source : String

pub record PermissionDecision : Type 0 where
  pub behavior : PermissionBehavior
  pub reason : String
  pub matched_rule : Option PermissionRule

-- The tables `severity` and `_SEVERITY`.
abbrev pub severity : PermissionBehavior → ℕ
severity allow = 0
severity ask = 1
severity deny = 2

abbrev pub is_bypass : PermissionMode → Bool
is_bypass bypass = true
is_bypass _ = false

abbrev pub is_auto : PermissionMode → Bool
is_auto auto = true
is_auto _ = false

abbrev pub is_plan : PermissionMode → Bool
is_plan plan = true
is_plan _ = false
