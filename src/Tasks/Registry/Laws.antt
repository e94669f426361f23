-- ===== src/Tasks/Registry/Laws.antt =====
-- The queries of TaskRegistry answer what they ask.
use xiao_ming.Prelude.{
  String, Bool, true, false, not, ◌&&◌, ◌||◌, ◌≡◌, refl, List, [], ◌∷◌, if◌then◌else◌, keep,
  Bool-cases, inl, inr,
}
use xiao_ming.Prelude.Dict
use xiao_ming.Prelude.Dict.{Dict}
use xiao_ming.Tasks.Status.{is_active, is_waiting}
use xiao_ming.Tasks.Record.{TaskRecord}
use xiao_ming.Tasks.Registry.{TaskRegistry, active, conflicts_for, conflicts_from, meets, nonempty}

-- A running task of which some file, module or domain is asked for.
abbrev pub is_conflict : List String → List String → List String → TaskRecord → Bool
is_conflict files modules domains task =
    (is_active task.status && not (is_waiting task.status))
    && (meets task.affected_files files
        || (meets task.affected_modules modules || meets task.domains domains))

meets-nil : (xs : List String) → meets xs [] ≡ false
meets-nil [] = refl
meets-nil (x ∷ xs) = meets-nil xs

guard-meets : (xs ys : List String) → (nonempty ys && meets xs ys) ≡ meets xs ys
guard-meets xs [] = rw (meets-nil xs)
guard-meets xs (y ∷ ys) = refl

-- A chain of tests with one result is a disjunction.
one_test {ℓ} :
    {A : Type ℓ} (w f m d : Bool) (kept dropped : A)
    → (if w then dropped else if f then kept else if m then kept else if d then kept else dropped)
      ≡ (if not w && (f || (m || d)) then kept else dropped)
one_test true f m d kept dropped = refl
one_test false true m d kept dropped = refl
one_test false false true d kept dropped = refl
one_test false false false true kept dropped = refl
one_test false false false false kept dropped = refl

conflicts_from-keep :
    (files modules domains : List String) (tasks : List TaskRecord)
    → conflicts_from files modules domains (keep (λ task. is_active task.status) tasks)
      ≡ keep (is_conflict files modules domains) tasks
unfolding conflicts_from
conflicts_from-keep files modules domains [] = refl
conflicts_from-keep files modules domains (task ∷ tasks) =
    elim (Bool-cases (is_active task.status)) [
      | inl alive ↦
          rw
            (
              alive,
              guard-meets task.affected_files files,
              guard-meets task.affected_modules modules,
              guard-meets task.domains domains,
              conflicts_from-keep files modules domains tasks,
            )
            (one_test (is_waiting task.status) (meets task.affected_files files)
              (meets task.affected_modules modules) (meets task.domains domains)
              (task ∷ keep (is_conflict files modules domains) tasks)
              (keep (is_conflict files modules domains) tasks))
      | inr ended ↦ rw ended (conflicts_from-keep files modules domains tasks)
    ]

-- The conflicts found for a set of files, modules and domains are, in the order of the registry, the
-- active tasks that do not wait and that share a file, a module or a domain with them.
pub conflicts_for_lem :
    (registry : TaskRegistry) (files modules domains : List String)
    → conflicts_for registry files modules domains
      ≡ keep (is_conflict files modules domains) (Dict.values registry.tasks)
unfolding conflicts_for active
conflicts_for_lem registry files modules domains =
    conflicts_from-keep files modules domains (Dict.values registry.tasks)
