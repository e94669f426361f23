-- ===== src/Memory/RoundTrip.antt =====
-- What memory/models.py reads back from its own payloads.
use xiao_ming.Prelude.{ℕ, String, false, ◌≡◌, refl, Option, none, some, List, map, ◌==◌, ok}
use xiao_ming.Json.{str, of_option, Python, text_or, text_or-str, map-text-str, to_list-of_list}
use xiao_ming.Tasks.Spec.{texts}
use xiao_ming.Memory.Models.{
  FragmentVisibility, working, archived, DiaryScope, day, week, month, year, DiaryStatus,
  DreamStatus, MemoryFragment, MemoryDiary, DreamRun, scope_text, scope_of, diary_status_text,
  diary_status_of, dream_status_text, dream_status_of, visibility_text, visibility_of, of_count,
  count, or_none, strings, fragment_to_payload, fragment_from_payload, diary_to_payload,
  diary_from_payload, run_to_payload, run_from_payload,
}
use xiao_ming.Memory.Models

-- None, or a text that is not empty.
abbrev pub IsText : Option String → Type 0
IsText none = Unit
IsText (some s) = (s == "") ≡ false

module _ (python : Python) where
  strings-texts : (xs : List String) → strings python (some (texts xs)) ≡ xs
  strings-texts xs = rw (to_list-of_list (map str xs)) (map-text-str python xs)

  visibility-eq :
      (v : FragmentVisibility) → visibility_of python (some (str (visibility_text v))) ≡ v
  visibility-eq working = refl
  visibility-eq Models.FragmentVisibility.archived = refl

  scope-eq : (s : DiaryScope) → scope_of (text_or python (some (str (scope_text s))) "day") ≡ s
  scope-eq day = refl
  scope-eq week = refl
  scope-eq month = refl
  scope-eq year = refl

  diary_status-eq :
      (s : DiaryStatus)
      → diary_status_of (text_or python (some (str (diary_status_text s))) "draft") ≡ s
  diary_status-eq DiaryStatus.draft = refl
  diary_status-eq DiaryStatus.active = refl
  diary_status-eq DiaryStatus.archived = refl
  diary_status-eq DiaryStatus.rejected = refl

  dream_status-eq :
      (s : DreamStatus)
      → dream_status_of (text_or python (some (str (dream_status_text s))) "running") ≡ s
  dream_status-eq DreamStatus.running = refl
  dream_status-eq DreamStatus.accepted = refl
  dream_status-eq DreamStatus.rejected = refl
  dream_status-eq DreamStatus.failed = refl

  or_none-eq : (o : Option String) → IsText o → or_none (text_or python (some (of_option o)) "") ≡ o
  or_none-eq none h = refl
  or_none-eq (some s) h = rw (h, h)

  count-eq : (o : Option ℕ) → count python (some (of_count o)) ≡ ok o
  count-eq none = refl
  count-eq (some n) = refl

  -- Every memory fragment is read back from its payload as it was.
  pub fragment_from-to_payload :
      (f : MemoryFragment) → fragment_from_payload python (fragment_to_payload f) ≡ ok f
  unfolding fragment_from_payload fragment_to_payload
  fragment_from-to_payload f = λ i. ok (record {
    id = text_or-str python f.id i;
    source_event_id = text_or-str python f.source_event_id i;
    role_or_type = text_or-str python f.role_or_type i;
    created_at = text_or-str python f.created_at i;
    timezone = text_or-str python f.timezone i;
    token_estimate = f.token_estimate;
    content = text_or-str python f.content i;
    visibility = visibility-eq f.visibility i;
    covered_by_diary_ids = strings-texts f.covered_by_diary_ids i;
  })

  -- A diary whose time of acceptance, if it has one, is not empty is read back from its payload as it was.
  pub diary_from-to_payload :
      (d : MemoryDiary) → IsText d.accepted_at → diary_from_payload python (diary_to_payload d) ≡ d
  unfolding diary_from_payload diary_to_payload
  diary_from-to_payload d h = λ i. record {
    id = text_or-str python d.id i;
    scope = scope-eq d.scope i;
    start_time = text_or-str python d.start_time i;
    end_time = text_or-str python d.end_time i;
    timezone = text_or-str python d.timezone i;
    status = diary_status-eq d.status i;
    source_fragment_ids = strings-texts d.source_fragment_ids i;
    body = text_or-str python d.body i;
    created_at = text_or-str python d.created_at i;
    supersedes_diary_ids = strings-texts d.supersedes_diary_ids i;
    accepted_at = or_none-eq d.accepted_at h i;
  }

  -- A dream run whose end and snapshot, if it has them, are not empty is read back from its payload as
  -- it was, with and without its counts of tokens.
  pub run_from-to_payload :
      (r : DreamRun)
      → IsText r.ended_at
      → IsText r.snapshot_id
      → run_from_payload python (run_to_payload r) ≡ ok r
  unfolding run_from_payload run_to_payload
  run_from-to_payload r ended snapped =
      rw (count-eq r.tokens_before, count-eq r.tokens_after)
        (λ i. ok (record {
          id = text_or-str python r.id i;
          started_at = text_or-str python r.started_at i;
          status = dream_status-eq r.status i;
          ended_at = or_none-eq r.ended_at ended i;
          snapshot_id = or_none-eq r.snapshot_id snapped i;
          draft_diary_ids = strings-texts r.draft_diary_ids i;
          reason = text_or-str python r.reason i;
          tokens_before = r.tokens_before;
          tokens_after = r.tokens_after;
        }))
