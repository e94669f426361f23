-- ===== src/Memory/Models.antt =====
-- The records of memory/models.py and their JSON payloads. A literal type is a data type; its texts
-- are those that the payload holds.
use xiao_ming.Prelude.{
  ℕ, String, Option, none, some, List, [], ◌∷◌, map, ◌==◌, if◌then◌else◌, Result, ok, ◌>>=◌,
}
use xiao_ming.Json
use xiao_ming.Json.{
  Value, null, bool, num, str, Fields, dict, of_option, Python, text, text_or, int_or_zero,
  items_or_empty,
}
use xiao_ming.Tasks.Spec.{texts}

pub data FragmentVisibility : Type 0 where
  working archived : FragmentVisibility

pub data DiaryScope : Type 0 where
  day week month year : DiaryScope

pub data DiaryStatus : Type 0 where
  draft active archived rejected : DiaryStatus

pub data DreamStatus : Type 0 where
  running accepted rejected failed : DreamStatus

pub record MemoryFragment : Type 0 where
  pub id : String
  pub source_event_id : String
  pub role_or_type : String
  pub created_at : String
  pub timezone : String
  pub token_estimate : ℕ
  pub content : String
  pub visibility : FragmentVisibility
  pub covered_by_diary_ids : List String

pub record MemoryDiary : Type 0 where
  pub id : String
  pub scope : DiaryScope
  pub start_time : String
  pub end_time : String
  pub timezone : String
  pub status : DiaryStatus
  pub source_fragment_ids : List String
  pub body : String
  pub created_at : String
  pub supersedes_diary_ids : List String
  pub accepted_at : Option String

pub record DreamRun : Type 0 where
  pub id : String
  pub started_at : String
  pub status : DreamStatus
  pub ended_at : Option String
  pub snapshot_id : Option String
  pub draft_diary_ids : List String
  pub reason : String
  pub tokens_before : Option ℕ
  pub tokens_after : Option ℕ

abbrev pub visibility_text : FragmentVisibility → String
visibility_text working = "working"
visibility_text archived = "archived"

abbrev pub scope_text : DiaryScope → String
scope_text day = "day"
scope_text week = "week"
scope_text month = "month"
scope_text year = "year"

-- scope if scope in {...} else "day"
abbrev pub scope_of : String → DiaryScope
scope_of s =
    if s == "day"
    then day
    else if s == "week"
    then week
    else if s == "month"
    then month
    else if s == "year"
    then year
    else day

abbrev pub diary_status_text : DiaryStatus → String
diary_status_text draft = "draft"
diary_status_text active = "active"
diary_status_text archived = "archived"
diary_status_text rejected = "rejected"

-- status if status in {...} else "draft"
abbrev pub diary_status_of : String → DiaryStatus
diary_status_of s =
    if s == "draft"
    then draft
    else if s == "active"
    then active
    else if s == "archived"
    then archived
    else if s == "rejected"
    then rejected
    else draft

abbrev pub dream_status_text : DreamStatus → String
dream_status_text running = "running"
dream_status_text accepted = "accepted"
dream_status_text rejected = "rejected"
dream_status_text failed = "failed"

-- status if status in {...} else "failed"
abbrev pub dream_status_of : String → DreamStatus
dream_status_of s =
    if s == "running"
    then running
    else if s == "accepted"
    then accepted
    else if s == "rejected"
    then rejected
    else if s == "failed"
    then failed
    else failed

-- MemoryFragment.to_payload
unfoldable pub fragment_to_payload : MemoryFragment → Fields
fragment_to_payload f = dict (
    ("id", str f.id)
    ∷ ("source_event_id", str f.source_event_id)
    ∷ ("role_or_type", str f.role_or_type)
    ∷ ("created_at", str f.created_at)
    ∷ ("timezone", str f.timezone)
    ∷ ("token_estimate", num f.token_estimate)
    ∷ ("content", str f.content)
    ∷ ("visibility", str (visibility_text f.visibility))
    ∷ ("covered_by_diary_ids", texts f.covered_by_diary_ids)
    ∷ [])

-- MemoryDiary.to_payload
unfoldable pub diary_to_payload : MemoryDiary → Fields
diary_to_payload d = dict (
    ("id", str d.id)
    ∷ ("scope", str (scope_text d.scope))
    ∷ ("start_time", str d.start_time)
    ∷ ("end_time", str d.end_time)
    ∷ ("timezone", str d.timezone)
    ∷ ("status", str (diary_status_text d.status))
    ∷ ("source_fragment_ids", texts d.source_fragment_ids)
    ∷ ("supersedes_diary_ids", texts d.supersedes_diary_ids)
    ∷ ("body", str d.body)
    ∷ ("created_at", str d.created_at)
    ∷ ("accepted_at", of_option d.accepted_at)
    ∷ [])

-- A number or None, as JSON.
abbrev pub of_count : Option ℕ → Value
of_count none = null
of_count (some n) = num n

-- DreamRun.to_payload
unfoldable pub run_to_payload : DreamRun → Fields
run_to_payload r = dict (
    ("id", str r.id)
    ∷ ("started_at", str r.started_at)
    ∷ ("ended_at", of_option r.ended_at)
    ∷ ("status", str (dream_status_text r.status))
    ∷ ("snapshot_id", of_option r.snapshot_id)
    ∷ ("draft_diary_ids", texts r.draft_diary_ids)
    ∷ ("reason", str r.reason)
    ∷ ("tokens_before", of_count r.tokens_before)
    ∷ ("tokens_after", of_count r.tokens_after)
    ∷ [])

-- text or None
abbrev pub or_none : String → Option String
or_none s = if s == "" then none else some s

module _ (python : Python) where
  abbrev pub strings : Option Value → List String
  strings value = map (text python) (items_or_empty python value)

  abbrev pub visibility_of : Option Value → FragmentVisibility
  visibility_of (some (str s)) = if s == "archived" then archived else working
  visibility_of _ = working

  -- int(value) if value is not None else None
  abbrev pub count : Option Value → Result (Option ℕ)
  count none = ok none
  count (some null) = ok none
  count (some (bool b)) = ok (some (if b then 1 else 0))
  count (some (num n)) = ok (some n)
  count (some v) = do n ← python.to_int v; ok (some n)

  -- MemoryFragment.from_payload
  unfoldable pub fragment_from_payload : Fields → Result MemoryFragment
  fragment_from_payload payload = do
    token_estimate ← int_or_zero python (Json.get payload "token_estimate")
    ok (record {
      id = text_or python (Json.get payload "id") "";
      source_event_id = text_or python (Json.get payload "source_event_id") "";
      role_or_type = text_or python (Json.get payload "role_or_type") "";
      created_at = text_or python (Json.get payload "created_at") "";
      timezone = text_or python (Json.get payload "timezone") "";
      token_estimate = token_estimate;
      content = text_or python (Json.get payload "content") "";
      visibility = visibility_of (Json.get payload "visibility");
      covered_by_diary_ids = strings (Json.get payload "covered_by_diary_ids");
    })

  -- MemoryDiary.from_payload
  unfoldable pub diary_from_payload : Fields → MemoryDiary
  diary_from_payload payload = record {
    id = text_or python (Json.get payload "id") "";
    scope = scope_of (text_or python (Json.get payload "scope") "day");
    start_time = text_or python (Json.get payload "start_time") "";
    end_time = text_or python (Json.get payload "end_time") "";
    timezone = text_or python (Json.get payload "timezone") "";
    status = diary_status_of (text_or python (Json.get payload "status") "draft");
    source_fragment_ids = strings (Json.get payload "source_fragment_ids");
    body = text_or python (Json.get payload "body") "";
    created_at = text_or python (Json.get payload "created_at") "";
    supersedes_diary_ids = strings (Json.get payload "supersedes_diary_ids");
    accepted_at = or_none (text_or python (Json.get payload "accepted_at") "");
  }

  -- DreamRun.from_payload
  unfoldable pub run_from_payload : Fields → Result DreamRun
  run_from_payload payload = do
    tokens_before ← count (Json.get payload "tokens_before")
    tokens_after ← count (Json.get payload "tokens_after")
    ok (record {
      id = text_or python (Json.get payload "id") "";
      started_at = text_or python (Json.get payload "started_at") "";
      status = dream_status_of (text_or python (Json.get payload "status") "running");
      ended_at = or_none (text_or python (Json.get payload "ended_at") "");
      snapshot_id = or_none (text_or python (Json.get payload "snapshot_id") "");
      draft_diary_ids = strings (Json.get payload "draft_diary_ids");
      reason = text_or python (Json.get payload "reason") "";
      tokens_before = tokens_before;
      tokens_after = tokens_after;
    })
