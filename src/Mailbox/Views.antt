-- ===== src/Mailbox/Views.antt =====
-- The reading methods of MailboxStore in async_runtime/mailbox.py, and their helper functions.
pub mod Pending
use xiao_ming.Prelude.{
  ℕ, suc, String, Bool, true, false, not, ◌&&◌, ◌||◌, Option, none, some, List, [], ◌∷◌, ◌++◌, map,
  ◌==◌, ltb, if◌then◌else◌, keep, take, strip, join, concat, contains, is_some,
}
use xiao_ming.Prelude.Dict
use xiao_ming.Prelude.Dict.{Dict}
use xiao_ming.Json
use xiao_ming.Json.{Value, null, str, arr, Fields, Python, text, text_or, to_list}
use xiao_ming.Mailbox.Message.{
  MailboxKind, progress, result, review, kind_text, MailboxStatus, is_pending, MailboxMessage,
}
use xiao_ming.Mailbox.Store.{MailboxStore, list}

pub record MailboxTaskUpdate : Type 0 where
  pub message_id : String
  pub task_id : String
  pub task_title : String
  pub kind : MailboxKind
  pub content : String
  pub status : MailboxStatus
  pub created_at : String

pub record MailboxNoticeCandidate : Type 0 where
  pub message_id : String
  pub task_id : String
  pub task_title : String
  pub kind : MailboxKind
  pub notice : String
  pub requires_reply : Bool
  pub created_at : String
  pub presented_count : ℕ

abbrev pub awaits_reply : MailboxMessage → Bool
awaits_reply m = is_pending m.status && (m.to_role == "main" && m.requires_reply)

-- MailboxStore.pending_for_main, which pending_reply_messages returns
unfoldable pub pending_for_main : MailboxStore → List MailboxMessage
pending_for_main store = keep awaits_reply (list store)

-- MailboxStore.messages_for_task
unfoldable pub messages_for_task : MailboxStore → String → List MailboxMessage
messages_for_task store task_id = keep (λ m. m.task_id == task_id) (list store)

abbrev pub is_update_kind : MailboxKind → Bool
is_update_kind progress = true
is_update_kind result = true
is_update_kind review = true
is_update_kind _ = false

-- Not skipped by latest_task_updates.
abbrev pub is_update : MailboxMessage → Bool
is_update m =
    not (not (m.to_role == "main") || m.requires_reply || not (is_pending m.status))
    && is_update_kind m.kind

-- updates[: max(limit, 0)], where there is a limit; a negative one counts as 0.
abbrev pub limited {ℓ} : {A : Type ℓ} → Option ℕ → List A → List A
limited none xs = xs
limited (some limit) xs = take limit xs

-- `registry.get(task_id).title`, none where there is no registry or no such task.
abbrev pub Titles : Type 0
Titles = String → Option String

module _ (python : Python) where
  -- _metadata_string
  unfoldable pub metadata_string : Option Value → String
  metadata_string none = ""
  metadata_string (some null) = ""
  metadata_string (some v) = strip (text python v)

  -- _metadata_string_list
  unfoldable pub metadata_string_list : Option Value → List String
  metadata_string_list (some (arr vs)) =
      keep (λ s. not (s == "")) (map (λ v. strip (text python v)) (to_list vs))
  metadata_string_list _ = []

  abbrev title_or_default : Option String → String
  title_or_default none = "后台任务"
  title_or_default (some title) = if strip title == "" then "后台任务" else strip title

  -- _task_title
  unfoldable pub task_title : Titles → MailboxMessage → String
  unfolding metadata_string
  task_title registry m =
      let title = metadata_string (Json.get m.metadata "task_title") in
      if title == "" then title_or_default (registry m.task_id) else title

  abbrev labelled : String → String → String
  labelled label value = if value == "" then "" else concat (label ∷ value ∷ [])

  -- _format_pending_reply_line
  unfoldable pub format_pending_reply_line : Titles → MailboxMessage → String
  unfolding task_title metadata_string metadata_string_list
  format_pending_reply_line registry m =
      let request_id = text_or python (Json.get m.metadata "request_id") m.message_id in
      concat (
        "- message_id: "
        ∷ m.message_id
        ∷ "; question_id: "
        ∷ request_id
        ∷ "; task: "
        ∷ task_title registry m
        ∷ "; kind: "
        ∷ kind_text m.kind
        ∷ "; prompt: "
        ∷ m.content
        ∷ labelled "; purpose: " (metadata_string (Json.get m.metadata "purpose"))
        ∷ labelled "; context: " (metadata_string (Json.get m.metadata "context"))
        ∷ labelled "; options: " (join " | " (metadata_string_list (Json.get m.metadata "options")))
        ∷ [])

  -- MailboxStore.pending_reply_lines
  unfoldable pub pending_reply_lines : Titles → MailboxStore → List String
  unfolding format_pending_reply_line pending_for_main
  pending_reply_lines registry store =
      map (format_pending_reply_line registry) (pending_for_main store)

  abbrev digest_of : List String → Option String
  digest_of [] = none
  digest_of (line ∷ lines) = some (join "\n" (line ∷ lines))

  -- MailboxStore.pending_reply_digest
  unfoldable pub pending_reply_digest : Titles → MailboxStore → Option String
  unfolding pending_reply_lines
  pending_reply_digest registry store = digest_of (pending_reply_lines registry store)

  unfoldable pub update_of : Titles → MailboxMessage → MailboxTaskUpdate
  unfolding task_title
  update_of registry m = record {
    message_id = m.message_id;
    task_id = m.task_id;
    task_title = task_title registry m;
    kind = m.kind;
    content = m.content;
    status = m.status;
    created_at = m.created_at;
  }

  -- The loop of latest_task_updates. A dict keeps the place of a key that is set again, so
  -- `latest_by_task` is in the order of `task_order`.
  unfoldable pub latest_from :
      Titles → Dict MailboxTaskUpdate → List MailboxMessage → Dict MailboxTaskUpdate
  unfolding update_of
  latest_from registry latest_by_task [] = latest_by_task
  latest_from registry latest_by_task (m ∷ ms) =
      latest_from registry
        (if is_update m
          then Dict.put latest_by_task m.task_id (update_of registry m)
          else latest_by_task)
        ms

  -- MailboxStore.latest_task_updates
  unfoldable pub latest_task_updates : Titles → Option ℕ → MailboxStore → List MailboxTaskUpdate
  unfolding latest_from
  latest_task_updates registry limit store =
      limited limit (Dict.values (latest_from registry [] (list store)))

  unfoldable pub candidate_of : Titles → MailboxMessage → MailboxNoticeCandidate
  unfolding task_title
  candidate_of registry m = record {
    message_id = m.message_id;
    task_id = m.task_id;
    task_title = task_title registry m;
    kind = m.kind;
    notice = concat (task_title registry m ∷ " 需要你确认：" ∷ m.content ∷ []);
    requires_reply = m.requires_reply;
    created_at = m.created_at;
    presented_count = m.presented_count;
  }

  -- MailboxStore.notice_candidates
  unfoldable pub notice_candidates :
      Titles → Bool → Option ℕ → MailboxStore → List MailboxNoticeCandidate
  unfolding candidate_of pending_for_main
  notice_candidates registry include_presented limit store = limited limit (
      map (candidate_of registry) (
        keep (λ m. not (ltb 0 m.presented_count && not include_presented))
          (pending_for_main store)))
