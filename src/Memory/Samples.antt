-- ===== src/Memory/Samples.antt =====
-- The theorems on the saved memory, applied to one record of each kind.
use xiao_ming.Memory.Packetizer.{Calendar, MemoryPacket, parse_datetime, packetize_fragments}
use xiao_ming.Memory.Packetizer.Cover.{contents, Good, packetize_fragments-covers}
use xiao_ming.Prelude.{List, All, ◌≡◌, refl, none, some, [], ◌∷◌, ok}
use xiao_ming.Json.{Python}
use xiao_ming.Memory.Models.{
  FragmentVisibility, DiaryScope, DiaryStatus, DreamStatus, MemoryFragment, MemoryDiary, DreamRun,
}

abbrev python : Python
python = record { repr = λ v. "?"; loads = λ s. none; literal_eval = λ s. none; to_int = λ v. ok 0 }

abbrev fragment : MemoryFragment
fragment = record {
  id = "f";
  source_event_id = "e";
  role_or_type = "user";
  created_at = "c";
  timezone = "UTC";
  token_estimate = 7;
  content = "hello";
  visibility = FragmentVisibility.archived;
  covered_by_diary_ids = "d" ∷ [];
}

abbrev diary : MemoryDiary
diary = record {
  id = "d";
  scope = DiaryScope.week;
  start_time = "s";
  end_time = "e";
  timezone = "UTC";
  status = DiaryStatus.active;
  source_fragment_ids = "f" ∷ [];
  body = "b";
  created_at = "c";
  supersedes_diary_ids = [];
  accepted_at = some "a";
}

abbrev run : DreamRun
run = record {
  id = "r";
  started_at = "s";
  status = DreamStatus.accepted;
  ended_at = some "e";
  snapshot_id = none;
  draft_diary_ids = "d" ∷ [];
  reason = "";
  tokens_before = some 9;
  tokens_after = none;
}

abbrev fromisoformat : Calendar
fromisoformat text = ok (record { instant = 3; hour = 20 })

packetize_fragments-covers_example :
    (packets : List MemoryPacket) × (packetize_fragments fromisoformat python
        (fragment ∷ fragment ∷ [])
        7
      ≡ ok packets)
    × (contents packets ≡ fragment ∷ fragment ∷ [])
    × All (Good 7) packets
unfolding parse_datetime
packetize_fragments-covers_example =
    packetize_fragments-covers fromisoformat python (fragment ∷ fragment ∷ []) 7
      ((record { instant = 3; hour = 20 }, refl), ((record { instant = 3; hour = 20 }, refl), tt))
