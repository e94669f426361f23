-- ===== src/Context/Samples.antt =====
-- The theorems on truncation, applied to a text of four characters.
use xiao_ming.Prelude.{◌≤◌, ◌<◌, ◌≡◌}
use xiao_ming.Context.Truncation.{len, truncate_middle, truncate_middle_lem}
use xiao_ming.Context.Windows.{}

truncate_middle_lem_example :
    (len "text" ≤ 3 → truncate_middle "text" 3 ≡ "text")
    × (3 < len "text" → len (truncate_middle "text" 3) ≡ 3)
truncate_middle_lem_example = truncate_middle_lem "text" 3
