-- ===== src/Settings/Csv.antt =====
-- app/config.py: `_parse_csv` on lists that are written with commas.
use ai_serving_backend.Prelude.{◌≡◌, ap, some, List, map, All}
use ai_serving_backend.Prelude.Text.{join}
use ai_serving_backend.Prelude.Text.Csv.{Part, part_text, items_of, IsPart, csv_items-parts}
use ai_serving_backend.Settings.{text, parse_csv}

-- A list that is written with commas is read as its items, in order, whatever white space stands
-- around them and whatever parts are empty or white space alone, if each item is not empty, has no comma
-- and no white space at its ends.
pub parse_csv-join :
    (parts : List Part)
    → All IsPart parts
    → parse_csv (text (join "," (map part_text parts))) ≡ some (items_of parts)
unfolding parse_csv
parse_csv-join parts h = ap some (csv_items-parts parts h)
