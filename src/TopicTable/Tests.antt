-- ===== src/TopicTable/Tests.antt =====
-- A small file: " orders :HIGH # first", "trades: LOW", "orders:BATCH ".
use event_stream_core.Common.{
  ℕ, ◌≡◌, refl, false, none, some, List, [], ◌∷◌, map, ◌==◌, All, codes, bytes_eq,
}
use event_stream_core.Event.{EventPriority}
use event_stream_core.TopicTable.{
  find_topic, split_at, strip_comment, is_blank, trim_front, trim, parse_priority, load_line,
  load_entry, assign_parsed, trim_front, load_lines, load_from_file,
}
use event_stream_core.TopicTable.Lines.{
  IsTopic, Layout, IsLayout, Entry, entry_line, IsEntry, last_entry, find_topic-load_lines,
}

abbrev plain : Layout
plain = record { front = []; behind = []; ahead = []; back = 32 ∷ []; comment = none }

abbrev commented : Layout
commented = record {
  front = 32 ∷ [];
  behind = 9 ∷ [];
  ahead = [];
  back = 32 ∷ [];
  comment = some (codes " first");
}

abbrev entries : List Entry
entries =
    record { layout = commented; topic = codes "o"; priority = EventPriority.high }
    ∷ record { layout = plain; topic = codes "t"; priority = EventPriority.low }
    ∷ record { layout = plain; topic = codes "o"; priority = EventPriority.batch }
    ∷ []

letter-IsTopic :
    (c : ℕ) → (c == b':') ≡ false → (c == b'#') ≡ false → is_blank c ≡ false → IsTopic (c ∷ [])
letter-IsTopic c colon comment full = record {
  no_colon = (colon, tt);
  no_comment = (comment, tt);
  starts = full;
  ends = full;
}

plain-IsLayout : IsLayout plain
plain-IsLayout = record { front_pad = tt; behind_pad = tt; ahead_pad = tt; back_pad = (refl, tt) }

entries-IsEntry : All IsEntry entries
entries-IsEntry = (
  (
    record {
      front_pad = (refl, tt);
      behind_pad = (refl, tt);
      ahead_pad = tt;
      back_pad = (refl, tt);
    },
    letter-IsTopic 111 refl refl refl,
  ),
  (
    (plain-IsLayout, letter-IsTopic 116 refl refl refl),
    ((plain-IsLayout, letter-IsTopic 111 refl refl refl), tt),
  ),
)

bad_priority_is_skipped : load_line [] (codes "orders : URGENT") ≡ []
unfolding load_line load_entry assign_parsed split_at strip_comment trim trim_front parse_priority
    bytes_eq
bad_priority_is_skipped = refl

missing_file : load_from_file [] none ≡ ([], false)
unfolding load_from_file
missing_file = refl

find_topic-load_lines_example :
    find_topic (codes "o") (load_lines [] (map entry_line entries))
    ≡ last_entry (codes "o") entries (find_topic (codes "o") [])
find_topic-load_lines_example = find_topic-load_lines (codes "o") entries [] entries-IsEntry
