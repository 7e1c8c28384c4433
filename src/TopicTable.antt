-- ===== src/TopicTable.antt =====
-- src/core/events/topic_table.cpp: topics and their configured priorities, read from lines
-- "topic : PRIORITY". The file's lines are given; opening and reading it is the caller's.
pub mod Lookup
pub mod Lines
mod Tests
use mathlib.Core.List.{reverse}
use event_stream_core.Common.{
  ℕ, Bool, true, false, ◌||◌, Option, none, some, List, [], ◌∷◌, ◌==◌, if◌then◌else◌, Bytes, codes,
  bytes_eq,
}
use event_stream_core.Event.{EventPriority}

abbrev pub Table : Type 0
Table = List (Bytes × EventPriority)

-- `find` on the `unordered_map`.
unfoldable pub find_topic : Bytes → Table → Option EventPriority
find_topic topic [] = none
find_topic topic ((t, p) ∷ table) = if bytes_eq t topic then some p else find_topic topic table

-- `table_[topic] = priority`.
unfoldable pub assign : Bytes → EventPriority → Table → Table
assign topic p [] = (topic, p) ∷ []
assign topic p ((t, q) ∷ table) =
    if bytes_eq t topic then (t, p) ∷ table else (t, q) ∷ assign topic p table

-- `line.find(c)`: the bytes before the first `c` and those behind it.
unfoldable pub split_at : ℕ → Bytes → Option (Bytes × Bytes)
split_at c [] = none
split_at c (x ∷ xs) =
    if x == c
    then some ([], xs)
    else elim (split_at c xs) [ none ↦ none | some (before, after) ↦ some (x ∷ before, after) ]

-- `substr(0, posc)` at a '#', and the whole line without one.
unfoldable pub strip_comment : Bytes → Bytes
strip_comment line = elim (split_at b'#' line) [ none ↦ line | some (before, after) ↦ before ]

abbrev pub is_blank : ℕ → Bool
is_blank c = c == 32 || c == 9 || c == 13 || c == 10

unfoldable pub trim_front : Bytes → Bytes
trim_front [] = []
trim_front (c ∷ s) = if is_blank c then trim_front s else c ∷ s

-- From the first byte that is not blank to the last one.
unfoldable pub trim : Bytes → Bytes
unfolding trim_front
trim s = reverse (trim_front (reverse (trim_front s)))

unfoldable pub parse_priority : Bytes → Option EventPriority
parse_priority pr =
    if bytes_eq pr (codes "BATCH")
    then some EventPriority.batch
    else if bytes_eq pr (codes "LOW")
    then some EventPriority.low
    else if bytes_eq pr (codes "MEDIUM")
    then some EventPriority.medium
    else if bytes_eq pr (codes "HIGH")
    then some EventPriority.high
    else if bytes_eq pr (codes "CRITICAL")
    then some EventPriority.critical
    else none

abbrev pub is_empty : Bytes → Bool
is_empty [] = true
is_empty (_ ∷ _) = false

unfoldable pub assign_parsed : Bytes → Option EventPriority → Table → Table
assign_parsed topic none table = table
assign_parsed topic (some p) table = assign topic p table

-- The entry of a line, behind its comment; `continue` leaves the table as it is.
unfoldable pub load_entry : Option (Bytes × Bytes) → Table → Table
unfolding assign_parsed
load_entry none table = table
load_entry (some (before, after)) table =
    let topic = trim before in
    let pr = trim after in
    if is_empty topic || is_empty pr then table else assign_parsed topic (parse_priority pr) table

unfoldable pub load_line : Table → Bytes → Table
unfolding load_entry
load_line table line = load_entry (split_at b':' (strip_comment line)) table

-- `loadFromFile`: `none` is a file that cannot be opened.
unfoldable pub load_lines : Table → List Bytes → Table
load_lines table [] = table
load_lines table (line ∷ lines) = load_lines (load_line table line) lines

unfoldable pub load_from_file : Table → Option (List Bytes) → Table × Bool
load_from_file table none = (table, false)
load_from_file table (some lines) = (load_lines table lines, true)
