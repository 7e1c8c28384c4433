-- ===== src/TopicTable/Lines.antt =====
-- Lines that are written as the format says are read back, whatever blanks and comments they have.
use mathlib.Core.List.{reverse, reverse-append, reverse-reverse, append-nil}
use event_stream_core.Common.{
  ℕ, ◌≡◌, refl, sym, ap, subst, ◌∙◌, Bool, true, false, Option, none, some, List, [], ◌∷◌, ◌++◌,
  map, arith, ◌==◌, if◌then◌else◌, ==→eq, ==_self, All, All-append, Bytes, codes, bytes_eq,
}
use event_stream_core.Event.{EventPriority}
use event_stream_core.TopicTable.{
  Table, find_topic, assign, split_at, strip_comment, is_blank, trim_front, trim, parse_priority,
  is_empty, assign_parsed, load_entry, load_line, load_lines,
}
use event_stream_core.TopicTable.Lookup.{find_topic-assign}

-- Blanks around a topic and a priority.
abbrev pub IsPad : Bytes → Type 0
IsPad s = All (λ c. is_blank c ≡ true) s

abbrev pub IsFree : ℕ → Bytes → Type 0
IsFree c s = All (λ x. (x == c) ≡ false) s

abbrev pub StartsFull : Bytes → Type 0
StartsFull [] = ⊥
StartsFull (c ∷ s) = is_blank c ≡ false

-- A topic that a line can name.
pub record IsTopic (topic : Bytes) : Type 0 where
  pub no_colon : IsFree b':' topic
  pub no_comment : IsFree b'#' topic
  pub starts : StartsFull topic
  pub ends : StartsFull (reverse topic)

abbrev pub priority_name : EventPriority → Bytes
priority_name EventPriority.batch = codes "BATCH"
priority_name EventPriority.low = codes "LOW"
priority_name EventPriority.medium = codes "MEDIUM"
priority_name EventPriority.high = codes "HIGH"
priority_name EventPriority.critical = codes "CRITICAL"

split_at-free : (c : ℕ) (s t : Bytes) → IsFree c s → split_at c (s ++ c ∷ t) ≡ some (s, t)
unfolding split_at
split_at-free c [] t f = ground (arith, ==_self c)
split_at-free c (x ∷ s) t f = ground (arith, split_at-free c s t f.1)

split_at-none : (c : ℕ) (s : Bytes) → IsFree c s → split_at c s ≡ none
unfolding split_at
split_at-none c [] f = refl
split_at-none c (x ∷ s) f = ground (arith, split_at-none c s f.1)

trim_front-pad : (pad s : Bytes) → IsPad pad → trim_front (pad ++ s) ≡ trim_front s
unfolding trim_front
trim_front-pad [] s p = refl
trim_front-pad (c ∷ pad) s p = rw p.0 (trim_front-pad pad s p.1)

trim_front_full : (s : Bytes) → StartsFull s → trim_front s ≡ s
unfolding trim_front
trim_front_full [] f = absurd f
trim_front_full (c ∷ s) f = rw f

StartsFull-append : (s t : Bytes) → StartsFull s → StartsFull (s ++ t)
StartsFull-append [] t f = absurd f
StartsFull-append (c ∷ s) t f = f

reverse-IsPad : (pad : Bytes) → IsPad pad → IsPad (reverse pad)
reverse-IsPad [] p = tt
reverse-IsPad (c ∷ pad) p =
    subst IsPad (sym (reverse-append (c ∷ []) pad))
      (All-append _ (reverse pad) (c ∷ []) (reverse-IsPad pad p.1) (p.0, tt))

trim_padded :
    (before s after : Bytes)
    → IsPad before
    → StartsFull s
    → StartsFull (reverse s)
    → IsPad after
    → trim (before ++ (s ++ after)) ≡ s
unfolding trim
trim_padded before s after pb first last pa =
    let front =
      trim_front-pad before (s ++ after) pb
      ∙ trim_front_full (s ++ after) (StartsFull-append s after first) in
    let back =
      trim_front-pad (reverse after) (reverse s) (reverse-IsPad after pa)
      ∙ trim_front_full (reverse s) last in
    ap (λ x. reverse (trim_front (reverse x))) front
    ∙ ap (λ x. reverse (trim_front x)) (reverse-append s after)
    ∙ ap reverse back
    ∙ reverse-reverse s

IsPad-IsFree : (c : ℕ) (pad : Bytes) → is_blank c ≡ false → IsPad pad → IsFree c pad
IsPad-IsFree c [] h p = tt
IsPad-IsFree c (x ∷ pad) h p = (differ (x == c) refl, IsPad-IsFree c pad h p.1)
  where
    differ : (b : Bool) → (x == c) ≡ b → (x == c) ≡ false
    differ false e = e
    differ true e = absurd (let same = ==→eq x c e in let blank = p.0 in cc)

-- The free choices in a line.
pub record Layout : Type 0 where
  pub front : Bytes
  pub behind : Bytes
  pub ahead : Bytes
  pub back : Bytes
  pub comment : Option Bytes

pub record IsLayout (l : Layout) : Type 0 where
  pub front_pad : IsPad l.front
  pub behind_pad : IsPad l.behind
  pub ahead_pad : IsPad l.ahead
  pub back_pad : IsPad l.back

abbrev comment_text : Option Bytes → Bytes
comment_text none = []
comment_text (some text) = b'#' ∷ text

abbrev topic_part : Layout → Bytes → Bytes
topic_part l topic = l.front ++ (topic ++ l.behind)

abbrev priority_part : Layout → EventPriority → Bytes
priority_part l p = l.ahead ++ (priority_name p ++ l.back)

-- front TOPIC behind : ahead PRIORITY back # comment
unfoldable pub line_of : Layout → Bytes → EventPriority → Bytes
line_of l topic p = (topic_part l topic ++ b':' ∷ priority_part l p) ++ comment_text l.comment

strip-line :
    (s : Bytes) (o : Option Bytes) → IsFree b'#' s → strip_comment (s ++ comment_text o) ≡ s
unfolding strip_comment
strip-line s none f =
    let whole = append-nil s in
    rw (strip_comment, split_at-none b'#' (s ++ []) (subst (IsFree b'#') (sym whole) f)) whole
strip-line s (some text) f = rw (strip_comment, split_at-free b'#' s text f)

name-IsFree : (p : EventPriority) → IsFree b'#' (priority_name p)
name-IsFree EventPriority.batch = (refl, (refl, (refl, (refl, (refl, tt)))))
name-IsFree EventPriority.low = (refl, (refl, (refl, tt)))
name-IsFree EventPriority.medium = (refl, (refl, (refl, (refl, (refl, (refl, tt))))))
name-IsFree EventPriority.high = (refl, (refl, (refl, (refl, tt))))
name-IsFree EventPriority.critical =
    (refl, (refl, (refl, (refl, (refl, (refl, (refl, (refl, tt))))))))

name_full :
    (p : EventPriority) → StartsFull (priority_name p) × StartsFull (reverse (priority_name p))
name_full EventPriority.batch = (refl, refl)
name_full EventPriority.low = (refl, refl)
name_full EventPriority.medium = (refl, refl)
name_full EventPriority.high = (refl, refl)
name_full EventPriority.critical = (refl, refl)

parse_priority-name : (p : EventPriority) → parse_priority (priority_name p) ≡ some p
unfolding parse_priority bytes_eq
parse_priority-name EventPriority.batch = refl
parse_priority-name EventPriority.low = refl
parse_priority-name EventPriority.medium = refl
parse_priority-name EventPriority.high = refl
parse_priority-name EventPriority.critical = refl

topic_part-IsFree :
    (c : ℕ) (l : Layout) (topic : Bytes)
    → is_blank c ≡ false
    → IsLayout l
    → IsFree c topic
    → IsFree c (topic_part l topic)
topic_part-IsFree c l topic h v f =
    All-append _ l.front (topic ++ l.behind) (IsPad-IsFree c l.front h v.front_pad)
      (All-append _ topic l.behind f (IsPad-IsFree c l.behind h v.behind_pad))

priority_part-IsFree :
    (l : Layout) (p : EventPriority) → IsLayout l → IsFree b'#' (priority_part l p)
priority_part-IsFree l p v =
    All-append _ l.ahead (priority_name p ++ l.back) (IsPad-IsFree b'#' l.ahead refl v.ahead_pad) (
      All-append _ (priority_name p) l.back (name-IsFree p)
        (IsPad-IsFree b'#' l.back refl v.back_pad))

StartsFull-nonempty : (s : Bytes) → StartsFull s → is_empty s ≡ false
StartsFull-nonempty [] f = absurd f
StartsFull-nonempty (c ∷ s) f = refl

-- Loading a line that is written for a topic and a priority assigns that priority to that topic.
pub load_line-line_of :
    (l : Layout) (topic : Bytes) (p : EventPriority) (table : Table)
    → IsLayout l
    → IsTopic topic
    → load_line table (line_of l topic p) ≡ assign topic p table
unfolding load_line line_of load_entry assign_parsed
load_line-line_of l topic p table v t =
    let free : IsFree b'#' (topic_part l topic ++ b':' ∷ priority_part l p) =
      All-append _ (topic_part l topic) (b':' ∷ priority_part l p)
        (topic_part-IsFree b'#' l topic refl v t.no_comment) (refl, priority_part-IsFree l p v) in
    let stripped = strip-line (topic_part l topic ++ b':' ∷ priority_part l p) l.comment free in
    let split =
      split_at-free b':' (topic_part l topic) (priority_part l p)
        (topic_part-IsFree b':' l topic refl v t.no_colon) in
    let name = trim_padded l.front topic l.behind v.front_pad t.starts t.ends v.behind_pad in
    let full = name_full p in
    let level = trim_padded l.ahead (priority_name p) l.back v.ahead_pad full.0 full.1 v.back_pad in
    rw (
      stripped,
      split,
      name,
      level,
      StartsFull-nonempty topic t.starts,
      StartsFull-nonempty (priority_name p) full.0,
      parse_priority-name p,
    )

-- The entries of a file, and the priority that its last line for a topic gives.
pub record Entry : Type 0 where
  pub layout : Layout
  pub topic : Bytes
  pub priority : EventPriority

abbrev pub entry_line : Entry → Bytes
entry_line e = line_of e.layout e.topic e.priority

abbrev pub IsEntry : Entry → Type 0
IsEntry e = IsLayout e.layout × IsTopic e.topic

pub last_entry : Bytes → List Entry → Option EventPriority → Option EventPriority
last_entry topic [] found = found
last_entry topic (e ∷ es) found =
    last_entry topic es (if bytes_eq e.topic topic then some e.priority else found)

-- A table that is loaded from a file of such lines gives every topic the priority of its last line,
-- and what the table said before where the file has no line for it.
pub find_topic-load_lines :
    (topic : Bytes) (es : List Entry) (table : Table)
    → All IsEntry es
    → find_topic topic (load_lines table (map entry_line es))
      ≡ last_entry topic es (find_topic topic table)
unfolding load_lines last_entry
find_topic-load_lines topic [] table h = refl
find_topic-load_lines topic (e ∷ es) table h =
    ap (λ t. find_topic topic (load_lines t (map entry_line es)))
      (load_line-line_of e.layout e.topic e.priority table h.0.0 h.0.1)
    ∙ find_topic-load_lines topic es (assign e.topic e.priority table) h.1
    ∙ ap (last_entry topic es) (find_topic-assign e.topic topic e.priority table)
