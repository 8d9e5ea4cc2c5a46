-- ===== src/Providers/Sse.antt =====
-- internal/providers/sse.go: the scanner of server-sent events. A body is the list of its lines, each
-- with its terminator, what stands after the last of them, and the error with which reading ends; that
-- bufio's reader delivers a long line in pieces is left out. What is left of a body after an error is of
-- no use, since every adapter closes it.
pub mod Printing
pub mod Progress
use pen_stock.Base.{
  ℕ, ◌+◌, ◌-◌, Bool, true, false, not, ◌&&◌, ◌||◌, Option, none, some, List, [], ◌∷◌, ◌++◌, length,
  ltb, ◌==◌, if◌then◌else◌,
}
use pen_stock.Providers.Types.{Bytes}

abbrev pub max_sse_event_bytes : ℕ
max_sse_event_bytes = 1_048_576

-- `data:` and `event:`
abbrev pub sse_data_prefix : Bytes
sse_data_prefix = 100 ∷ 97 ∷ 116 ∷ 97 ∷ 58 ∷ []

abbrev pub sse_event_prefix : Bytes
sse_event_prefix = 101 ∷ 118 ∷ 101 ∷ 110 ∷ 116 ∷ 58 ∷ []

pub record SseEvent : Type 0 where
  pub name : Bytes
  pub payload : Bytes
  pub has_data : Bool
  pub keepalive : Bool

abbrev pub no_event : SseEvent
no_event = record { name = []; payload = []; has_data = false; keepalive = false }

pub data ReadError : Type 0 where
  end_of_body : ReadError
  event_too_large : ReadError
  read_deadline : ReadError
  read_canceled : ReadError
  read_failed : ReadError

pub record Body : Type 0 where
  pub lines : List Bytes
  pub rest : Bytes
  pub failure : ReadError

pub data Scanned : Type 0 where
  event : SseEvent → Scanned
  failed : ReadError → Scanned

abbrev pub is_empty : Bytes → Bool
is_empty [] = true
is_empty (b ∷ bs) = false

abbrev pub is_terminator : ℕ → Bool
is_terminator b = (b == 10) || (b == 13)

-- `strings.TrimRight(line, "\r\n")`
abbrev pub trim_terminators : Bytes → Bytes
trim_terminators [] = []
trim_terminators (b ∷ bs) =
    let rest = trim_terminators bs in if is_terminator b && is_empty rest then [] else b ∷ rest

abbrev pub strip_prefix : Bytes → Bytes → Option Bytes
strip_prefix [] line = some line
strip_prefix (p ∷ prefix) [] = none
strip_prefix (p ∷ prefix) (b ∷ line) =
    let rest = strip_prefix prefix line in if p == b then rest else none

-- `fieldValue`, after the prefix.
abbrev pub field_value : Bytes → Bytes
field_value [] = []
field_value (b ∷ bs) = if b == 32 then bs else b ∷ bs

-- `strings.Join(data, "\n")`
abbrev pub join_lines : List Bytes → Bytes
join_lines [] = []
join_lines (l ∷ []) = l
join_lines (l ∷ m ∷ ls) = l ++ 10 ∷ join_lines (m ∷ ls)

-- What a line comes to: an event, or another round with the event, its data and the budget so far.
pub data LineEffect : Type 0 where
  emits : SseEvent → LineEffect
  goes_on : SseEvent → List Bytes → ℕ → LineEffect

abbrev pub is_started : SseEvent → Bool
is_started ev = ev.has_data || not (is_empty ev.name)

-- A line that is no comment: `data:`, `event:`, or a field of no interest.
unfoldable pub field_line : SseEvent → List Bytes → ℕ → Option Bytes → Option Bytes → LineEffect
field_line ev ds remaining (some value) named =
    goes_on (record ev { has_data = true }) (ds ++ field_value value ∷ []) remaining
field_line ev ds remaining none (some value) =
    goes_on (record ev { name = field_value value }) ds remaining
field_line ev ds remaining none none = goes_on ev ds remaining

-- The `switch` of `Next`.
unfoldable pub trimmed_line : SseEvent → List Bytes → ℕ → Bytes → LineEffect
unfolding field_line
trimmed_line ev ds remaining [] =
    if is_started ev
    then emits (record ev { payload = join_lines ds })
    else goes_on ev ds max_sse_event_bytes
trimmed_line ev ds remaining (b ∷ bs) =
    if b == 58
    then (if is_started ev
        then goes_on ev ds remaining
        else emits (record no_event { keepalive = true }))
    else field_line ev ds remaining (strip_prefix sse_data_prefix (b ∷ bs))
        (strip_prefix sse_event_prefix (b ∷ bs))

-- What was scanned, with the lines and the text that are left.
abbrev pub Left : Type 0
Left = Scanned × List Bytes × Bytes

pub resume : LineEffect → (SseEvent → List Bytes → ℕ → Left) → List Bytes → Bytes → Left
resume (emits ev) next lines rest = (event ev, lines, rest)
resume (goes_on ev ds remaining) next lines rest = next ev ds remaining

-- What stands after the last line, with the error that follows it.
unfoldable pub scan_rest : SseEvent → List Bytes → ℕ → Bytes → ReadError → Scanned
unfolding trimmed_line
scan_rest ev ds remaining [] failure = failed failure
scan_rest ev ds remaining (b ∷ bs) failure =
    if ltb remaining (length (b ∷ bs))
    then failed event_too_large
    else elim (trimmed_line ev ds remaining (trim_terminators (b ∷ bs))) [
      | emits ev' ↦ event ev'
      | goes_on ev' ds' remaining' ↦ failed failure
    ]

-- The loop of `Next` and `readLine`.
unfoldable pub scan : SseEvent → List Bytes → ℕ → List Bytes → Bytes → ReadError → Left
unfolding resume trimmed_line scan_rest
scan ev ds remaining [] rest failure = (scan_rest ev ds remaining rest failure, [], [])
scan ev ds remaining (line ∷ lines) rest failure =
    let next = λ (ev' : SseEvent) (ds' : List Bytes) (remaining' : ℕ).
      scan ev' ds' remaining' lines rest failure in
    if ltb remaining (length line)
    then (failed event_too_large, lines, rest)
    else resume (trimmed_line ev ds (remaining - length line) (trim_terminators line)) next lines
        rest

-- `Next`
unfoldable pub next_event : Body → Scanned × Body
unfolding scan
next_event b =
    let (scanned, lines, rest) = scan no_event [] max_sse_event_bytes b.lines b.rest b.failure in
    (scanned, record b { lines = lines; rest = rest })
