-- ===== src/LiveEventStream/View.antt =====
-- What LiveEventStream.jsx renders, without the markup. `locale` stands for the
-- platform's `toLocaleTimeString` of a date, `none` where it throws.
use Prim.Native.Char.{code}
use tabulum.Prelude.{
  ℕ, zero, suc, String, List, [], ◌∷◌, Option, none, some, Bool, if◌then◌else◌, ◌==◌, ◌<>◌, str_eq,
  truthy, map,
}
use tabulum.Prelude.Objects.{Found, own, inherited, undefined, get_own}
use tabulum.UseWebSocket.{Status, connecting, connected, disconnected, polling}
use tabulum.LiveEventStream.Selection.{Kind, name, has, event_types}
use tabulum.LiveEventStream.State.{Details, FeedEvent, Stream}

abbrev pub event_colors : List (String × String)
event_colors =
    ("agent_registered", "var(--event-register)")
    ∷ ("message_sent", "var(--event-message)")
    ∷ ("state_written", "var(--event-state-write)")
    ∷ ("state_deleted", "var(--event-state-delete)")
    ∷ []

-- `s.replace(/_/g, ' ')`
unfoldable pub spaced : String → String
spaced String.[] = ""
spaced (String.◌∷◌ c s) =
    if code c == b'_' then String.◌∷◌ " " (spaced s) else String.◌∷◌ c (spaced s)

-- `s.replace('_', ' ')`, the first one only
unfoldable pub spaced_first : String → String
spaced_first String.[] = ""
spaced_first (String.◌∷◌ c s) =
    if code c == b'_' then String.◌∷◌ " " s else String.◌∷◌ c (spaced_first s)

-- `s.slice(0, n)`, for text of the basic plane, where a character is one unit
unfoldable pub slice_to : ℕ → String → String
slice_to zero s = ""
slice_to (suc n) String.[] = ""
slice_to (suc n) (String.◌∷◌ c s) = String.◌∷◌ c (slice_to n s)

-- `d.key || ''`
abbrev pub or_empty : Option String → String
or_empty none = ""
or_empty (some s) = s

-- `d.to ? `→ ${d.to}` : ''`
abbrev pub arrow : Option String → String
arrow none = ""
arrow (some s) = if truthy s then "→ " <> s else ""

unfoldable pub describe : Option String → Details → String
unfolding slice_to
describe none d = slice_to 120 d.json
describe (some t) d =
    if str_eq t "message_sent"
    then arrow d.to
    else if str_eq t "state_written"
    then or_empty d.key
    else if str_eq t "state_deleted"
    then or_empty d.key
    else if str_eq t "agent_registered"
    then "registered"
    else slice_to 120 d.json

unfoldable pub format_event_data : FeedEvent → String
unfolding describe
format_event_data ev = elim ev.details [ none ↦ "" | some d ↦ describe ev.type d ]

-- `EVENT_COLORS[ev.type] || 'var(--event-default)'`; an inherited property is no colour.
abbrev pub or_default : Found String → Option String
or_default (own c) = some c
or_default inherited = none
or_default undefined = some "var(--event-default)"

unfoldable pub color_of : Option String → Option String
unfolding get_own
color_of none = some "var(--event-default)"
color_of (some t) = or_default (get_own t event_colors)

pub record Row : Type 0 where
  pub time : String
  pub color : Option String
  pub label : Option String
  pub agent : String
  pub details : String

-- `ev.agent || '—'`
abbrev pub or_dash : Option String → String
or_dash none = "—"
or_dash (some s) = if truthy s then s else "—"

abbrev pub label_of : Option String → Option String
unfolding spaced
label_of none = none
label_of (some t) = some (spaced t)

-- `formatTime`
abbrev pub format_time : (String → Option String) → String → String
format_time locale ts = elim (locale ts) [ none ↦ ts | some s ↦ s ]

module _ (locale : String → Option String) where
  unfoldable pub row : FeedEvent → Row
  unfolding color_of format_event_data label_of
  row ev = record {
    time = format_time locale ev.ts;
    color = color_of ev.type;
    label = label_of ev.type;
    agent = or_dash ev.agent;
    details = format_event_data ev;
  }

  unfoldable pub rows : Stream → List Row
  unfolding row
  rows s = map row s.hook.events

-- The class of the dot beside the status.
abbrev pub status_dot : Status → String
status_dot connected = "connected"
status_dot polling = "connected"
status_dot connecting = "connecting"
status_dot disconnected = "disconnected"

-- The notice in place of the rows.
unfoldable pub notice : Stream → Option String
notice s = elim s.hook.events [
  | [] ↦ some (elim s.hook.status [ connecting ↦ "Connecting..." | _ ↦ "Waiting for events..." ])
  | e ∷ es ↦ none
]

-- One checkbox of the controls.
pub record Checkbox : Type 0 where
  pub checked : Bool
  pub color : Option String
  pub label : String

unfoldable pub checkbox : Stream → Kind → Checkbox
unfolding has color_of spaced_first
checkbox s k = record {
  checked = has k s.type_filters;
  color = color_of (some (name k));
  label = spaced_first (name k);
}

unfoldable pub checkboxes : Stream → List Checkbox
unfolding checkbox
checkboxes s = map (checkbox s) event_types

abbrev pub pause_label : Stream → String
pause_label s = if s.paused then "Resume" else "Pause"
