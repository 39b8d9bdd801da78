-- ===== src/StateBrowser/View.antt =====
-- What StateBrowser.jsx renders, without the markup. `locale` stands for the
-- platform's `toLocaleString` of a date, `none` where it throws.
use tabulum.Prelude.{
  String, List, [], ◌∷◌, Option, none, some, Bool, true, false, if◌then◌else◌, ◌<>◌, show, truthy,
  map,
}
use tabulum.StateBrowser.Format.{format_bytes}
use tabulum.StateBrowser.State.{KeyRow, Keys, Payload, text, other, missing, Entry, Browser, is_key}

-- The panel below the opened row.
pub data Panel : Type 0 where
  waiting : Panel
  -- the value as the server sent it
  redacted : Payload → Panel
  failed : String → Panel
  content : Option String → Panel

-- A string as it is, anything else by its JSON text; a missing value renders nothing.
abbrev pub shown : Payload → Option String
shown (text s) = some s
shown (other s) = some s
shown missing = none

unfoldable pub open_panel : Entry → Panel
open_panel e = if e.redacted then redacted e.value else elim e.error [
  | none ↦ content (shown e.value)
  | some m ↦ if truthy m then failed m else content (shown e.value)
]

unfoldable pub panel : String → Browser → Option Panel
unfolding open_panel
panel k b =
    if is_key b.expanded_key k
    then some (
        if b.loading_value
        then waiting
        else elim b.expanded_value [ none ↦ content none | some e ↦ open_panel e ])
    else none

-- `s || '—'`
abbrev pub or_dash : Option String → String
or_dash none = "—"
or_dash (some s) = if truthy s then s else "—"

pub record Row : Type 0 where
  pub key : String
  pub agent : String
  pub time : String
  pub size : String
  pub opened : Option Panel

-- `data?.keys || []`
unfoldable pub listed : Option Keys → List KeyRow
listed none = []
listed (some d) = elim d.keys [ none ↦ [] | some ks ↦ ks ]

abbrev pub is_empty {ℓ} : {A : Type ℓ} → List A → Bool
is_empty [] = true
is_empty (x ∷ xs) = false

-- The number of keys beside the controls.
unfoldable pub count_label : Browser → String
unfolding show
count_label b = elim b.hook.resource [
  | none ↦ if b.hook.loading then "Loading..." else ""
  | some d ↦ elim d.total [
    | none ↦ if b.hook.loading then "Loading..." else ""
    | some n ↦ show n <> " keys"
  ]
]

-- The notice in place of the rows.
unfoldable pub notice : Browser → Option String
unfolding listed
notice b =
    if is_empty (listed b.hook.resource)
    then some (if b.hook.loading then "Loading..." else "No state keys found")
    else none

-- `formatTime`
abbrev pub format_time : (String → Option String) → String → String
format_time locale ts = elim (locale ts) [ none ↦ ts | some s ↦ s ]

module _ (locale : String → Option String) where
  unfoldable pub row : Browser → KeyRow → Row
  unfolding panel format_bytes
  row b k = record {
    key = k.key;
    agent = or_dash k.last_modified_by;
    time = elim k.last_modified_at [
      | none ↦ "—"
      | some t ↦ if truthy t then format_time locale t else "—"
    ];
    size = format_bytes k.value_length;
    opened = panel k.key b;
  }

  unfoldable pub rows : Browser → List Row
  unfolding row listed
  rows b = map (row b) (listed b.hook.resource)
