-- ===== src/App/Routes.antt =====
-- The table of tools of App.jsx, and the tool that a path names.
use Prim.Native.Char.{code}
use tabulum.Prelude.{
  String, List, [], ◌∷◌, Option, none, some, Bool, true, false, ◌&&◌, if◌then◌else◌, ◌==◌, truthy,
}
use tabulum.Prelude.Objects.{Found, own, inherited, undefined, get_own}

pub data Component : Type 0 where
  live_event_stream state_browser network_graph : Component

pub record Tool : Type 0 where
  pub component : Component
  pub title : String

abbrev pub tools : List (String × Tool)
tools =
    ("live-stream", record { component = live_event_stream; title = "Live Event Stream" })
    ∷ ("state-browser", record { component = state_browser; title = "State Browser" })
    ∷ ("network-graph", record { component = network_graph; title = "Network Graph" })
    ∷ []

-- What stands behind `p`, if the text begins with it.
unfoldable pub after : String → String → Option String
after String.[] s = some s
after (String.◌∷◌ c p) String.[] = none
after (String.◌∷◌ c p) (String.◌∷◌ d s) = if code c == code d then after p s else none

unfoldable pub drop_slash : String → String
drop_slash String.[] = ""
drop_slash (String.◌∷◌ c s) = if code c == b'/' then s else String.◌∷◌ c s

-- `.replace(/\/$/, '')`
unfoldable pub drop_last_slash : String → String
drop_last_slash String.[] = ""
drop_last_slash (String.◌∷◌ c String.[]) = if code c == b'/' then "" else String.◌∷◌ c String.[]
drop_last_slash (String.◌∷◌ c (String.◌∷◌ d s)) = String.◌∷◌ c (drop_last_slash (String.◌∷◌ d s))

-- `.replace(/^\/observe\/?/, '')`
unfoldable pub drop_observe : String → String
unfolding after drop_slash
drop_observe path = elim (after "/observe" path) [ none ↦ path | some rest ↦ drop_slash rest ]

-- `TOOLS[path]` as a condition
abbrev pub is_found {ℓ} : {A : Type ℓ} → Found A → Bool
is_found (own a) = true
is_found inherited = true
is_found undefined = false

unfoldable pub get_tool_from_path : String → Option String
unfolding drop_observe drop_last_slash
get_tool_from_path pathname =
    let path = drop_last_slash (drop_observe pathname) in
    if truthy path && is_found (get_own path tools) then some path else none
