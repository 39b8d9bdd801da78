-- ===== src/App/State.antt =====
-- The state of App.jsx: the active tool, and the browser's history.
use tabulum.Prelude.{ℕ, String, List, [], ◌∷◌, Option, none, some, ◌<>◌, truthy, if◌then◌else◌}
use tabulum.Prelude.Objects.{Found, own, inherited, undefined, get_own}
use tabulum.App.Routes.{Component, Tool, tools, get_tool_from_path}

pub record App : Type 0 where
  pub active_tool : Option String
  -- `window.location.pathname`, and the entries behind and ahead of it
  pub pathname : String
  pub behind : List String
  pub ahead : List String
  pub scroll : ℕ

-- The page opened at a path.
unfoldable pub initial : String → App
unfolding get_tool_from_path
initial pathname = record {
  active_tool = get_tool_from_path pathname;
  pathname = pathname;
  behind = [];
  ahead = [];
  scroll = 0;
}

-- `pushState` drops what was ahead.
abbrev pub push_state : String → App → App
push_state path a = record a { pathname = path; behind = a.pathname ∷ a.behind; ahead = [] }

abbrev pub path_of : Option String → String
path_of none = "/observe"
path_of (some id) = if truthy id then "/observe/" <> id else "/observe"

unfoldable pub navigate_to : Option String → App → App
navigate_to id a = record (push_state (path_of id) a) { active_tool = id; scroll = 0 }

-- The browser moves in its history, and fires `popstate`.
unfoldable pub back : App → App
unfolding get_tool_from_path
back a = elim a.behind [
  | [] ↦ a
  | p ∷ ps ↦ record a {
    active_tool = get_tool_from_path p;
    pathname = p;
    behind = ps;
    ahead = a.pathname ∷ a.ahead;
  }
]

unfoldable pub forward : App → App
unfolding get_tool_from_path
forward a = elim a.ahead [
  | [] ↦ a
  | p ∷ ps ↦ record a {
    active_tool = get_tool_from_path p;
    pathname = p;
    behind = a.pathname ∷ a.behind;
    ahead = ps;
  }
]

-- A click on the card of a tool or on `All tools`, and the browser's two buttons.
pub data Action : Type 0 where
  select : String → Action
  all_tools : Action
  go_back go_forward : Action

unfoldable pub act : Action → App → App
unfolding navigate_to back forward
act (select id) a = navigate_to (some id) a
act all_tools a = navigate_to none a
act go_back a = back a
act go_forward a = forward a

unfoldable pub run : List Action → App → App
run [] a = a
run (x ∷ more) a = run more (act x a)

-- What stands between the bar and the footer.
pub data Page : Type 0 where
  grid : Page
  panel : String → Component → Page
  -- neither of the two conditions holds
  blank : Page

abbrev pub page_of_tool : Found Tool → Page
page_of_tool (own t) = panel t.title t.component
page_of_tool inherited = blank
page_of_tool undefined = blank

unfoldable pub page : App → Page
page a = elim a.active_tool [
  | none ↦ grid
  | some id ↦ if truthy id then page_of_tool (get_own id tools) else grid
]
