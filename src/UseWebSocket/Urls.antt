-- ===== src/UseWebSocket/Urls.antt =====
-- The addresses that useWebSocket.js asks for, and the values its callbacks depend on.
use tabulum.Prelude.{
  ℕ, String, List, [], ◌∷◌, ◌++◌, Option, none, some, Bool, true, false, ◌&&◌, if◌then◌else◌,
  str_eq, truthy, join, show,
}

-- `types` and `agent` may be undefined.
pub record Filters : Type 0 where
  pub types : Option (List String)
  pub agent : Option String

pub record Url : Type 0 where
  pub base : String
  pub path : String
  pub query : List (String × String)

abbrev pub ws_base : String
ws_base = "wss://observe.tabulum.org"

abbrev pub poll_base : String
poll_base = "https://observe.tabulum.org"

-- `if (filters.types?.length) params.set('type', filters.types.join(','))`
unfoldable pub type_param : Option (List String) → List (String × String)
unfolding join
type_param none = []
type_param (some []) = []
type_param (some (t ∷ ts)) = ("type", join "," (t ∷ ts)) ∷ []

-- `if (filters.agent) params.set('agent', filters.agent)`
unfoldable pub agent_param : Option String → List (String × String)
agent_param none = []
agent_param (some a) = if truthy a then ("agent", a) ∷ [] else []

unfoldable pub build_url : String → Filters → Url
unfolding type_param agent_param
build_url path f = record {
  base = ws_base;
  path = path;
  query = type_param f.types ++ agent_param f.agent;
}

-- The address of one poll, from the cursor at the time of the call.
unfoldable pub poll_url : ℕ → Filters → Url
unfolding type_param agent_param show
poll_url since f = record {
  base = poll_base;
  path = "/observe/events";
  query = ("since", show since) ∷ ("limit", "100") ∷ (type_param f.types ++ agent_param f.agent);
}

same_text : Option String → Option String → Bool
same_text none none = true
same_text none (some t) = false
same_text (some s) none = false
same_text (some s) (some t) = str_eq s t

-- `filters.types?.join(',')`
joined : Option (List String) → Option String
joined none = none
joined (some ts) = some (join "," ts)

-- React compares the dependencies `[path, filters.types?.join(','), filters.agent]`.
unfoldable pub same_deps : String → Filters → String → Filters → Bool
unfolding same_text joined join
same_deps p f q g =
    str_eq p q && (same_text (joined f.types) (joined g.types) && same_text f.agent g.agent)
