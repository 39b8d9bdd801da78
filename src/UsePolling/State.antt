-- ===== src/UsePolling/State.antt =====
-- The state of usePolling.js and the events that reach it.
use tabulum.Prelude.{ℕ, String, List, [], ◌∷◌, Option, none, Bool, true, false, ◌&&◌, ◌==◌, str_eq}

abbrev pub api_base : String
api_base = "https://observe.tabulum.org"

-- The arguments of one render; `params` in the order of the object's keys.
pub record Options : Type 0 where
  pub path : String
  pub interval : ℕ
  pub enabled : Bool
  pub params : List (String × String)

-- The query is kept as the pairs that URLSearchParams holds.
pub record Url : Type 0 where
  pub base : String
  pub path : String
  pub query : List (String × String)

unfoldable pub build_url : Options → Url
build_url o = record { base = api_base; path = o.path; query = o.params }

unfoldable pub same_params : List (String × String) → List (String × String) → Bool
same_params [] [] = true
same_params [] (q ∷ qs) = false
same_params (p ∷ ps) [] = false
same_params ((k, v) ∷ ps) ((j, w) ∷ qs) = (str_eq k j && str_eq v w) && same_params ps qs

abbrev pub same_bool : Bool → Bool → Bool
same_bool true b = b
same_bool false true = false
same_bool false false = true

-- The dependencies of the effect, `[fetchData, interval, enabled]`, where `fetchData` depends on
-- the path and on the text of the parameters.
unfoldable pub same_deps : Options → Options → Bool
unfolding same_params
same_deps o p =
    (str_eq o.path p.path && same_params o.params p.params)
    && (o.interval == p.interval && same_bool o.enabled p.enabled)

-- How a fetch ends: it throws, the status is not ok, or a parsed body.
pub data Outcome {ℓ} (J : Type ℓ) : Type ℓ where
  thrown : String → Outcome J
  http : ℕ → Outcome J
  json : J → Outcome J

-- A live interval or a fetch in flight, with the address that its closure asks for.
pub record Task : Type 0 where
  pub id : ℕ
  pub url : Url

pub record Hook {ℓ} (J : Type ℓ) : Type ℓ where
  pub resource : Option J
  pub loading : Bool
  pub error : Option String
  -- `mountedRef`
  pub mounted : Bool
  -- the arguments of the effect's last run, and the interval that its cleanup clears
  pub options : Options
  pub cleared_by : Option ℕ
  -- whether React has the component mounted
  pub attached : Bool
  pub intervals : List Task
  pub requests : List Task
  pub next_id : ℕ

pub data Event {ℓ} (J : Type ℓ) : Type ℓ where
  mount : Event J
  unmount : Event J
  render : Options → Event J
  tick : ℕ → Event J
  reply : ℕ → Outcome J → Event J
  refetch : Event J

-- `useState` and `useRef` at the first render
unfoldable pub initial {ℓ} : {J : Type ℓ} → Options → Hook J
initial o = record {
  resource = none;
  loading = true;
  error = none;
  mounted = true;
  options = o;
  cleared_by = none;
  attached = false;
  intervals = [];
  requests = [];
  next_id = 1;
}
