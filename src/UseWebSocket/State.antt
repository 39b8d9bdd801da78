-- ===== src/UseWebSocket/State.antt =====
-- The state of the hook of useWebSocket.js, and the events that reach it.
use tabulum.Prelude.{ℕ, String, List, [], Option, none, Bool, false}
use tabulum.UseWebSocket.Urls.{Filters, Url}
use tabulum.UseWebSocket.Sockets.{Scope, Socket}

pub data Status : Type 0 where
  connecting connected disconnected polling : Status

pub record Timer : Type 0 where
  pub id : ℕ
  pub scope : Scope

pub record Interval : Type 0 where
  pub id : ℕ
  pub filters : Filters

pub record Request : Type 0 where
  pub id : ℕ
  pub url : Url

-- What a poll comes back with: `fetch` or `json()` throws, a status that is not ok, or a body.
pub data Reply {ℓ} (E : Type ℓ) : Type ℓ where
  thrown : Reply E
  refused : Reply E
  body : Option (List E) → Option ℕ → Reply E

-- The arguments of one render.
pub record Options : Type 0 where
  pub path : String
  pub filters : Filters
  pub paused : Bool

pub record Hook {ℓ} (E : Type ℓ) : Type ℓ where
  pub events : List E
  pub status : Status
  pub paused : Bool
  pub poll_cursor : ℕ
  pub poll_interval : Option ℕ
  pub fallback : Bool
  -- the running effect's closure, and its local `reconnectTimer`
  pub scope : Scope
  pub reconnect_timer : Option ℕ
  pub mounted : Bool
  -- the browser's side
  pub sockets : List Socket
  pub timers : List Timer
  pub intervals : List Interval
  pub requests : List Request
  pub next_id : ℕ

-- In `render`, `mount` and `timeout` the flag says whether `new WebSocket` throws.
pub data Event {ℓ} (E : Type ℓ) : Type ℓ where
  render : Bool → Options → Event E
  mount : Bool → Event E
  unmount : Event E
  open_event : ℕ → Event E
  -- the text of a message, parsed: `none` if JSON.parse throws
  message : ℕ → Option E → Event E
  close_event : ℕ → Event E
  error_event : ℕ → Event E
  timeout : ℕ → Bool → Event E
  tick : ℕ → Event E
  reply : ℕ → Reply E → Event E
  clear : Event E

abbrev pub max_events : ℕ
max_events = 500

module _ {ℓ} {E : Type ℓ} where
  -- `useState` and `useRef`, at the first render
  unfoldable pub initial : Options → Hook E
  initial o = record {
    events = [];
    status = connecting;
    paused = o.paused;
    poll_cursor = 0;
    poll_interval = none;
    fallback = false;
    scope = record { run = 0; path = o.path; filters = o.filters };
    reconnect_timer = none;
    mounted = false;
    sockets = [];
    timers = [];
    intervals = [];
    requests = [];
    next_id = 1;
  }
