-- ===== src/StateBrowser/State.antt =====
-- The state of StateBrowser.jsx and its event handlers.
use tabulum.Prelude.{
  ℕ, suc, String, List, [], ◌∷◌, Option, none, some, Bool, true, false, if◌then◌else◌, ◌==◌, ◌<>◌,
  show, str_eq, truthy,
}
use tabulum.UsePolling

-- One row of the list that the server sends.
pub record KeyRow : Type 0 where
  pub key : String
  pub last_modified_by : Option String
  pub last_modified_at : Option String
  pub value_length : Option ℕ

-- The body of /observe/state, where a missing field is `none`.
pub record Keys : Type 0 where
  pub keys : Option (List KeyRow)
  pub total : Option ℕ

-- The field `value`: a string, anything else as its JSON text, or missing.
pub data Payload : Type 0 where
  text : String → Payload
  other : String → Payload
  missing : Payload

-- `expandedValue`, from the server or from the `catch`
pub record Entry : Type 0 where
  pub redacted : Bool
  pub value : Payload
  pub error : Option String

-- How the fetch of a value ends.
pub data Answer : Type 0 where
  thrown : String → Answer
  http : ℕ → Answer
  json : Entry → Answer

pub record Request : Type 0 where
  pub id : ℕ
  pub key : String

pub record Browser : Type 0 where
  pub prefix : String
  pub auto_refresh : Bool
  pub expanded_key : Option String
  pub expanded_value : Option Entry
  pub loading_value : Bool
  -- the state of `usePolling`
  pub hook : UsePolling.Hook Keys
  -- the fetches of values in flight
  pub requests : List Request
  pub next_id : ℕ

pub data Action : Type 0 where
  -- the search field and the checkbox
  search : String → Action
  refresh : Bool → Action
  -- a click on a row
  click : String → Action
  -- the fetch of a value ends
  answer : ℕ → Answer → Action
  -- what happens to the polling hook, but for its renders
  mount unmount : Action
  tick : ℕ → Action
  reply : ℕ → UsePolling.Outcome Keys → Action

unfoldable pub poll_options : String → Bool → UsePolling.Options
poll_options prefix enabled = record {
  path = "/observe/state";
  interval = 10000;
  enabled = enabled;
  params =
      if truthy prefix then ("prefix", prefix) ∷ ("limit", "100") ∷ [] else ("limit", "100") ∷ [];
}

unfoldable pub initial : Browser
unfolding poll_options UsePolling.initial
initial = record {
  prefix = "";
  auto_refresh = true;
  expanded_key = none;
  expanded_value = none;
  loading_value = false;
  hook = UsePolling.initial (poll_options "" true);
  requests = [];
  next_id = 1;
}

abbrev pub is_key : Option String → String → Bool
is_key none k = false
is_key (some j) k = str_eq j k

-- `fetchValue`, up to its `await fetch`
unfoldable pub fetch_value : String → Browser → Browser
fetch_value k b =
    if is_key b.expanded_key k
    then record b { expanded_key = none; expanded_value = none }
    else record b {
      expanded_key = some k;
      loading_value = true;
      requests = record { id = b.next_id; key = k } ∷ b.requests;
      next_id = suc b.next_id;
    }

-- what the `try` and the `catch` of `fetchValue` hand to `setExpandedValue`
unfoldable pub entry_of : Answer → Entry
unfolding show
entry_of (json e) = e
entry_of (thrown message) = record { redacted = false; value = missing; error = some message }
entry_of (http status) = record {
  redacted = false;
  value = missing;
  error = some ("HTTP " <> show status);
}

unfoldable pub find : ℕ → List Request → Option Request
find id [] = none
find id (q ∷ qs) = if q.id == id then some q else find id qs

unfoldable pub remove : ℕ → List Request → List Request
remove id [] = []
remove id (q ∷ qs) = if q.id == id then qs else q ∷ remove id qs

-- the rest of `fetchValue`
unfoldable pub on_answer : ℕ → Answer → Browser → Browser
unfolding entry_of
on_answer id a b = elim (find id b.requests) [
  | none ↦ b
  | some q ↦ record b {
    expanded_value = some (entry_of a);
    loading_value = false;
    requests = remove id b.requests;
  }
]

-- A change of the component's state renders it, and with it the polling hook.
unfoldable pub rerender : Browser → Browser
unfolding poll_options
rerender b = record b {
  hook = UsePolling.step (UsePolling.render (poll_options b.prefix b.auto_refresh)) b.hook;
}

unfoldable pub act : Action → Browser → Browser
unfolding rerender fetch_value on_answer
act (search p) b = rerender (record b { prefix = p })
act (refresh on) b = rerender (record b { auto_refresh = on })
act (click k) b = fetch_value k b
act (answer id a) b = on_answer id a b
act mount b = record b { hook = UsePolling.step UsePolling.mount b.hook }
act unmount b = record b { hook = UsePolling.step UsePolling.unmount b.hook }
act (tick id) b = record b { hook = UsePolling.step (UsePolling.tick id) b.hook }
act (reply id r) b = record b { hook = UsePolling.step (UsePolling.reply id r) b.hook }

unfoldable pub run : List Action → Browser → Browser
run [] b = b
run (a ∷ more) b = run more (act a b)
