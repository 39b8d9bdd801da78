-- ===== src/NetworkGraph/Scales.antt =====
-- What the two renderers compute from the data before they hand it to their libraries.
use tabulum.Prelude.{
  ℕ, ◌+◌, max, String, List, [], ◌∷◌, Option, none, some, map, if◌then◌else◌, ◌==◌,
}

-- A node and an edge as the server sends them; a missing number is `none`.
pub record RawNode : Type 0 where
  pub address : String
  pub messages_sent : Option ℕ
  pub messages_received : Option ℕ

pub record RawEdge : Type 0 where
  pub from : String
  pub to : String
  pub count : Option ℕ

abbrev pub or_zero : Option ℕ → ℕ
or_zero none = 0
or_zero (some n) = n

-- `e.count || 1`
abbrev pub or_one : Option ℕ → ℕ
or_one none = 1
or_one (some n) = if n == 0 then 1 else n

pub record Shown : Type 0 where
  pub id : String
  pub messages_sent : ℕ
  pub messages_received : ℕ
  pub activity : ℕ

unfoldable pub shown : RawNode → Shown
shown n = record {
  id = n.address;
  messages_sent = or_zero n.messages_sent;
  messages_received = or_zero n.messages_received;
  activity = or_zero n.messages_sent + or_zero n.messages_received;
}

pub record Link : Type 0 where
  pub source : String
  pub target : String
  pub count : ℕ

unfoldable pub link : RawEdge → Link
link e = record { source = e.from; target = e.to; count = or_one e.count }

-- `Math.max(1, ...ns)`
unfoldable pub max_from_one : List ℕ → ℕ
max_from_one [] = 1
max_from_one (n ∷ ns) = max n (max_from_one ns)

unfoldable pub max_activity : List RawNode → ℕ
unfolding shown max_from_one
max_activity ns = max_from_one (map (λ n. (shown n).activity) ns)

unfoldable pub max_edge_count : List RawEdge → ℕ
unfolding link max_from_one
max_edge_count es = max_from_one (map (λ e. (link e).count) es)
