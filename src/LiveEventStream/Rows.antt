-- ===== src/LiveEventStream/Rows.antt =====
-- What a row of LiveEventStream.jsx says of its event.
use tabulum.Prelude.{
  inr, inl, Option-cases, ℕ, zero, suc, ◌≤◌, String, Option, none, some, ◌≡◌, ◌≢◌, refl, arith,
  length, codes, eq_iff,
}
use tabulum.LiveEventStream.State.{Details, FeedEvent}
use tabulum.LiveEventStream.View.{slice_to, describe, format_event_data}

length-slice_to : (n : ℕ) (s : String) → length (codes (slice_to n s)) ≤ n
unfolding slice_to
length-slice_to zero s = omega arith
length-slice_to (suc n) String.[] = omega arith
length-slice_to (suc n) (String.◌∷◌ c s) = omega (arith, length-slice_to n s)

-- The type is none of those that the component knows.
abbrev pub Unknown : Option String → Type 0
Unknown none = Unit
Unknown (some t) =
    (t ≢ "message_sent") × (t ≢ "state_written") × (t ≢ "state_deleted") × (t ≢ "agent_registered")

describe-Unknown :
    (t : Option String) (d : Details) → Unknown t → describe t d ≡ slice_to 120 d.json
unfolding describe
describe-Unknown none d u = refl
describe-Unknown (some t) d u = ground (
  arith,
  eq_iff t "message_sent",
  eq_iff t "state_written",
  eq_iff t "state_deleted",
  eq_iff t "agent_registered",
)

-- An event of an unknown type is described by at most 120 characters, however large its data.
length-format_event_data :
    (ev : FeedEvent) → Unknown ev.type → length (codes (format_event_data ev)) ≤ 120
unfolding format_event_data
length-format_event_data ev u = elim (Option-cases ev.details) [
  | inl e ↦ rw (e, format_event_data) (omega arith)
  | inr (d, e) ↦
      rw (e, format_event_data, describe-Unknown ev.type d u) (length-slice_to 120 d.json)
]
