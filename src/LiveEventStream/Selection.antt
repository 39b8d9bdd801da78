-- ===== src/LiveEventStream/Selection.antt =====
-- The event types and the set of those that are ticked.
use tabulum.Prelude.{
  String, List, [], ◌∷◌, ◌++◌, Bool, true, false, ◌||◌, if◌then◌else◌, ◌==◌, length, map,
}

-- The members of EVENT_TYPES.
pub data Kind : Type 0 where
  agent_registered message_sent state_written state_deleted : Kind

abbrev pub name : Kind → String
name agent_registered = "agent_registered"
name message_sent = "message_sent"
name state_written = "state_written"
name state_deleted = "state_deleted"

abbrev pub event_types : List Kind
event_types = agent_registered ∷ message_sent ∷ state_written ∷ state_deleted ∷ []

abbrev pub kind_eq : Kind → Kind → Bool
kind_eq agent_registered agent_registered = true
kind_eq message_sent message_sent = true
kind_eq state_written state_written = true
kind_eq state_deleted state_deleted = true
kind_eq _ _ = false

-- A Set, in the order of insertion.
unfoldable pub has : Kind → List Kind → Bool
has k [] = false
has k (j ∷ js) = kind_eq j k || has k js

unfoldable pub delete : Kind → List Kind → List Kind
delete k [] = []
delete k (j ∷ js) = if kind_eq j k then js else j ∷ delete k js

-- `toggleType`
unfoldable pub toggle_type : Kind → List Kind → List Kind
unfolding has delete
toggle_type k s = if has k s then delete k s else s ++ k ∷ []

-- `typeFilters.size === EVENT_TYPES.length ? [] : [...typeFilters]`
unfoldable pub type_list : List Kind → List String
type_list s = if length s == length event_types then [] else map name s
