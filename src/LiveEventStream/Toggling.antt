-- ===== src/LiveEventStream/Toggling.antt =====
-- The set of ticked types, and what it asks the server for.
use tabulum.Prelude.{
  ℕ, ◌+◌, List, [], ◌∷◌, ◌++◌, some, Bool, true, false, not, ◌||◌, if◌then◌else◌, ◌≡◌, refl, arith,
  ◌↔◌, ◌⊎◌, inl, inr, length,
}
use tabulum.UseWebSocket.Urls.{type_param}
use tabulum.LiveEventStream.Selection.{
  Kind, agent_registered, message_sent, state_written, state_deleted, kind_eq, has, delete,
  toggle_type, type_list,
}

-- No type stands twice in the set.
abbrev pub Distinct : List Kind → Type 0
Distinct [] = Unit
Distinct (k ∷ s) = (has k s ≡ false) × Distinct s

kind_eq_iff : (j k : Kind) → (kind_eq j k ≡ true) ↔ (j ≡ k)
kind_eq_iff agent_registered k = ground arith
kind_eq_iff message_sent k = ground arith
kind_eq_iff state_written k = ground arith
kind_eq_iff state_deleted k = ground arith

has-append : (j k : Kind) (s : List Kind) → has j (s ++ k ∷ []) ≡ (has j s || kind_eq k j)
unfolding has
has-append j k [] = ground arith
has-append j k (i ∷ s) = ground (arith, has-append j k s)

has-delete :
    (j k : Kind) (s : List Kind)
    → Distinct s
    → has j (delete k s) ≡ (if kind_eq k j then false else has j s)
unfolding has delete
has-delete j k [] d = ground arith
has-delete j k (i ∷ s) d =
    ground (arith, kind_eq_iff i k, kind_eq_iff k j, kind_eq_iff i j, has-delete j k s d.1)

Distinct-append : (k : Kind) (s : List Kind) → Distinct s → has k s ≡ false → Distinct (s ++ k ∷ [])
unfolding has
Distinct-append k [] d h = (refl, tt)
Distinct-append k (i ∷ s) d h =
    ground (arith, kind_eq_iff i k, kind_eq_iff k i, has-append i k s, Distinct-append k s d.1)

Distinct-delete : (k : Kind) (s : List Kind) → Distinct s → Distinct (delete k s)
unfolding delete
Distinct-delete k [] d = tt
Distinct-delete k (i ∷ s) d = ground (arith, has-delete i k s d.1, Distinct-delete k s d.1)

pub toggle_type-Distinct : (k : Kind) (s : List Kind) → Distinct s → Distinct (toggle_type k s)
unfolding toggle_type
toggle_type-Distinct k s d = ground (arith, Distinct-append k s d, Distinct-delete k s d)

-- Ticking a box changes its own type and no other.
has-toggle_type :
    (j k : Kind) (s : List Kind)
    → Distinct s
    → has j (toggle_type k s) ≡ (if kind_eq k j then not (has j s) else has j s)
unfolding toggle_type
has-toggle_type j k s d = ground (arith, kind_eq_iff k j, has-append j k s, has-delete j k s d)

abbrev count : Bool → ℕ
count true = 1
count false = 0

-- The size of the set is the number of ticked types.
length-Distinct :
    (s : List Kind)
    → Distinct s
    → length s
      ≡ count (has agent_registered s)
        + count (has message_sent s)
        + count (has state_written s)
        + count (has state_deleted s)
unfolding has
length-Distinct [] d = refl
length-Distinct (agent_registered ∷ s) d = ground (arith, length-Distinct s d.1)
length-Distinct (message_sent ∷ s) d = ground (arith, length-Distinct s d.1)
length-Distinct (state_written ∷ s) d = ground (arith, length-Distinct s d.1)
length-Distinct (state_deleted ∷ s) d = ground (arith, length-Distinct s d.1)

abbrev pub Every : Bool → List Kind → Type 0
Every b s =
    (has agent_registered s ≡ b)
    × (has message_sent s ≡ b)
    × (has state_written s ≡ b)
    × (has state_deleted s ≡ b)

all_ticked : (s : List Kind) → Distinct s → length s ≡ 4 → Every true s
all_ticked s d n = ground (arith, length-Distinct s d)

no_ticked :
    (s : List Kind)
    → Every false s
    → count (has agent_registered s)
        + count (has message_sent s)
        + count (has state_written s)
        + count (has state_deleted s)
      ≡ 0
no_ticked s f = ground arith

to_every :
    (s : List Kind)
    → Distinct s
    → type_param (some (type_list s)) ≡ []
    → Every true s ⊎ Every false s
unfolding type_param type_list has
to_every [] d e = inr (refl, refl, refl, refl)
to_every (k ∷ s) d e = inl (all_ticked (k ∷ s) d (ground arith))

of_Every :
    (s : List Kind)
    → Distinct s
    → Every true s ⊎ Every false s
    → type_param (some (type_list s)) ≡ []
unfolding type_param type_list
of_Every [] d e = refl
of_Every (k ∷ s) d (inl t) = let n = length-Distinct (k ∷ s) d in ground arith
of_Every (k ∷ s) d (inr f) = absurd (omega (arith, length-Distinct (k ∷ s) d, no_ticked (k ∷ s) f))

-- The server is asked for everything exactly when all types are ticked, or none is.
pub type_param-eq-nil_iff :
    (s : List Kind)
    → Distinct s
    → (type_param (some (type_list s)) ≡ []) ↔ (Every true s ⊎ Every false s)
type_param-eq-nil_iff s d = (to_every s d, of_Every s d)

-- Then no type is named at all.
pub type_list-eq-nil : (s : List Kind) → Distinct s → Every false s → type_list s ≡ []
unfolding type_list has
type_list-eq-nil [] d f = refl
type_list-eq-nil (k ∷ s) d f = ground (arith, kind_eq_iff k k)
