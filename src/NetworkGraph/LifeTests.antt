-- ===== src/NetworkGraph/LifeTests.antt =====
-- Lives of the component of NetworkGraph.jsx and gestures on its nodes, and their theorems there.
use tabulum.Prelude.{
  eq_iff, str_eq, arith, get_elem?, Option, some, String, ℕ, List, zero, suc, [], ◌∷◌, none, false,
  ◌≡◌, refl, length, ◌&&◌, if◌then◌else◌,
}
use tabulum.UsePolling
use tabulum.NetworkGraph.Lifetimes.{Held}
use tabulum.NetworkGraph.View.{has_nodes}
use tabulum.NetworkGraph.Component.{Action, act, run, first_render, mount, refresh, resize, reply}
use tabulum.Prelude.Objects.{elem}
use tabulum.NetworkGraph.Scales.{RawNode, RawEdge}
use tabulum.NetworkGraph.Layout.{link_ends, place_marks}
use tabulum.NetworkGraph.Ends.{IsFinder, AllJoin, place_marks-AllJoin}
use tabulum.NetworkGraph.Whole.{run-mount-running}
use tabulum.NetworkGraph.Drag.{
  Pull, Body, Simulation, start_pull, pull_to, end_pull, node_of, let_go, pull, pulls,
}
use tabulum.NetworkGraph.Dragging.{held_at, IsDragging, pulls-IsDragging}

-- A network comes, the window changes its size, and polling is switched off.
abbrev life : List Action
life =
    reply 2 (
      UsePolling.json (record {
        nodes = record { address = "tab_a"; messages_sent = none; messages_received = none } ∷ [];
        edges = [];
      }))
    ∷ resize
    ∷ refresh false
    ∷ []

run-mount-running_example :
    Held
      (run life (act mount first_render)).canvas.instance_ref
      (run life (act mount first_render)).canvas.running
    × (length (run life (act mount first_render)).canvas.running ≡ (
        if (run life (act mount first_render)).hook.attached
          && has_nodes (run life (act mount first_render)).hook.resource
        then 1
        else 0))
run-mount-running_example = run-mount-running life tt

abbrev still : Simulation ℕ
still = record {
  bodies =
      record { x = 1; y = 2; fx = none; fy = none }
      ∷ record { x = 3; y = 4; fx = none; fy = none }
      ∷ [];
  warm = false;
  grips = [];
}

still-IsDragging : IsDragging false 2 still
still-IsDragging = record {
  warm = refl;
  count = refl;
  free = λ k l u. at_index k;
  alone = λ q. tt;
  held = λ k l q u. cc;
}
  where
    at_index : (k : ℕ) → held_at k still.bodies ≡ false
    at_index zero = refl
    at_index (suc zero) = refl
    at_index (suc (suc k)) = refl

abbrev gestures : List (Pull ℕ)
gestures = start_pull 5 0 ∷ start_pull 6 1 ∷ pull_to 6 7 8 ∷ end_pull 5 ∷ start_pull 7 0 ∷ []

pulls-IsDragging_example : IsDragging false 2 (pulls gestures still)
unfolding pull node_of let_go
pulls-IsDragging_example =
    pulls-IsDragging false 2 gestures still ((λ q. refl), ((λ q. refl), ((λ q. refl), tt)))
      still-IsDragging

-- Where the text stands in the list.
abbrev index_of : List String → String → Option ℕ
index_of [] id = none
index_of (x ∷ ids) id =
    let rest = index_of ids id in
    if str_eq x id then some 0 else elim rest [ none ↦ none | some i ↦ some (suc i) ]

index_of-IsFinder : IsFinder index_of
unfolding elem
index_of-IsFinder = record { found = at_index; complete = nowhere }
  where
    at_index :
        (ids : List String) (id : String) (i : ℕ)
        → index_of ids id ≡ some i
        → get_elem? ids i ≡ some id
    at_index [] id i e = cc
    at_index (x ∷ ids) id zero e = ground (arith, eq_iff x id)
    at_index (x ∷ ids) id (suc i) e = ground (arith, at_index ids id i)

    nowhere : (ids : List String) (id : String) → index_of ids id ≡ none → elem id ids ≡ false
    nowhere [] id e = refl
    nowhere (x ∷ ids) id e = ground (arith, nowhere ids id)

abbrev agents : List RawNode
agents =
    record { address = "tab_a"; messages_sent = some 3; messages_received = none }
    ∷ record { address = "tab_b"; messages_sent = none; messages_received = some 9 }
    ∷ []

abbrev messages : List RawEdge
messages = record { from = "tab_b"; to = "tab_a"; count = some 3 } ∷ []

place_marks-AllJoin_example :
    (links : List (ℕ × ℕ)) × (link_ends index_of agents messages ≡ some links)
    × ((bodies : List (Body ℕ))
        → length bodies ≡ length agents
        → AllJoin agents
            (place_marks links bodies).circles
            (place_marks links bodies).lines
            messages)
unfolding elem
place_marks-AllJoin_example =
    place_marks-AllJoin index_of agents messages index_of-IsFinder (refl, refl, tt)
