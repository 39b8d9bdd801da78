-- ===== src/App/Tests.antt =====
-- Paths of App.jsx, and its theorems at concrete addresses.
use tabulum.Prelude.{List, [], ◌∷◌, ◌≡◌, refl}
use tabulum.Prelude.Objects.{elem, get_own}
use tabulum.App.Routes.{get_tool_from_path, live_event_stream}
use tabulum.App.State.{Action, select, all_tools, go_back, initial, act, run, page, grid, panel}

routing : Unit {0}
unfolding get_tool_from_path get_own elem initial act run page
routing = tt

paths :
    (page (initial "/observe") ≡ grid)
    × (page (initial "/observe/") ≡ grid)
    × (page (initial "/observe/live-stream/") ≡ panel "Live Event Stream" live_event_stream)
    × (page (initial "/observelive-stream") ≡ panel "Live Event Stream" live_event_stream)
    × (page (initial "/observe/nothing") ≡ grid)
unfolding routing
paths = (refl, refl, refl, refl, refl)

abbrev moves : List Action
moves = select "live-stream" ∷ all_tools ∷ go_back ∷ []
