-- ===== src/Site/Placing.antt =====
-- The instance on the page is of the component that the address calls for.
use tabulum.Prelude.{
  String, List, [], ◌∷◌, Option, none, some, Bool, true, ◌≡◌, refl, ap, ◌∙◌, arith,
}
use tabulum.App
use tabulum.App.{App, Component, live_event_stream, state_browser, network_graph, page}
use tabulum.App.Paths.{FromGrid, Agrees, act-Agrees}
use tabulum.Site.State.{
  Shown, stream, browser, graph, Inside, in_stream, in_browser, in_graph, component_of, act_in,
  mounted, Site, tool_of, same_component, place, rendered, opened, Event, navigate, inside, late,
  reach_shown, step, run,
}

abbrev pub component_shown : Option Shown → Option Component
component_shown none = none
component_shown (some shown) = some (component_of shown)

component_of-act_in :
    (x : Inside) (shown : Shown) → component_of (act_in x shown) ≡ component_of shown
unfolding act_in
component_of-act_in (in_stream a) (stream s) = refl
component_of-act_in (in_stream a) (browser b) = refl
component_of-act_in (in_stream a) (graph g) = refl
component_of-act_in (in_browser a) (stream s) = refl
component_of-act_in (in_browser a) (browser b) = refl
component_of-act_in (in_browser a) (graph g) = refl
component_of-act_in (in_graph a) (stream s) = refl
component_of-act_in (in_graph a) (browser b) = refl
component_of-act_in (in_graph a) (graph g) = refl

component_of-mounted : (b : Bool) (c : Component) → component_of (mounted b c) ≡ c
unfolding mounted
component_of-mounted b live_event_stream = refl
component_of-mounted b state_browser = refl
component_of-mounted b network_graph = refl

same_component-eq : (c d : Component) → same_component c d ≡ true → c ≡ d
same_component-eq live_event_stream live_event_stream e = refl
same_component-eq live_event_stream state_browser e = cc
same_component-eq live_event_stream network_graph e = cc
same_component-eq state_browser live_event_stream e = cc
same_component-eq state_browser state_browser e = refl
same_component-eq state_browser network_graph e = cc
same_component-eq network_graph live_event_stream e = cc
same_component-eq network_graph state_browser e = cc
same_component-eq network_graph network_graph e = refl

component_shown-place :
    (b : Bool) (c : Option Component) (shown : Option Shown) (gone : List Shown)
    → component_shown (place b c shown gone).0 ≡ c
unfolding place
component_shown-place b none none gone = refl
component_shown-place b none (some old) gone = refl
component_shown-place b (some c) none gone = ap some (component_of-mounted b c)
component_shown-place b (some c) (some old) gone =
    ground (arith, component_of-mounted b c, same_component-eq c (component_of old))

component_shown-reach_shown :
    (x : Inside) (shown : Option Shown)
    → component_shown (reach_shown x shown) ≡ component_shown shown
unfolding reach_shown
component_shown-reach_shown x none = refl
component_shown-reach_shown x (some shown) = ground (arith, component_of-act_in x shown)

-- What the user does to App.jsx itself comes from what it shows.
abbrev pub FromPage : List Event → Type 0
FromPage [] = Unit
FromPage (navigate b a ∷ es) = FromGrid (a ∷ []) × FromPage es
FromPage (inside x ∷ es) = FromPage es
FromPage (late i x ∷ es) = FromPage es

pub record IsPlaced (s : Site) : Type 0 where
  pub agrees : Agrees s.app
  pub placed : component_shown s.shown ≡ tool_of (page s.app)

rendered-IsPlaced : (b : Bool) (a : App) (s : Site) → Agrees a → IsPlaced (rendered b a s)
unfolding rendered
rendered-IsPlaced b a s v = record {
  agrees = v;
  placed = component_shown-place b (tool_of (page a)) s.shown s.gone;
}

run-IsPlaced : (es : List Event) (s : Site) → FromPage es → IsPlaced s → IsPlaced (run es s)
unfolding run step
run-IsPlaced [] s f v = v
run-IsPlaced (navigate b a ∷ es) s f v =
    run-IsPlaced es (step (navigate b a) s) f.1
      (rendered-IsPlaced b (App.act a s.app) s (act-Agrees a s.app f.0 v.agrees))
run-IsPlaced (inside x ∷ es) s f v =
    run-IsPlaced es (step (inside x) s) f
      (record { agrees = v.agrees; placed = component_shown-reach_shown x s.shown ∙ v.placed })
run-IsPlaced (late i x ∷ es) s f v =
    run-IsPlaced es (step (late i x) s) f (record { agrees = v.agrees; placed = v.placed })

opened-IsPlaced : (b : Bool) (path : String) → IsPlaced (opened b path)
unfolding opened App.initial
opened-IsPlaced b path =
    rendered-IsPlaced b (App.initial path)
      (record { app = App.initial path; shown = none; gone = [] }) refl

page-initial : (a : App) → Agrees a → page a ≡ page (App.initial a.pathname)
unfolding page App.initial
page-initial a v = rw (v) refl

-- From any address, after any moves between the pages and whatever happens in the tools meanwhile:
-- the component that is mounted is the one that the address names, so that a reload would mount the
-- same; and where the address names no tool, none is mounted.
pub run-opened-component :
    (b : Bool) (path : String) (es : List Event)
    → FromPage es
    → component_shown (run es (opened b path)).shown
      ≡ tool_of (page (App.initial (run es (opened b path)).app.pathname))
run-opened-component b path es f =
    let v = run-IsPlaced es (opened b path) f (opened-IsPlaced b path) in
    v.placed ∙ ap tool_of (page-initial (run es (opened b path)).app v.agrees)
