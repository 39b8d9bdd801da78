-- ===== src/Site/Tests.antt =====
-- The page at a concrete address, and its theorems there.
use tabulum.Prelude.{length, some, List, [], ◌∷◌, true, false, ◌≡◌, refl, ◌+◌, if◌then◌else◌}
use tabulum.Prelude.Objects.{get_own, elem}
use tabulum.App
use tabulum.App.{state_browser, get_tool_from_path, page}
use tabulum.UseWebSocket
use tabulum.UsePolling
use tabulum.LiveEventStream
use tabulum.StateBrowser
use tabulum.NetworkGraph.Component as Graphs
use tabulum.Site.State.{
  step, rendered, place, mounted, unmounted, act_in, reach_shown, reach_gone, Event, navigate,
  inside, late, in_stream, in_browser, in_graph, opened, run, tool_of,
}
use tabulum.Site.Placing.{component_shown, run-opened-component}
use tabulum.Site.Keeping.{All}
use tabulum.Site.Polling.{polls_shown, polls_gone, refreshes_shown, run-opened-polls}
use tabulum.Site.Streams.{Silent, run-opened-Silent}

-- The stream is left for the network graph, which is left for the list; meanwhile the stream that has
-- been left hears of an error, and the user switches the auto-refresh off.
abbrev visit : List Event
visit =
    navigate false App.go_back
    ∷ navigate false (App.select "network-graph")
    ∷ late 0 (in_stream (LiveEventStream.outside (UseWebSocket.error_event 1)))
    ∷ inside (in_graph (Graphs.refresh false))
    ∷ inside (in_graph (Graphs.reply 2 (UsePolling.http 500)))
    ∷ navigate true (App.select "state-browser")
    ∷ late 0 (in_graph (Graphs.tick 1))
    ∷ inside (in_browser (StateBrowser.search "a"))
    ∷ []

run-opened-component_example :
    component_shown (run visit (opened false "/observe/live-stream")).shown
    ≡ tool_of (page (App.initial (run visit (opened false "/observe/live-stream")).app.pathname))
unfolding elem
run-opened-component_example =
    run-opened-component false "/observe/live-stream" visit (tt, ((refl, tt), ((refl, tt), tt)))

run-opened-polls_example :
    polls_shown (run visit (opened false "/observe/live-stream")).shown
      + polls_gone (run visit (opened false "/observe/live-stream")).gone
    ≡ (if refreshes_shown (run visit (opened false "/observe/live-stream")).shown then 1 else 0)
run-opened-polls_example = run-opened-polls false "/observe/live-stream" visit

run-opened-Silent_example : All Silent (run visit (opened false "/observe/live-stream")).gone
run-opened-Silent_example = run-opened-Silent false "/observe/live-stream" visit

-- The stream is left for the cards, and the network graph for the list of keys.
abbrev tour : List Event
tour =
    navigate false App.all_tools
    ∷ navigate false (App.select "network-graph")
    ∷ inside (in_graph (Graphs.refresh false))
    ∷ navigate true (App.select "state-browser")
    ∷ late 0 (in_graph (Graphs.tick 1))
    ∷ inside (in_browser (StateBrowser.search "a"))
    ∷ []

tours : Unit {0}
unfolding opened run step rendered place mounted unmounted act_in reach_shown reach_gone App.act
    App.initial App.page App.navigate_to App.back App.forward get_tool_from_path get_own elem
    StateBrowser.act StateBrowser.initial StateBrowser.rerender StateBrowser.poll_options Graphs.act
    Graphs.first_render Graphs.panel_of UsePolling.step UsePolling.initial UsePolling.effect
    UsePolling.cleanup UsePolling.on_render UsePolling.on_tick UsePolling.fetch_data UsePolling.find
    UsePolling.remove UsePolling.same_deps UsePolling.same_params UsePolling.build_url
tours = tt

end_of_tour :
    (component_shown (run tour (opened false "/observe/live-stream")).shown ≡ some state_browser)
    × (polls_shown (run tour (opened false "/observe/live-stream")).shown ≡ 1)
    × (polls_gone (run tour (opened false "/observe/live-stream")).gone ≡ 0)
    × (length (run tour (opened false "/observe/live-stream")).gone ≡ 2)
unfolding tours
end_of_tour = (refl, refl, refl, refl)
