-- ===== src/Site/Tools.antt =====
-- The polling hooks of the tools, while a tool is mounted and after it has been left.
use tabulum.Prelude.{◌≢◌, ℕ, Bool, true, false, ◌≡◌, refl, arith, length, if◌then◌else◌}
use tabulum.UsePolling.Owned.{
  IsOwned, IsLeft, mount-IsOwned, render-IsOwned, tick-IsOwned, reply-IsOwned, unmount-IsLeft,
  tick-IsLeft, reply-IsLeft, IsOwned-length, IsLeft-length,
}
use tabulum.App.{Component, live_event_stream, state_browser, network_graph}
use tabulum.StateBrowser
use tabulum.StateBrowser.{poll_options, Browser}
use tabulum.NetworkGraph.Component as Graphs
use tabulum.NetworkGraph.Component.{Graph}
use tabulum.Site.State.{
  Shown, stream, browser, graph, Inside, in_stream, in_browser, in_graph, by_react, by_browser,
  origin, act_in, mounted, unmounted,
}
use tabulum.Site.Keeping.{IsStable}

-- The instance is mounted, and its hook polls as the component's switch says.
abbrev pub Runs : Shown → Type 0
Runs (stream s) = Unit
Runs (browser b) = IsOwned b.auto_refresh b.hook
Runs (graph g) = IsOwned g.auto_refresh g.hook

-- The instance has been unmounted.
abbrev pub Rests : Shown → Type 0
Rests (stream s) = Unit
Rests (browser b) = IsLeft b.hook
Rests (graph g) = IsLeft g.hook

mounted-Runs : (b : Bool) (c : Component) → Runs (mounted b c)
unfolding mounted StateBrowser.act StateBrowser.initial Graphs.act Graphs.first_render
    StateBrowser.poll_options
mounted-Runs b live_event_stream = tt
mounted-Runs b state_browser = mount-IsOwned (StateBrowser.poll_options "" true)
mounted-Runs b network_graph = mount-IsOwned _

unmounted-Rests : (shown : Shown) → Runs shown → Rests (unmounted shown)
unfolding unmounted StateBrowser.act Graphs.act
unmounted-Rests (stream s) v = tt
unmounted-Rests (browser b) v = unmount-IsLeft b.auto_refresh b.hook v
unmounted-Rests (graph g) v = unmount-IsLeft g.auto_refresh g.hook v

-- What the user and the browser do in the two tools that poll.
browser-Runs :
    (a : StateBrowser.Action) (b : Browser)
    → origin (in_browser a) ≢ by_react
    → Runs (browser b)
    → Runs (browser (StateBrowser.act a b))
unfolding StateBrowser.act StateBrowser.rerender StateBrowser.poll_options StateBrowser.fetch_value
    StateBrowser.on_answer
browser-Runs (StateBrowser.search p) b n v =
    render-IsOwned b.auto_refresh (StateBrowser.poll_options p b.auto_refresh) b.hook v
browser-Runs (StateBrowser.refresh on) b n v =
    render-IsOwned b.auto_refresh (StateBrowser.poll_options b.prefix on) b.hook v
browser-Runs (StateBrowser.click k) b n v = ground (arith, v.ticking, v.attached, v.enabled)
browser-Runs (StateBrowser.answer id a) b n v = ground (arith, v.ticking, v.attached, v.enabled)
browser-Runs StateBrowser.mount b n v = absurd (n refl)
browser-Runs StateBrowser.unmount b n v = absurd (n refl)
browser-Runs (StateBrowser.tick id) b n v = tick-IsOwned b.auto_refresh id b.hook v
browser-Runs (StateBrowser.reply id r) b n v = reply-IsOwned b.auto_refresh id r b.hook v

graph-Runs :
    (a : Graphs.Action) (g : Graph)
    → origin (in_graph a) ≢ by_react
    → Runs (graph g)
    → Runs (graph (Graphs.act a g))
unfolding Graphs.act
graph-Runs Graphs.mount g n v = absurd (n refl)
graph-Runs Graphs.unmount g n v = absurd (n refl)
graph-Runs (Graphs.refresh on) g n v = render-IsOwned g.auto_refresh _ g.hook v
graph-Runs (Graphs.choose m) g n v = v
graph-Runs Graphs.resize g n v = v
graph-Runs (Graphs.resolve id) g n v = v
graph-Runs (Graphs.tick id) g n v = tick-IsOwned g.auto_refresh id g.hook v
graph-Runs (Graphs.reply id r) g n v = reply-IsOwned g.auto_refresh id r g.hook v

act_in-Runs :
    (x : Inside) (shown : Shown) → origin x ≢ by_react → Runs shown → Runs (act_in x shown)
unfolding act_in
act_in-Runs (in_stream a) (stream s) n v = tt
act_in-Runs (in_stream a) (browser b) n v = v
act_in-Runs (in_stream a) (graph g) n v = v
act_in-Runs (in_browser a) (stream s) n v = tt
act_in-Runs (in_browser a) (browser b) n v = browser-Runs a b n v
act_in-Runs (in_browser a) (graph g) n v = v
act_in-Runs (in_graph a) (stream s) n v = tt
act_in-Runs (in_graph a) (browser b) n v = v
act_in-Runs (in_graph a) (graph g) n v = graph-Runs a g n v

-- What the browser still does to an instance that has been left.
browser-Rests :
    (a : StateBrowser.Action) (b : Browser)
    → origin (in_browser a) ≡ by_browser
    → Rests (browser b)
    → Rests (browser (StateBrowser.act a b))
unfolding StateBrowser.act StateBrowser.on_answer
browser-Rests (StateBrowser.search p) b e v = cc
browser-Rests (StateBrowser.refresh on) b e v = cc
browser-Rests (StateBrowser.click k) b e v = cc
browser-Rests (StateBrowser.answer id a) b e v = ground (arith, v.ticking, v.attached)
browser-Rests StateBrowser.mount b e v = cc
browser-Rests StateBrowser.unmount b e v = cc
browser-Rests (StateBrowser.tick id) b e v = tick-IsLeft id b.hook v
browser-Rests (StateBrowser.reply id r) b e v = reply-IsLeft id r b.hook v

graph-Rests :
    (a : Graphs.Action) (g : Graph)
    → origin (in_graph a) ≡ by_browser
    → Rests (graph g)
    → Rests (graph (Graphs.act a g))
unfolding Graphs.act
graph-Rests Graphs.mount g e v = cc
graph-Rests Graphs.unmount g e v = cc
graph-Rests (Graphs.refresh on) g e v = cc
graph-Rests (Graphs.choose m) g e v = cc
graph-Rests Graphs.resize g e v = v
graph-Rests (Graphs.resolve id) g e v = v
graph-Rests (Graphs.tick id) g e v = tick-IsLeft id g.hook v
graph-Rests (Graphs.reply id r) g e v = reply-IsLeft id r g.hook v

act_in-Rests : (x : Inside) (old : Shown) → origin x ≡ by_browser → Rests old → Rests (act_in x old)
unfolding act_in
act_in-Rests (in_stream a) (stream s) e v = tt
act_in-Rests (in_stream a) (browser b) e v = v
act_in-Rests (in_stream a) (graph g) e v = v
act_in-Rests (in_browser a) (stream s) e v = tt
act_in-Rests (in_browser a) (browser b) e v = browser-Rests a b e v
act_in-Rests (in_browser a) (graph g) e v = v
act_in-Rests (in_graph a) (stream s) e v = tt
act_in-Rests (in_graph a) (browser b) e v = v
act_in-Rests (in_graph a) (graph g) e v = graph-Rests a g e v

pub tools-IsStable : IsStable Runs Rests
tools-IsStable = record {
  mounting = mounted-Runs;
  unmounting = unmounted-Rests;
  acting = act_in-Runs;
  resting = act_in-Rests;
}

-- The intervals of the polling hook that the instance has, and how many there should be.
abbrev pub polls : Shown → ℕ
polls (stream s) = 0
polls (browser b) = length b.hook.intervals
polls (graph g) = length g.hook.intervals

abbrev pub refreshes : Shown → Bool
refreshes (stream s) = false
refreshes (browser b) = b.auto_refresh
refreshes (graph g) = g.auto_refresh

pub Runs-polls : (shown : Shown) → Runs shown → polls shown ≡ (if refreshes shown then 1 else 0)
Runs-polls (stream s) v = refl
Runs-polls (browser b) v = IsOwned-length b.auto_refresh b.hook v
Runs-polls (graph g) v = IsOwned-length g.auto_refresh g.hook v

pub Rests-polls : (old : Shown) → Rests old → polls old ≡ 0
Rests-polls (stream s) v = refl
Rests-polls (browser b) v = IsLeft-length b.hook v
Rests-polls (graph g) v = IsLeft-length g.hook v
