-- ===== src/Site/Streams.antt =====
-- The event streams that have been left.
use tabulum.Prelude.{String, List, [], ◌∷◌, Bool, false, ◌≡◌, ◌≢◌, sym, ap, ◌∙◌, arith, subst}
use tabulum.App.{Component, live_event_stream, state_browser, network_graph}
use tabulum.UseWebSocket
use tabulum.UseWebSocket.{Hook}
use tabulum.UseWebSocket.Links.{Quiet}
use tabulum.UseWebSocket.Reconnect.{IsLinked, step-IsLinked, initial-IsLinked, Links-unmounted}
use tabulum.LiveEventStream
use tabulum.LiveEventStream.{Stream, FeedEvent}
use tabulum.LiveEventStream.Requests.{hook-scrolled}
use tabulum.Site.State.{
  Shown, stream, browser, graph, Inside, in_stream, in_browser, in_graph, by_react, by_browser,
  origin, origin_of_event, act_in, mounted, unmounted, opened, Event, run,
}
use tabulum.Site.Keeping.{IsStable, All, run-opened-IsKept}

-- What the browser brings does not mount the hook.
event-mounted :
    (e : UseWebSocket.Event FeedEvent) (h : Hook FeedEvent)
    → origin_of_event e ≡ by_browser
    → (UseWebSocket.step e h).mounted ≡ h.mounted
unfolding UseWebSocket.step UseWebSocket.on_open UseWebSocket.on_message UseWebSocket.on_close
    UseWebSocket.on_error UseWebSocket.on_timeout UseWebSocket.on_tick UseWebSocket.on_reply
    UseWebSocket.connect UseWebSocket.start_polling UseWebSocket.receive
event-mounted (UseWebSocket.render b o) h e = cc
event-mounted (UseWebSocket.mount b) h e = cc
event-mounted UseWebSocket.unmount h e = cc
event-mounted UseWebSocket.clear h e = cc
event-mounted (UseWebSocket.open_event id) h e = ground arith
event-mounted (UseWebSocket.message id m) h e = ground arith
event-mounted (UseWebSocket.close_event id) h e = ground arith
event-mounted (UseWebSocket.error_event id) h e = ground arith
event-mounted (UseWebSocket.timeout id b) h e = ground arith
event-mounted (UseWebSocket.tick id) h e = ground arith
event-mounted (UseWebSocket.reply id r) h e = ground arith

unmount-mounted : (h : Hook FeedEvent) → (UseWebSocket.step UseWebSocket.unmount h).mounted ≡ false
unfolding UseWebSocket.step
unmount-mounted h = ground arith

act-IsLinked :
    (a : LiveEventStream.Action) (s : Stream)
    → IsLinked s.hook
    → IsLinked (LiveEventStream.act a s).hook
unfolding LiveEventStream.act LiveEventStream.rerender
act-IsLinked (LiveEventStream.toggle b k) s v = step-IsLinked (UseWebSocket.render b _) s.hook v
act-IsLinked (LiveEventStream.agent b a) s v = step-IsLinked (UseWebSocket.render b _) s.hook v
act-IsLinked (LiveEventStream.pause b) s v = step-IsLinked (UseWebSocket.render b _) s.hook v
act-IsLinked (LiveEventStream.auto on) s v = v
act-IsLinked (LiveEventStream.scroll n) s v = v
act-IsLinked LiveEventStream.clear s v =
    let s' : Stream = record s { hook = UseWebSocket.step UseWebSocket.clear s.hook } in
    subst IsLinked (sym (hook-scrolled s s')) (step-IsLinked UseWebSocket.clear s.hook v)
act-IsLinked (LiveEventStream.outside e) s v =
    let s' : Stream = record s { hook = UseWebSocket.step e s.hook } in
    subst IsLinked (sym (hook-scrolled s s')) (step-IsLinked e s.hook v)

outside-mounted :
    (e : UseWebSocket.Event FeedEvent) (s : Stream)
    → (LiveEventStream.act (LiveEventStream.outside e) s).hook.mounted
      ≡ (UseWebSocket.step e s.hook).mounted
unfolding LiveEventStream.act
outside-mounted e s =
    let s' : Stream = record s { hook = UseWebSocket.step e s.hook } in
    ap (λ (h : Hook FeedEvent). h.mounted) (hook-scrolled s s')

act-mounted :
    (a : LiveEventStream.Action) (s : Stream)
    → origin (in_stream a) ≡ by_browser
    → (LiveEventStream.act a s).hook.mounted ≡ s.hook.mounted
act-mounted (LiveEventStream.toggle b k) s e = cc
act-mounted (LiveEventStream.agent b a) s e = cc
act-mounted (LiveEventStream.pause b) s e = cc
act-mounted (LiveEventStream.auto on) s e = cc
act-mounted (LiveEventStream.scroll n) s e = cc
act-mounted LiveEventStream.clear s e = cc
act-mounted (LiveEventStream.outside x) s e = outside-mounted x s ∙ event-mounted x s.hook e

-- The link of a stream is in charge of one, and a stream that has been left is unmounted.
abbrev Runs : Shown → Type 0
Runs (stream s) = IsLinked s.hook
Runs (browser b) = Unit
Runs (graph g) = Unit

abbrev Rests : Shown → Type 0
Rests (stream s) = IsLinked s.hook × (s.hook.mounted ≡ false)
Rests (browser b) = Unit
Rests (graph g) = Unit

mounted-Runs : (b : Bool) (c : Component) → Runs (mounted b c)
unfolding mounted LiveEventStream.initial
mounted-Runs b live_event_stream =
    act-IsLinked (LiveEventStream.outside (UseWebSocket.mount b)) LiveEventStream.initial
      (initial-IsLinked _)
mounted-Runs b state_browser = tt
mounted-Runs b network_graph = tt

unmounted-Rests : (shown : Shown) → Runs shown → Rests (unmounted shown)
unfolding unmounted
unmounted-Rests (stream s) v = (
  act-IsLinked (LiveEventStream.outside UseWebSocket.unmount) s v,
  outside-mounted UseWebSocket.unmount s ∙ unmount-mounted s.hook,
)
unmounted-Rests (browser b) v = tt
unmounted-Rests (graph g) v = tt

act_in-Runs :
    (x : Inside) (shown : Shown) → origin x ≢ by_react → Runs shown → Runs (act_in x shown)
unfolding act_in
act_in-Runs (in_stream a) (stream s) n v = act-IsLinked a s v
act_in-Runs (in_stream a) (browser b) n v = v
act_in-Runs (in_stream a) (graph g) n v = v
act_in-Runs (in_browser a) (stream s) n v = v
act_in-Runs (in_browser a) (browser b) n v = v
act_in-Runs (in_browser a) (graph g) n v = v
act_in-Runs (in_graph a) (stream s) n v = v
act_in-Runs (in_graph a) (browser b) n v = v
act_in-Runs (in_graph a) (graph g) n v = v

act_in-Rests : (x : Inside) (old : Shown) → origin x ≡ by_browser → Rests old → Rests (act_in x old)
unfolding act_in
act_in-Rests (in_stream a) (stream s) e v = (act-IsLinked a s v.0, act-mounted a s e ∙ v.1)
act_in-Rests (in_stream a) (browser b) e v = v
act_in-Rests (in_stream a) (graph g) e v = v
act_in-Rests (in_browser a) (stream s) e v = v
act_in-Rests (in_browser a) (browser b) e v = v
act_in-Rests (in_browser a) (graph g) e v = v
act_in-Rests (in_graph a) (stream s) e v = v
act_in-Rests (in_graph a) (browser b) e v = v
act_in-Rests (in_graph a) (graph g) e v = v

streams-IsStable : IsStable Runs Rests
streams-IsStable = record {
  mounting = mounted-Runs;
  unmounting = unmounted-Rests;
  acting = act_in-Runs;
  resting = act_in-Rests;
}

-- No timeout is set, and no socket has an `onclose` that is still to come.
abbrev pub Silent : Shown → Type 0
Silent (stream s) = (s.hook.timers ≡ []) × Quiet s.hook.sockets
Silent (browser b) = Unit
Silent (graph g) = Unit

Rests-Silent : (gone : List Shown) → All Rests gone → All Silent gone
Rests-Silent [] v = tt
Rests-Silent (stream s ∷ gone) v =
    (Links-unmounted _ _ _ _ _ v.0.1 v.0.0.links, Rests-Silent gone v.1)
Rests-Silent (browser b ∷ gone) v = (tt, Rests-Silent gone v.1)
Rests-Silent (graph g ∷ gone) v = (tt, Rests-Silent gone v.1)

-- From any address, after any moves between the pages, and whatever the user and the browser do in
-- the tools meanwhile: no event stream that has been left has a timeout that would reconnect it, or a
-- socket whose `onclose` is still to come and would set one.
pub run-opened-Silent :
    (b : Bool) (path : String) (es : List Event) → All Silent (run es (opened b path)).gone
run-opened-Silent b path es =
    Rests-Silent (run es (opened b path)).gone
      (run-opened-IsKept Runs Rests streams-IsStable b path es).1
