-- ===== src/LiveEventStream/Requests.antt =====
-- What the controls of LiveEventStream.jsx make of the stream behind it.
use tabulum.Prelude.{
  ◌≢◌, not, non_empty, ℕ, ◌<◌, List, [], ◌∷◌, some, Bool, true, false, ◌≡◌, refl, ap, arith, length,
  length-take, map, ◌∙◌, take,
}
use tabulum.UseWebSocket
use tabulum.UseWebSocket.Urls.{build_url, Url}
use tabulum.UseWebSocket.Sockets.{Socket, find, opened}
use tabulum.UseWebSocket.Paused.{Undisturbed, on_render-Frozen, run_stays}
use tabulum.LiveEventStream.Selection.{event_types, has}
use tabulum.LiveEventStream.State.{
  FeedEvent, Stream, Action, toggle, agent, pause, auto, scroll, clear, outside, options_of,
  initial, rerender, scrolled, act, run,
}
use tabulum.LiveEventStream.Toggling.{Distinct, Every, toggle_type-Distinct, type_list-eq-nil}

act-Distinct : (a : Action) (s : Stream) → Distinct s.type_filters → Distinct (act a s).type_filters
unfolding act
act-Distinct (toggle b k) s d = toggle_type-Distinct k s.type_filters d
act-Distinct (agent b a) s d = d
act-Distinct (pause b) s d = d
act-Distinct (auto on) s d = d
act-Distinct (scroll n) s d = d
act-Distinct clear s d = ground arith
act-Distinct (outside e) s d = ground arith

run-Distinct :
    (more : List Action) (s : Stream) → Distinct s.type_filters → Distinct (run more s).type_filters
unfolding run
run-Distinct [] s d = d
run-Distinct (a ∷ more) s d = run-Distinct more (act a s) (act-Distinct a s d)

initial-Distinct : Distinct initial.type_filters
unfolding initial has
initial-Distinct = (refl, (refl, (refl, (refl, tt))))

-- The address of the stream that the component's state asks for.
abbrev pub address : Stream → Url
address s =
    build_url (options_of s.type_filters s.agent_filter s.paused).path
      (options_of s.type_filters s.agent_filter s.paused).filters

-- After any actions, once every box is cleared the stream that is asked for is the same as with every
-- box ticked: that of all types.
pub none_is_all :
    (more : List Action)
    → Every false (run more initial).type_filters
    → address (run more initial)
      ≡ address (record (run more initial) { type_filters = event_types })
unfolding options_of
none_is_all more e =
    let d = run-Distinct more initial initial-Distinct in
    ap
      (λ ts.
        build_url "/observe/events/stream"
          (record { types = some ts; agent = non_empty (run more initial).agent_filter }))
      (type_list-eq-nil (run more initial).type_filters d e)

pub hook-scrolled : (b s : Stream) → (scrolled b s).hook ≡ s.hook
unfolding scrolled
hook-scrolled b s = ground arith

scroll_top-scrolled :
    (b s : Stream)
    → s.auto_scroll ≡ true
    → (length b.hook.events ≢ length s.hook.events → (scrolled b s).scroll_top ≡ 0)
      × (length b.hook.events ≡ length s.hook.events → (scrolled b s).scroll_top ≡ s.scroll_top)
unfolding scrolled
scroll_top-scrolled b s a = ((λ n. ground arith), (λ e. ground arith))

events-message :
    (id : ℕ) (e : FeedEvent) (sock : Socket) (h : UseWebSocket.Hook FeedEvent)
    → find id h.sockets ≡ some sock
    → sock.phase ≡ opened
    → h.paused ≡ false
    → (UseWebSocket.on_message id (some e) h).events ≡ take 500 (e ∷ h.events)
unfolding UseWebSocket.on_message
events-message id e sock h f o p = rw (f, o, p, UseWebSocket.on_message) refl

outside-hook :
    (es : List (UseWebSocket.Event FeedEvent)) (s : Stream)
    → (run (map outside es) s).hook ≡ UseWebSocket.run es s.hook
unfolding run act UseWebSocket.run
outside-hook [] s = refl
outside-hook (e ∷ es) s =
    let s' : Stream = record s { hook = UseWebSocket.step e s.hook } in
    outside-hook es (scrolled s s') ∙ ap (UseWebSocket.run es) (hook-scrolled s s')

-- Pressing pause on a running stream freezes the feed: until it is pressed again nothing but `clear`
-- and the replies to polls that are in flight changes it.
pub pause_freezes :
    (throws : Bool) (es : List (UseWebSocket.Event FeedEvent)) (s : Stream)
    → s.paused ≡ false
    → Undisturbed es
    → (run (pause throws ∷ map outside es) s).hook.events ≡ s.hook.events
unfolding run act rerender UseWebSocket.step
pause_freezes throws es s p u =
    let o = options_of s.type_filters s.agent_filter (not s.paused) in
    let h = UseWebSocket.on_render throws o s.hook in
    let frozen = on_render-Frozen throws o s.hook (ap not p) in
    let later = run_stays es h frozen.3 u in
    ap (λ (k : UseWebSocket.Hook FeedEvent). k.events)
      (outside-hook es (record s { paused = not s.paused; hook = h }))
    ∙ later.0
    ∙ frozen.0

-- A message over an open socket, with auto-scroll on and the hook not paused: the feed is scrolled
-- back to its top if it holds fewer than 500 events, and is left where it is if it is full.
pub message_scrolls :
    (id : ℕ) (e : FeedEvent) (sock : Socket) (s : Stream)
    → find id s.hook.sockets ≡ some sock
    → sock.phase ≡ opened
    → s.hook.paused ≡ false
    → s.auto_scroll ≡ true
    → (length s.hook.events < 500
        → (act (outside (UseWebSocket.message id (some e))) s).scroll_top ≡ 0)
      × (length s.hook.events ≡ 500
          → (act (outside (UseWebSocket.message id (some e))) s).scroll_top ≡ s.scroll_top)
unfolding act UseWebSocket.step
message_scrolls id e sock s f o p a =
    let s' : Stream = record s { hook = UseWebSocket.on_message id (some e) s.hook } in
    let (reset, kept) = scroll_top-scrolled s s' a in
    let n =
      ap length (events-message id e sock s.hook f o p) ∙ length-take 500 (e ∷ s.hook.events) in
    ((λ less. reset (omega (arith, n))), (λ full. kept (omega (arith, n))))
