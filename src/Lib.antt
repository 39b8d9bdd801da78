-- ===== src/Lib.antt =====
-- The observation front end of Tabulum, the pages under /observe: a React application that watches the
-- server's events, its shared state and the network of its agents.
--
-- The parts and how they interact. App shows the cards of ToolGrid, or the tool that the path of the
-- address names, under the bar of Nav. The tool LiveEventStream shows the feed of the hook
-- useWebSocket; StateBrowser and NetworkGraph show what the hook usePolling fetches. Each part is a
-- module here, after its file in tabulum.org/observe-app/src:
--   hooks/useWebSocket.js           UseWebSocket
--   hooks/usePolling.js             UsePolling
--   components/LiveEventStream.jsx  LiveEventStream, over UseWebSocket
--   components/StateBrowser.jsx     StateBrowser, over UsePolling
--   components/NetworkGraph.jsx     NetworkGraph
--   components/BackgroundCanvas.jsx BackgroundCanvas
--   App.jsx                         App, over ToolGrid, and Site
--   components/ToolGrid.jsx         ToolGrid
--   components/Nav.jsx              Nav
-- Site composes them: its state is that of App, the instance of the tool's component on the page, and
-- the instances that have been left. React alone mounts and unmounts, the user acts on what the page
-- shows, and what an instance has asked of the browser still reaches it when it has been left. There
-- NetworkGraph is the record of NetworkGraph/Component, the switches with the hook and the renderer.
-- Beside the application, scripts/prebuild-docs.js renders the documents to pages: PrebuildDocs is about
-- the headings that it finds, their ids, the table of contents that links to these ids,
-- `String.replace`, with which a page is made from the template, and the files that are written.
-- scripts/gen-og-image.js, which draws a still of the animation, is OgImage. The animation of
-- BackgroundCanvas runs behind every page; what it and the still draw is a list of the commands of
-- Drawing.
-- Prelude holds what they share: tests on numbers, lists measured by native numbers, texts, integers,
-- the properties that a JavaScript object inherits, and the fractional numbers of the drawing code.
--
-- State and operations. A component or hook is a record: its React state and its refs are fields, and
-- so are the things that the browser keeps for it and calls it back from, which are sockets,
-- timeouts, intervals and fetches in flight. A callback is a function from that record to itself,
-- named after the source: `connect`, `start_polling`, `on_message` and the effect with its cleanup in
-- useWebSocket.js, `fetch_data` in usePolling.js, `fetch_value` in StateBrowser.jsx, `navigate_to` in
-- App.jsx, `render_graph` in NetworkGraph.jsx. A data type lists the calls that React, the browser and
-- the user make, `step` or `act` makes one of them, and `run` a list of them: a property of `run` is
-- one of every interleaving. An `await` cuts its function in two, since other calls may come between:
-- what stands before it sends a request, what stands after it is the call that answers the request.
-- The rules of React that the components rely on are part of `step`: an effect runs after a render in
-- which one of its dependencies has changed, its cleanup before it, and on unmounting.
--
-- Ids of sockets, timeouts, intervals, requests and instances are numbers counted up by `next_id`; a
-- call that names an id that is not live changes nothing, as the browser makes no such call.
-- An int32 is its bit pattern below 2 ^ 32, with the wrap-around written out. Angles are thousandths of
-- a degree, in which 137.508 is exact; the source's floats stand close to these numbers, and the
-- rounded channels and hues are computed from the exact ones. Texts are sequences of code points,
-- which are the units of JavaScript for text of the basic plane. The types of the parsed events and
-- resources are parameters, as the server decides on them.
--
-- The drawing code is over a parameter `R` with the operations of `Floats`; a theorem names the laws
-- that it uses, which doubles have: `IsOrdered`, which holds with NaN too, and `IsExact` on small
-- integers. `Thousandths` is an instance to run the code with. Math.random is a sequence of numbers,
-- and a scene counts how many have been used. A function that indexes past the end of an array and
-- then reads a field has a result for the exception. What gen-og-image.js asks of the canvas library
-- and of the file system is the parameter `Platform`.
--
-- Every function is by structural recursion. The loops over an array that grows or is written to in
-- the loop, `move_from`, recurse on the rounds left, which begin as the length of the array; the search
-- for headings, `cut_from`, counts the characters of a match that are still to be passed over. Two
-- others recurse on a number of steps: `show`, which has one more than its number, above its count of
-- digits, and `search_hue`, which has the source's 12 attempts.
--
-- Not modelled: the libraries (React itself, d3, 3d-force-graph, marked), of which the rules and the
-- results above are used; the markup, of which the views keep the texts, classes and conditions; how
-- the simulation of the graph moves the nodes, and which zoom a gesture makes, whereas the forces that it
-- is given, the marks at the places that it yields and the transform are; dates, whose formatting is a
-- parameter; the encoding of a query, which stays a list of pairs; what a canvas draws for its commands;
-- the messages that the scripts print; the bundle under tabulum.org/observe, which is generated; and the
-- server.
mod Prelude
pub mod Drawing
pub mod UseWebSocket
pub mod UsePolling
pub mod LiveEventStream
pub mod StateBrowser
pub mod App
pub mod Site
pub mod ToolGrid
pub mod Nav
pub mod NetworkGraph
pub mod PrebuildDocs
pub mod BackgroundCanvas
pub mod OgImage
