-- ===== src/Lib.antt =====
-- Verification library of the web frontend of Caronte, an analyzer of network traffic.
--
-- The frontend (frontend/src) is a tree of React components around one event dispatcher. The
-- header's filters, the timeline, the list of connections and the notifications talk to each other
-- only through it: a filter dispatches `connections_filters`, and every component that registered
-- a callback for that topic gets the payload, the sender included. Each component keeps a state,
-- replaced by `setState`, and some keep timers. Here a component's state is a record, each handler
-- a function on it, named as in the source in snake_case (a function that has no name there is
-- called for what it does), and a history is a list of events or a step relation. `setState` takes
-- effect at once. A text is the list of its UTF-16 code units, as in JavaScript; an object with names
-- that are only known at run time is an association list, in its order. A JavaScript null is the
-- none of an Option.
--
--   * Dispatcher: frontend/src/dispatcher.js. The state is the list of listeners. A callback is a
--     parameter, as a function on the dispatcher's listeners and a state of the program's that returns
--     or throws, so that callbacks may register and unregister while a dispatch runs, and end it.
--   * Utils: frontend/src/utils.js and frontend/src/validation.js. Utils/Numbers is cleanNumber,
--     validateMin, validateMax and validatePort; Utils/Validation the tests of colours, ports and
--     addresses; Utils/Curl createCurlCommand; Utils/Time the times of day, durations and timeRegex;
--     Utils/Headers getHeaderValue; Utils/Params updateParams over the URL's parameters.
--     Utils/Address is the regular expression of validateIpAddress, over the expressions and the
--     search of Utils/Regex.
--   * Connections: frontend/src/components/panels/ConnectionsPane.js. Connections/Window is the list
--     that is shown and its two cursors, as loadConnections merges a response into them. Its other
--     side is Connections/Server: the cursors of GetConnections in connections_controller.go, over
--     the stored connections as a list, newest first. The maximum of the list is a parameter where a
--     theorem holds for all of them; the program's is 200.
--     Connections/Loading is the pane around it: the loads under way, each waiting for the rules,
--     the services or the connections, and the handlers that start them. Connections/Entries is an
--     entry of the list and its dialog, frontend/src/components/objects/Connection.js and
--     frontend/src/components/dialogs/CommentDialog.js, beside the backend's connection;
--     Connections/Selection the selected connection and where the page goes on.
--   * Notifications: frontend/src/components/Notifications.js, with its timers as a list of those
--     pending and a step relation of messages, timers and clicks.
--   * Filters: frontend/src/components/filters/StringConnectionsFilter.js with its debouncing timer,
--     and its uses in frontend/src/components/Header.js and frontend/src/components/dialogs/Filters.js.
--     Filters/FlagFilters is BooleanConnectionsFilter.js and ExitSearchFilter.js of that directory,
--     beside the parameters of the connections list, which get the same payloads.
--     Filters/TagFilters is RulesConnectionsFilter.js and AdvancedFilters.js of that directory, and
--     frontend/src/components/objects/ConnectionMatchedRules.js.
--   * Timeline: frontend/src/components/Timeline.js. Timeline/Series is the points of the chart, from
--     loadStatistics; Timeline/Handlers the state and every handler, with the timers of selections;
--     Timeline/Loading the loads that the handlers start, each waiting for the services or the
--     rules and then for the statistics, with the chart and its styles.
--   * Rules: the rules' form of frontend/src/components/panels/RulesPane.js, with its validation.
--     Rules/Editing is its fields, which a selected rule locks in part, and the updates it sends.
--   * Searches: the search form of frontend/src/components/panels/SearchPane.js, with its request.
--     Searches/Printing is extractPattern. Searches/Editing is its fields, of which text and regular
--     expression lock each other as far as a library's widget of tags takes part, and
--     Searches/Backend what the backend accepts of its request (application_router.go,
--     search_controller.go).
--   * Services: frontend/src/components/panels/ServicesPane.js, and in Services/Store the services of
--     the backend (services_controller.go), as it serves the form's requests. Forms is how
--     these three forms keep an error.
--   * Pcaps: frontend/src/components/panels/PcapsPane.js, the captures and the forms that send them.
--   * Streams: frontend/src/components/panels/StreamsPane.js. The loads of messages are requests that
--     wait for their answers; Streams/Messages is what is presented of a message,
--     Streams/Highlight the regular expressions of highlightRules, whose validity is a parameter,
--     and Streams/Store the rules of frontend/src/model/rules.js. Streams/Actions is the buttons
--     beside a message: the window that shows an answer, and
--     frontend/src/components/dialogs/CopyDialog.js.
--   * Stats: frontend/src/components/panels/StatsPane.js, with its totals and what it renders.
--   * Fields: frontend/src/components/fields, what their handlers pass on to the forms.
--   * Exchange: a selection of the timeline on its way to the list, to the backend's filter by the
--     start of a connection (connections_controller.go), and back to the timeline.
--     Exchange/ServicePort is the port that the header's filter, the list, the services of its
--     entries and the timeline share.
--   * Main: frontend/src/components/pages/MainPage.js, which passes the connection that is selected in
--     Connections on to Streams. The route of a path, the path of an address and the print of
--     parameters are functions of the libraries, and parameters here.
--   * Application: what is around the panes. Backend is frontend/src/backend.js; Socket is
--     frontend/src/notifications.js, over the sockets that are not closed and the pending timers;
--     Setup is frontend/src/components/pages/ConfigurationPage.js; Pages is
--     frontend/src/components/App.js and the tutorial of frontend/src/components/panels/MainPane.js;
--     Outage is App.js beside the socket.
--
-- Prelude holds what the parts share: tests with Boolean values, equality as an instance, lists
-- measured by native numbers, texts, and integers.
--
-- Fuel: the loop over the minutes of the chart runs on it, a round for each minute between its two
-- times and two more, so that it never runs out however long the range is. The decimal numeral of a
-- number n runs on n + 1, since a division by ten makes it smaller. The updates of a numeric field
-- run on it, and two rounds are enough for numbers below 2^53, which JavaScript holds exactly. All other recursion is structural.
--
-- Not modelled: the markup that the components render and React's batching of updates; the network
-- and the backend, but for the cursors, what a rule's bounds mean (rules_manager.go), the
-- searches it accepts and the stored services; charts, routes, dialogs and the editor, which are
-- libraries; number formats that round floating-point numbers, and time zones.
pub mod Prelude
pub mod Forms
pub mod Dispatcher
pub mod Utils
pub mod Connections
pub mod Notifications
pub mod Filters
pub mod Timeline
pub mod Rules
pub mod Searches
pub mod Fields
pub mod Services
pub mod Pcaps
pub mod Streams
pub mod Stats
pub mod Exchange
pub mod Main
pub mod Application
