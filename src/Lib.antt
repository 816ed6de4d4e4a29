-- ===== src/Lib.antt =====
-- The mr1v1 platform: matches of one player against another on game servers in containers.
--
-- The program's parts. Agents run game servers in Docker containers, and report to the
-- backend (mr1v1-server) with a heartbeat. The backend keeps agents, matches and users in
-- PostgreSQL, picks an agent and a port for a new match, and serves a REST interface. The
-- management console (mr1v1-manager-frontend, React) is its client: it lists agents, matches,
-- maps, players, images, rooms and feedback, edits the settings of agents and players, and
-- asks for the state of a running game server. The two parts meet in the settings of an agent:
-- the console writes the range of ports and reads the versions, the backend's scheduler reads
-- both. Players meet in rooms of a mini program, whose service (wxserver) asks the backend for a
-- match once both have confirmed.
--
-- Where each part is modelled. Paths are from the repository's root; `pages` is
-- mr1v1-manager-frontend/src/pages.
--
-- Base has the names of the standard library in use, lists and options on native numbers, and
-- the lemmas that the other modules share.
-- Js has what the console uses of JavaScript. Js.Text has strings as lists of UTF-16 code
-- units, split, join and trim; Js.Num the numbers; Js.Parse `Number`, `parseInt` and the
-- printing of numbers, with their round trips; Js.Dict sets and objects used as maps.
-- Console.Agents: pages/AgentsPage.tsx. Ports has parsePortRange, serializePortRange and
-- portCount; Versions has compareVersions and the latest version; Page the state of the page
-- with openEdit, its inputs, handleSave and the requests; Containers the table of containers.
-- Console.Matches: pages/MatchesPage.tsx. Page has the state with fetchLogs, fetchServer,
-- refreshServer, handleExpand and the replies; Requests the requests that wait and the steps
-- of the page with them; Views the expanded row and its tabs; Rules the search and the order
-- of the rules; Duration fmtDuration.
-- Console.Fetch: the loading of a list, which the other pages share. Console.Maps,
-- Console.Users, Console.Images and Console.Lists: pages/MapsPage.tsx, pages/WxUsersPage.tsx,
-- pages/RehldsConfigPage.tsx, and pages/WxRoomsPage.tsx, pages/FeedbackPage.tsx and
-- pages/LegacyPlayersPage.tsx.
-- Console.Shell: mr1v1-manager-frontend/src/App.tsx, mr1v1-manager-frontend/src/api.ts
-- and pages/LoginPage.tsx: routes, menu, the interceptors of requests and replies, and the login.
-- Server.Scheduler: mr1v1-server/internal/backend/backend.go, compareVersions (Versions) and
-- pickAgentPort. Choice says what a valid choice is, and Same what two requests are given that read
-- the same tables. Dialog joins the scheduler to the
-- console's port settings, and Settings has handleUpdateAgent, which stores them.
-- Console.View: what a page draws, as data: its buttons, its table and its dialogs, with the event
-- that each click makes. The modules View of Console.Users, Console.Maps, Console.Images,
-- Console.Lists and Console.Shell, and Console.Matches.Table and Console.Agents.Table, have the
-- pages, each with a function `click` from its events to its handlers. Offers and Warning are
-- about what can be clicked, expanded rows included, and about the warning of the agents' dialog.
-- Server.Room: mr1v1-server/internal/wxserver/room/hub.go, the room in which a creator and a
-- joiner of the mini program meet, confirm and are given a match. A task is what a goroutine does
-- from one taking of the hub's lock to the next; Steps has what each task does, and the steps of
-- a room in which any number of goroutines take turns (the model lets one connection's messages
-- overlap, which the code does not). The confirmation of the other player, which Connect reads
-- after the lock, is read in the same task. Connections stand for the slot objects that they
-- make. OneMatch, Leave and Again are about matches being made, about leaving, and about
-- repeated confirmations, and Ends about the fuel of one goroutine's work. Manager is
-- mr1v1-server/internal/wxserver/room/manager.go, the map of hubs, and Crossed is about a hub that
-- is given out while it is being found empty.
-- Server.Rooms: mr1v1-server/internal/wxserver/store/store.go, the table of rooms and its
-- statements, and the sweep of mr1v1-server/cmd/miniprogram-backend/main.go. Handlers has the
-- requests of mr1v1-server/internal/wxserver/handlers/rooms.go and internal.go beside it; Steps
-- all changes of the table in any order, those of a deleted player among them; Lookup and Fit
-- lemmas on rows; Join, Race and Leave are about players who join, create and leave rooms; Ended puts the consumer and the rooms
-- together, Late the report that the container stopped beside them, and Hub the hub and its row.
-- Server.Consumer: mr1v1-server/internal/consumer/consumer.go, which writes the events of the game
-- servers to the database and tells the rooms' service of scores and ends. Whether a statement
-- succeeds is an argument, one that fails changes nothing, and columns that are only stored are
-- one list. Once and Rows are about repeated messages.
-- Server.Status: onStatus of mr1v1-server/internal/backend/backend.go, an agent's reports on the
-- container of a match, on the same table of matches.
-- Server.Timeouts: the sweep of matches that time out and dispatchDestroy of the same backend.go,
-- with the room of the match that is told. Later puts rounds of the sweep and reports of agents
-- in any order.
-- Server.Gateway: mr1v1-server/internal/gateway/gateway.go, the queue between the HTTP requests of
-- the game servers and MQTT.
-- Server.Creation: handleCreateMatch of the same backend.go, the row and the command of a new
-- match; Ports is about the ports that two requests are given.
-- Server.Agent: mr1v1-server/internal/agent/agent.go, createMatch and teardownMatch; Untold is
-- about a container that cannot be started.
-- Server.Images: handleActivateRehldsConfig, handleCreateRehldsConfig and activeRehldsImage of
-- the same backend.go, the table of images of the game server.
-- Server.Accounts: players, their sessions and their feedback in internal/wxserver/store/store.go, with
-- the requests of auth.go, middleware.go, user.go, legacy.go and RoomWS of rooms.go in
-- internal/wxserver/handlers (Handlers) and the two requests of the console in backend.go (Manage).
-- Steps runs the statements in any order, since requests interleave; Lockout is about disabled
-- players, Undeletable and Delete about deleted ones, Integrity about the tables after any
-- statements, and Page about the page of players as a client of these requests. Server.Rows has the
-- lemmas on rows that the tables share. Server.Rooms.Entry joins RoomWS to the table of rooms.
-- Server.Guard: authMiddleware, handleLogin and handleLogout of backend.go; History has the
-- sessions as a list of events.
-- Server.Maps: the pool of maps of backend.go and the list of internal/wxserver/handlers/maps.go.
-- The database's choice of a random row is the interface RandomRow. Valid, Pick and Off are about
-- the pool after any changes.
-- Server.Rcon: mr1v1-server/internal/rcon/rcon.go, a command to a game server; Answered is about one
-- that answers.
-- The statements on concrete data are in the module Examples.
--
-- How state and operations correspond. The state of a React component is a record with a field
-- for each of its useState and useRef, and a handler is a function from that record to the next
-- one, beside the requests that it sends. An await ends the handler, and what follows it is a
-- function of the reply, so that replies come in any order: Console.Matches.Requests has the
-- waiting requests and a step relation. Antd's Form.validateFields is an argument that holds
-- the values it resolves to, or nothing when it rejects. A query of the scheduler's is a
-- field of a record of tables, which says with `none` that it fails. The requests on rooms do
-- their statements one by one, and others may come between: what a query saw is an argument of
-- its own, which need not be the table that a later statement changes, and so is whether each
-- statement succeeds. Server.Rooms.Steps lets queries see anything.
--
-- Bounds and fuel. A number of JavaScript is NaN or an integer, and the theorems that need
-- exact integers ask for them below 2 ^ 53; texts that `Number` reads as fractions, with an
-- exponent or as infinite are left out. A time is a natural number of seconds. A load, which
-- is a quotient of floats in Go, is compared as an exact fraction. The digits of n are
-- computed on n + 1 steps of fuel, one for each division by ten and one more. The tasks of one
-- goroutine run on fuel too, and every statement on such a run gives its result from the least
-- fuel on that it asks for. All other functions are structural.
--
-- Parameters. What dayjs makes of a date, and the seconds that it counts; the comparison
-- localeCompare of the host; rand.Shuffle of Go, which the theorems ask to permute its list; the
-- reply of createMatch, which is a match or an error; the random id, password and map of a
-- match; json.Marshal in the gateway; the age of a match that is swept; the datagrams of a game
-- server; whether Docker starts and removes a container; what WeChat makes of the code of a login;
-- the rows of matches that are expanded; the row that PostgreSQL picks at random (RandomRow).
--
-- Not modelled: icons, widths, paging and styling; the SQL text of queries; those of the backend's
-- handlers that only list rows, the query of a game server, and the heartbeats
-- of agents; the mini program's lists of rooms and match records, random names, pictures and legacy
-- players, and the HTTP request of createMatch; the client of the game server's query protocol, which
-- is a copy of another project's library; the game server's plugins; the built bundle.

pub mod Base
pub mod Js
pub mod Console
pub mod Server
mod Examples
