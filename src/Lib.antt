-- ===== src/Lib.antt =====
-- ScoreArc shows football competitions: tables, brackets, matches and teams. This library models
-- the part of its TypeScript that decides what is true of a competition, away from rendering and
-- from the network: how tables are computed, merged, ranked and cut into zones, what a projected
-- bracket holds, what a page leads with, what counts as a team's record, which form stands beside
-- a table, and how incidents of stale data are recorded, sent and mailed.
--
-- The parts and how they interact. The data store reads provider or reader responses into the
-- records of src/server/data/types.ts (Model.antt), and src/server/data/competitions.ts says which
-- competition and season a page is about (Model/Registry.antt). Phase tables
-- (src/server/data/leaguesCupTables.ts, Tables/Phase.antt) and the league-wide table
-- (src/server/data/mlsTables.ts, Tables/Overall.antt) compute groups that no provider publishes;
-- src/server/data/derivedStandings.ts (Tables/Derived.antt) composes both and says how complete
-- the evidence is. Groups then feed the race of third-placed teams (src/lib/standings.ts,
-- Tables/Thirds.antt), the projected Liguilla (src/server/data/liguillaProjection.ts,
-- Tables/Liguilla.antt) and the zone bands of a table (src/components/zoneBands.ts,
-- Tables/Zones.antt). Lists of matches feed the priority buckets
-- (src/server/data/matchPriority.ts), the digest's block (`chooseWhatsOn` of src/lib/digest.ts)
-- and the wheel (`wheelOrder` and `initialIndex` of src/components/matchWheelModel.ts), all in
-- Matches/Priority.antt, and the record of a team (src/server/data/teamPerformance.ts,
-- Matches/Performance.antt). Stories (`collectStories` of src/lib/digest.ts) are in
-- Matches/Stories.antt and changed scores (`scoreChanges` of src/components/matchWheelModel.ts) in
-- Matches/Changes.antt. Knockout rounds become the rings of the radial bracket
-- (src/components/radialBracketModel.ts): Bracket.antt has the winners and picks,
-- Bracket/Leaves.antt the order of the leaf round, Bracket/Rings.antt the rings and
-- Bracket/Journey.antt a team's way through them. The matches endpoint checks its query
-- (src/server/data/matchQuery.ts, Sources/Query.antt) and its window
-- (src/server/data/dateRange.ts, Sources/Dates.antt) and its data passes a cache
-- (src/server/data/cache.ts, Sources/Cache.antt); the headers that say how fresh an answer is are
-- read by src/lib/matchFreshness.ts (Sources/Freshness.antt). In the browser, followed teams live
-- in local storage (src/lib/teamFollows.ts, Follows.antt), the calendar loads a month at a time
-- (src/components/matchCalendarState.ts and the effect of src/components/MatchCalendar.tsx,
-- Views/Calendar.antt), and a league table is split at its cut (src/components/splitByCut.ts and
-- groupRowClass.ts, Views/Cut.antt). The provider's tables
-- (src/server/data/providers/espn-standings.ts) are put in order (`inTableOrder`,
-- Sources/TableOrder.antt) and checked (`mapStandings`, Sources/Standings.antt) before any of
-- this, and the form beside a standings page (src/server/data/standingsForm.ts: Matches/Form.antt
-- says which editions have one and over which days, Matches/Form/Reading.antt has the memberships
-- and the windows of matches that are read, Matches/Form/Teams.antt the forms and the whole load)
-- composes tables, date windows and unique matches.
--
-- Incidents of stale data pass three programs. A scheduled check reads a competition's status,
-- headers and body (`checkScope` of scripts/match-freshness-watchdog.mjs, Alerts/Observed.antt).
-- The monitor (scripts/match-freshness-monitor.mjs) keeps a state between runs: Alerts/Run.antt
-- validates a run, Alerts/State.antt has the state and `validateState`, Alerts/Monitor.antt is
-- `prepareMonitor`, which turns results into events and reserves those to send, and
-- Alerts/Delivery.antt is `deliverMonitor`, which drops what the receiver acknowledged. The
-- receiver (infra/alert-receiver/worker.ts: Alerts/Receiver.antt has `handle`, Alerts/Payload.antt
-- `isEvent` and Alerts/Pattern.antt the regular expressions) stores each event once and mails it.
-- Alerts/Notification.antt is the request by which the monitor sends an event, and
-- Alerts/Mailed.antt puts both together.
--
-- Correspondence. A function keeps its name in snake case: `thirdPlacedRanking` is
-- third_placed_ranking, `computePhaseTables` is compute_phase_tables, `toBands` is to_bands,
-- `prioritiseBy` is prioritise_by, `teamPerformance` is team_performance. A `for` loop is a
-- function by clauses over the list, with the state that its rounds change as an argument; helpers
-- named in the code's words are its branches. A Map or Set is a list in order of insertion; the
-- mutable rows of the phase tables are found by the club's id, so that a club drawn against itself
-- writes one row, as in the code. Null, undefined and NaN are `none`. A non-null assertion that
-- could fail is an answer of its own (`crashed` in Tables/Liguilla.antt). An error that is thrown
-- is a value: of a result type where the code has several (`rejected` and `without_stats` in
-- Sources/Standings.antt, `failed` in Matches/Form/Teams.antt), else of Option. `sort` is a stable
-- insertion sort by a comparator whose sign is read as JavaScript reads it, and `||` between
-- comparators is or_else.
--
-- Numbers. Scores, counts and ranks are natural numbers; differences, and points that a provider
-- may deduct, are integers. Sums of goals stay far below the 53 bits of a JavaScript number, so no
-- rounding is modelled; a quotient of goals by matches is kept as its two numbers.
--
-- Parameters. `localeCompare` is a collation: a comparator with the laws of an order. `new
-- Date(text).getTime()` and `Date.parse` are a function from text to an optional instant; in
-- Matches/Performance.antt it is defined exactly on what `isMatchKickoff` accepts. Followed teams
-- take `validTeam`, `trim` and the length of a saved text as parameters, and a stored text is its
-- length with what `JSON.parse` makes of it; the bracket takes `toUpperCase` and the decimal text
-- of a number. What a store answers, and with it a failed or an aborted read, is a function in
-- Matches/Form.antt. In the alerts an instant is a number of milliseconds, an id is its epoch and
-- its number; the size of the state's text, the order of texts, the text of a number and of an
-- instant, the answers of the receiver to the monitor and the failures of the receiver's database
-- and mail service are arguments, and an event's payload is the event. The theorems hold for every
-- such parameter.
--
-- Fuel. The loop over bands of `toBands` moves its cursor forward by one or more in each round, so
-- as many rounds as the table has rows are enough; bands_from takes that number, and its tiling
-- theorem reaches the last row, which a run short of fuel would not. The inner search for the end
-- of a run has the rows that are left as its bound. The loop over windows of matches takes the
-- days of its scope and one more as fuel, moves back by a day or more in each round, and is proved
-- to end before the fuel does. Nothing else needs fuel: the eviction of the cache, the unfolding
-- of a bracket and the reading of digits recurse over the entries, the rounds and the number of
-- digits, all other loops run over lists.
--
-- Not modelled: the Go backend, the React views and pages, translations and locale routing, the
-- requests to third-party services, and the decoding of their JSON. The choice of a data source,
-- the windows made from a clock, the scoreboard's windows, the sharing of one read of the forms
-- between requests, the bracket's coordinates and the identities of teams and players are not
-- modelled either. Of the alerts, the lock and the atomic write of the state's file, the
-- environment of a run, the request to the receiver, the bounded reading and JSON decoding of
-- bodies and the text of the mail are left out.
pub mod Prelude
pub mod Model
pub mod Tables
pub mod Matches
pub mod Bracket
pub mod Follows
pub mod Sources
pub mod Alerts
pub mod Views
