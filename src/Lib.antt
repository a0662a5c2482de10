-- ===== src/Lib.antt =====
-- FuelTracks: GPS trackers send packets over TCP to `tcp-server/server.js`, which has a port for each
-- protocol, parses the packets and publishes positions and alerts to Redis; `writer/server.js` stores
-- them and `backend/` serves the web interface. This library models the Concox protocol, from the
-- bytes of a socket to what is published, with the devices of the repository's own simulator at the
-- other end; the parsers and ports of the text protocols; the writer; and of the backend the location
-- and alert subscribers, the sockets, the access control, the rate limiter, the vehicle controller and
-- the SQL that the models put together.
--
-- The parts and their files, each with the source that it models:
--   Concox/Crc: the check sum (tcp-server/parser/concoxCrc.js, `crcItu`). Crc/Table has the table,
--     Crc/Register the shift register that it tabulates, Crc/Detection what the sum tells apart.
--   Concox/Tables, Concox/Fields, Concox/Packets, Concox/Parsers: the tables, the field decoders, the
--     objects and the sub-parsers of tcp-server/parser/concoxParser.js (`decodeImei`, `parseGpsBlock`,
--     `parseLogin`, `parseHeartbeat`, `parseLocation`, `parseAlarm`, `parseInfoTransmission`).
--   Concox/Frames: `parseConcoxBuffer`. `round` is one round of its `while` loop, `dispatch` its
--     `switch`, `packets_of` its `try … catch`. Frames/Wire has the layout of a frame, and the other
--     children the proofs: Progress, Remainder, RoundTrip, Sound, Stream, Imeis.
--   Concox/Acks: `buildLoginAck`, `buildHeartbeatAck`, `buildAlarmAck`, and `buildConcoxFrame` of
--     scripts/deviceSimulator.js. Concox/Devices: the other functions of the simulator's Concox devices.
--   Ascii: the text protocols BSTPL-17 and AIS140. Ascii/Bstpl is tcp-server/parser/normalParser.js and
--     alertParser.js, Ascii/Ais140 is ais140Parser.js, Ascii/Router is index.js, Ascii/Coordinates is
--     tcp-server/utils/gpsConverter.js with the time parsers, Ascii/Validator is packetValidator.js.
--   Server/TextPort: `createProtocolServer` (its `data` handler) and `processPacket` of
--     tcp-server/server.js.
--   Server/Caps: the connection caps of tcp-server/server.js (`tryAcceptConnection`, `trackImeiSocket`
--     and their inverses).
--   Server/Session: `createConcoxServer` of tcp-server/server.js. Session/Process has what the handlers
--     do (`advance` is one step between two `await`s, `process_concox_packet` the `switch` of
--     `processConcoxPacket`), Session/System the step relation over all sockets and handlers, and
--     Handlers, Publish, Accounts, Replies, Backpressure and Stream the proofs.
--   Backend/RateLimit: backend/middleware/rateLimit.js. The root has `TokenBucket`, RateLimit/Requests
--     `getBucket`, the timer, `rateLimit` and `applyAuto`, Limits and Bounded the proofs.
--   Backend/Access: backend/middleware/auth.js and rbac.js (`authenticate`, then `authorize`).
--   Writer: writer/server.js and the consumer loop of backend/streams/redisStreams.js. The root has the
--     buffers and rows, Vehicles `resolveVehicle`, System what happens between two `await`s, Steps the
--     step relation; Balanced, Settled and Stuck have the proofs.
--   Backend/Location: backend/subscribers/locationSubscriber.js. Polygon has `isPointInPolygon`, Alerts
--     the checks, Entry `processBatch` for an entry, the vehicle cache and `publishLocation` of
--     tcp-server/publisher.js; Polygon/Box, Alerts/Fenced, Alerts/Idle and Published have the proofs.
--   Backend/Alerts: backend/subscribers/alertSubscriber.js and `dispatchAlert` of
--     backend/services/notificationService.js; Delivered has the proof.
--   Backend/Sockets: backend/sockets/trackingSocket.js and `belongsToOrg` of
--     backend/models/vehicleModel.js. The root has the handlers, System the step relation of a socket
--     and the database; Owned, Allowed, Kept and Confined have the proofs.
--   Backend/Vehicles: backend/controllers/vehicleController.js with the statements and routes that it
--     needs. The root has the tables and tests, Handlers a function for each handler; Refusal, Isolated,
--     Served and Warmed, below Handlers, have the proofs.
--   Backend/Sql: the batch statements of backend/models/gpsModel.js and the updates of geofenceModel.js
--     and routeModel.js; Updates has those of vehicleModel.js, groupModel.js, userModel.js and
--     orgModel.js; Bound and Assigned have the proofs.
--   Metrics: shared/metrics.js, the metrics and their text. Observed and Peak have the proofs.
--   Js: what the code uses of JavaScript: buffers with their exceptions, text as code points,
--     `parseFloat`, `parseInt`, strings, `Map`. Prelude: shared names, tests, lists, integers, bits.
--     Tests: the theorems at concrete inputs.
--
-- How the parts interact: a `data` event appends its chunk to the buffer, `parse_concox_buffer` takes
-- the complete frames off it with the session's IMEI, and a handler takes the packets one by one. The
-- session's IMEI is set by a login and read by the parser and by every other handler of the socket, so
-- that the order of the handlers matters; the `Step` of Session/System allows every order, and more
-- than Node does, since a handler may also stop between two packets.
-- A position that a port publishes goes to a stream and, as the vehicle's state, to a key
-- (`publish_location`); the writer and the location subscriber read the stream and find the vehicle of
-- an IMEI in a hash in Redis, which the vehicle controller writes; the subscriber sends the position to
-- the rooms of the vehicle and of its organization (`emit_to_vehicle`, `emit_to_org`), and a socket
-- hears it if it is in the room (`hears`).
--
-- Bounds and fuel: `parse_loop` has fuel equal to the length of the buffer, which is enough since a
-- round that does not wait takes a byte or more (Frames/Progress). `info_loop` has fuel equal to the
-- number of bytes, which is enough since a round takes its sub-type byte. Numbers are natural numbers,
-- with masks where the source masks; a coordinate is a count of 1e-7 degrees, the precision to which
-- the source rounds, and a voltage a count of 0.01 V. `take_packets` has fuel equal to the length of
-- the buffer, which is enough since a round takes a delimiter (TextPort/Chunks). Numbers that the text
-- protocols spell are exact decimals, where the program rounds them to doubles. In Backend/Location
-- coordinates are natural numbers too, counted from the south pole and the antimeridian; in
-- Backend/RateLimit tokens are counted in parts, so that a refill is exact. An id or a number in a
-- payload of the web interface is an integer or a text.
--
-- Parameters: `date_parse` is what `new Date` makes of a text, `verify` what `jwt.verify` makes of a
-- token, `json` what `JSON.parse` makes of an entry, `within` the haversine test, `accepts` whether
-- PostgreSQL runs the statement for these states. The promises of the publisher, Redis and the database
-- end as the step or the `Outcomes` say, fulfilled or rejected; in Backend/Location Redis answers, and
-- in Backend/Alerts an `Attempt` says how `XACK` ends: where it fails, no entry is acknowledged. A
-- request of Backend/Vehicles runs without another one in between.
--
-- Not modelled: the connection and close handlers of the text ports, `publishAlert` and
-- `publishRawMessage`, the HTML part of an email, the controllers but that of the vehicles, and of that
-- one the list of all vehicles and the audit log, the models' fixed statements and filters, the
-- disconnection of a web socket and an event of it without a payload, and the frontend, which is the
-- user interface; console output, socket timeouts, and the metrics that only repeat a counter.
mod Prelude
pub mod Js
pub mod Concox
pub mod Ascii
pub mod Server
pub mod Backend
pub mod Metrics
pub mod Writer
mod Tests
