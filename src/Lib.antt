-- ===== src/Lib.antt =====
-- A model of a Media-over-QUIC program: the BBRv3 and BBRv1 congestion controllers of its fork of
-- quic-go with their statistics, and its MoQ Transport library, with the codec, the object streams,
-- the session, the relay, the two ends of a track and the WebTransport framing.
--
-- The parts. `quic-go-bbr` is a QUIC stack whose congestion controller is chosen at configuration
-- time; the acknowledgement handler calls the controller through `SendAlgorithm`. `moq-go` runs MoQ
-- Transport over QUIC streams. A session reads and writes control messages on a control stream with
-- `moq-go/moqt/wire`, whose numbers are those of `quic-go-bbr/quicvarint`; after the handshake it calls
-- the handler of its own role with each message. A relay's handlers share the session manager and the
-- streams of objects; goroutines that follow a stream pipe its objects to other QUIC streams. Session
-- streams are plain QUIC streams or those of a WebTransport session, which `moq-go/wt` upgrades from
-- HTTP/3 frames. A controller reports to a statistics collector, of which there are several.
--
-- The files.
-- - Bbr3: quic-go-bbr/internal/congestion/bbrv3.go. Bbr3/State holds `BBRv3Sender` as one record;
--   Bbr3/Filters the two filters; Bbr3/Signals, Bbr3/Estimate and Bbr3/Cycle the private methods,
--   each under its own name in snake_case; Bbr3/Events the constructor, the methods of
--   `SendAlgorithm` and the sequences of their calls (`Event`, `step`, `run`). Bbr3/Stats is
--   bbrv3_stats.go.
-- - Collectors: the other files of statistics in quic-go-bbr/internal/congestion. Collectors/Atomic
--   is stats.go, Collectors/StatsV2 and Collectors/Names bbrv3_stats_v2.go,
--   Collectors/StatsOptimized bbrv3_stats_optimized.go with its goroutines as steps,
--   Collectors/Wrapped and Collectors/Embedded the two kinds of wrapper in stats_wrapper.go;
--   Collectors/Calls lists the calls that they share. Collectors/Racing is UpdateRTT and the first
--   part of Collectors/Logging ShouldLog, a shared access at a time. Collectors/Agree,
--   Collectors/Queue, Collectors/Emptying, Collectors/Stopping, Collectors/Owed,
--   Collectors/Quiescent, Collectors/Overtaking, Collectors/Logging and Collectors/Transparent hold
--   the theorems.
-- - Bbr3/Calm and its children, Bbr3/Rounds and Bbr3/Window carry the facts from the parts of an
--   acknowledgement to the whole; Bbr3/Growth, Bbr3/Stall, Bbr3/Transitions, Bbr3/AckStates,
--   Bbr3/Expiry, Bbr3/Bounds and Bbr3/FilterLaws hold the theorems.
-- - Bbr1: quic-go-bbr/internal/congestion/bbrv1.go. Bbr1/State holds `BBRv1Sender` and what is computed
--   of it, Bbr1/Calls its methods and the sequences of their calls; Bbr1/Recent, Bbr1/Delivered,
--   Bbr1/Gains, Bbr1/Phases, Bbr1/ProbeRtt and Bbr1/Sent hold the theorems.
-- - Varint: quic-go-bbr/quicvarint/varint.go; Varint/RoundTrip and Varint/Padding hold its theorems.
-- - Wire: moq-go/moqt/wire. Wire/Params is parameter.go, intparameter.go, stringparameter.go and
--   object.go; Wire/Messages the messages and message.go; Wire/Codes, Wire/ParamLoop, Wire/Opening,
--   Wire/Replies, Wire/Contents and Wire/RoundTrip the round trips. Wire/Streams is stream.go,
--   trackstream.go and groupstream.go; Wire/Relaying and Wire/Headers hold its theorems. Wire/Groups
--   is the reading and piping of group streams. Wire/Within and Wire/Progress show that a parser which
--   succeeds has read something. Wire/Piping is the producer of a stream and its
--   follower as a step relation, and Wire/Losing the orders of their steps in which objects stay
--   unwritten.
-- - Session: moq-go/moqt/moqtsession.go and controlstream.go. Session/State is the session and the
--   handlers of messages, Session/Serve the loop `ServeCS`; Session/Dialing is moqtdialer.go with
--   what `Dial` returns; Session/Typed, Session/Steps, Session/Gate, Session/Dispatch and
--   Session/Handshake hold the theorems.
-- - Relay: moq-go/moqt/relayhandler.go, relaystream.go, sessionmanager.go and streamsmap.go.
--   Relay/State is the store, Relay/Calls the handlers and the sequences of their calls,
--   Relay/Forward what they do with data streams, where each goroutine that follows a stream is a
--   state of Wire/Piping; Relay/Quiet, Relay/Members, Relay/Refinement, Relay/Delivery,
--   Relay/Answer and Relay/Distinct hold the theorems.
-- - Client: moq-go/moqt/pubhandler.go, pubstream.go, subhandler.go and substream.go in Client/State;
--   Client/Circle composes them with the relay for a subscription, Client/Track for its objects.
-- - Web: moq-go/h3 and moq-go/wt. Web/Settings is settingsframe.go, Web/Frames frame.go, dataframe.go,
--   responsewriter.go and headerframe.go but for WrapRequest, which is Web/Requests; Web/Sessions is
--   header.go and wtsession.go, Web/Listener moq-go/moqt/moqlistener.go. QPACK, `net/http`, `net/url`
--   and `strconv` are the record `Http`.
--   Web/SettingsLaws, Web/FrameLaws, Web/StreamLaws, Web/RequestLaws, Web/UpgradeLaws and
--   Web/ListenerLaws hold the theorems.
-- - Prelude: shared names and lemmas; Prelude/Signed is the division of `int64`. The modules Runs
--   and StreamRuns: concrete runs.
--
-- State and effects. A method is a function from the old sender to the new one, and a method with a
-- result returns both. The pointers of a sender to its configuration, filters and statistics have
-- no other owner and are fields. A Go map is an association list or a function. A reader is the
-- list of the bytes that are left, and a result carries the value, the error and the reader after
-- the call. A panic is `none`, but that of `make` on an announced length, which a parser hands on
-- as the error `out_of_range`: the loop of the control stream then ends as `crashed`, Dial as
-- `dial_crashed`. Objects that Go code shares by pointers stand in a store under a number, and maps
-- hold the number. A handler runs as one step, which stands for its locks; what is written to a
-- control stream is kept in order, whichever goroutine writes it. A number that the code draws at
-- random is an argument.
--
-- Numbers. `uint64` sums and products wrap at 2 ^ 64, and so do the `int64` sums of the collectors,
-- which are kept in two's complement and divided with their sign by `quot64` where the source does
-- so (by a count of samples, which is taken not to come round to 0); differences stand behind the
-- guards of the source, or stop at 0 where it has a test for a sign. Times and durations are
-- nanoseconds from 0 on and are taken not to overflow; a round-trip time that is not positive is 0.
-- `float64` is a parameter (Bbr3/Float, Bbr1/Float): no theorem relies on a law of it, and the
-- concrete runs use fixed-point numbers with nine decimals. Readings of a clock are arguments.
-- Loops are structural recursion on a list or on the announced number. Three run on fuel:
-- `serve_cs`, the loop of the control stream, with one more than the bytes that arrive, since every
-- message takes a byte at least; `process_objects`, with one more than the objects of the stream;
-- and `settings_loop`, with the number of the settings where settings were written, while there are
-- payloads on which it never ends. The collectors' methods without a lock take one call at a time,
-- except where interleavings are modelled; an atomic operation is then one step.
--
-- Not modelled: printing, the `String` methods, the JSON of a snapshot and the hash of a connection
-- id, which only report; the API of MoQ Transport, which wraps the dialer and the listener;
-- addresses and certificates; the deadlines of streams and the opening of them; the goroutines of a
-- relay at once, but for a stream and its followers; memory that runs out for a slice below the
-- limit of `make`, which is that of 64 bits (`max_make` in Wire/Params); and the rest of the QUIC
-- stack, Cubic and the pacer included, which is a copy of upstream quic-go.

pub mod Prelude
pub mod Bbr3
pub mod Bbr1
pub mod Varint
pub mod Wire
pub mod Session
pub mod Relay
pub mod Client
pub mod Collectors
pub mod Web
