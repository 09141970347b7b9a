-- ===== src/Lib.antt =====
-- Verification of the media server's configuration, core, API, paths,
-- path manager, HLS server, streams and RTMP codecs.
--
-- The server keeps one path for each name under which a stream is published or read. The path
-- manager (internal/core/path_manager.go) owns the paths, finds the configuration of a name and
-- creates, reloads and closes paths; each path (internal/core/path.go) runs an event loop of its
-- own, in which publishers, readers and a static source (internal/core/source_static.go) meet.
-- Both are goroutines that serve one event at a time, so each is modelled as a state and a step
-- for each event; what the code sends on channels and calls outside is the list `sent` of effects.
--
-- Base holds what all parts share: Boolean tests, lists and sets of numbers over the native
-- numbers, texts as keys of Go maps, bytes and big-endian integers.
--
-- Conf.PathConf models the fields and methods of `PathConf` in internal/conf/path.go that paths
-- use, Conf.PathName `IsValidPathName`, with Conf.PathName.Laws on the names that it accepts.
-- Conf.Settings has all of `PathConf` that `checkAndFillMissing` reads or fills in, and Conf.Check
-- that function: Check.Source up to the switch over the source, Check.Path the rest, Check.Stages
-- what each stage keeps. The packages regexp and net and the two packages for URLs are the record
-- `Parsers`. Conf.General has `Conf` of internal/conf/conf.go, General.Paths its
-- `CheckAndFillMissing`, in which an int is a word of 64 bits, and the other modules below it what
-- an accepted configuration is like; General.Accepted meets what Core.Path relies on, and
-- General.Filled says what the check changes. Conf.Values
-- has the values of internal/conf and the texts that stand for them in JSON, Values.Laws what
-- becomes of a value that is written and read. Conf.Samples has configurations for tests.
--
-- Core.Path models internal/core/path.go. State has the struct `path` (`PathState`), its requests
-- and effects. Source has `sourceSetReady`, `sourceSetNotReady`, `doReaderRemove` and the start,
-- stop and reload of a static source. OnDemand has the functions on sources on demand,
-- `doPublisherRemove` and `handleReaderAddPost`. Handlers has `handleDescribe` to
-- `handleReaderAdd` and the two cases of `run` for static sources. Run has `newPath`, `run` and
-- `shouldClose`. A Go panic is a value (`panic`). `onDemandPublisherStop` and `doPublisherRemove`
-- call each other, which is bounded by a depth of 2; the depth is never used up, since running out
-- of it counts as a panic and no panic occurs. Core.Path.Invariant has the invariant of a path,
-- the proofs that each handler keeps it, and its consequences over a whole life.
-- Core.Path.Requests counts requests and answers. What the surroundings of a path are relied on
-- for is the definition `Allowed`: a timer fires only if it is armed; a static source reports only
-- while it runs, ready and not ready by turns; a publisher starts once; a reload brings a
-- configuration that differs in the camera and the credentials alone, and comes to no path whose static
-- source was never started. The code does not ensure the last, and reload_crashes shows what
-- happens then.
--
-- Core.StaticLoop models the goroutine of a static source, `run` of internal/core/source_static.go:
-- what its select receives, the goroutines that run the implementation, of which errors and the
-- taking of a configuration are all that is seen, and the pause before the next try. `can_come`
-- says which events can come.
--
-- Core.PathManager models internal/core/path_manager.go: Defs has its state and all cases of
-- `run`, Sets what the operations do to the two maps, Invariant their agreement, Events, Requests
-- and Reload the properties of events, Orphans what the two loops of a reload leave, Survive with
-- which configuration, Lives the whole life. Go's order of iteration over a map is the order of a list; `submatch` stands for the
-- regular expressions of the package regexp.
--
-- Core.Resources models `createResources`, `closeResources` and `reloadConf` of
-- internal/core/core.go, which keep the logger, the servers, the path manager and the API in step
-- with the configuration. Resources.Inputs says what each of these parts is given, when it is
-- wanted, and which settings close it, Resources.Defs runs the functions over the parts in the
-- order of the code, and Resources.Run has `New` and `run`, from the start to the end of the core,
-- with the use of a logger that is nil as a panic. What the path manager and the API were told last is
-- `manager_paths` and `api_told`. Resources.Laws says what a reload leaves, Laws.Told what the two
-- know, and Laws.Run what holds over the life of the core. Whether the constructor of a part succeeds is a parameter, and so
-- is the configuration that is loaded.
--
-- Core.Hls models the conversion into HLS: Hls.Muxer has the two goroutines of a muxer of
-- internal/core/hls_muxer.go, `run` and `runInner`, as the places where they stand, and Hls.Server
-- the event loop of internal/core/hls_server.go with all the muxers that it has created. A run is a
-- list of events, of which `can_come` and `server_can` say which can come: a select receives what
-- is sent, and a send waits for its receiver; a source may be ready while a muxer of its path is left.
-- What runInner converts is not modelled.
--
-- Core.Api models the requests of internal/core/api.go that change the configuration: Api.Fields
-- has the fields that a request may set, Api.Config the handlers, over Conf.General.Paths. The
-- decoding of JSON is a parameter; Clone drops what has no name in JSON, and sorts the IPs and the
-- methods of authentication.
--
-- Core.Stream models the stream of internal/core/stream.go, stream_media.go and stream_format.go:
-- the readers of each format, with the callbacks that get the units, and the packets that go to the
-- RTSP stream. Processors of formats are parameters, and so are the packets of a unit.
-- Stream.Readers says which readers get a unit.
--
-- Rtmp models parts of internal/rtmp. Reader has `io.ReadFull` over the bytes that are to come,
-- Chunk the four chunk types of internal/rtmp/chunk, RoundTrip their round trips, Truncated what a
-- stream that ends too early gives. Raw models internal/rtmp/rawmessage: Raw.Reader and Raw.Writer
-- have the two ends of a connection, with the state of each chunk stream; a reader that needs more
-- chunks goes on by fuel, which reading a message of n bytes needs n + 2 of, and the writer's loop
-- gets n + 1 rounds. When bufio takes bytes from the connection or sends them is not modelled, so
-- the counts in the two checks of acknowledgements are parameters. Raw.Rounds to Raw.Sequence
-- follow a message from end to end, and Raw.Stale what the writer keeps and the reader drops.
-- Message has the raw message and `allocateMessage`, Control and UserControl the control messages
-- of internal/rtmp/message, Media and Video the audio and video messages, of which the two frame
-- types of the package flvio are parameters, and Extended the extended messages. Messages has the
-- interface over all of them but the two that carry AMF0, whose codec is third-party, with a panic
-- as a value; Messages.Exchange has the reader and the writer of messages on top of Raw, and
-- Messages.Sequence follows messages from one to the other. Messages.ReadWriter joins a reader and a
-- writer, with the acknowledgements and the answers to pings, ReadWriter.Replies says what these
-- leave, and ReadWriter.Ping follows a ping and its answer. H264Conf has internal/rtmp/h264conf. A
-- byte is a number, one out of range 0, where the code has looked at the length before, and shifts and
-- masks of whole fields are products and remainders; Base.Bytes
-- relates the masks that remain to them.
--
-- Not modelled: the network protocols and their libraries, RTP, HLS and WebRTC, processes, logging
-- and files; of a path, the answers of the API; deadlines, of which only the firing of a timer is
-- seen; of a configuration, its loading from files and the environment, and the fields that no
-- check and no path looks at.
pub mod Base
pub mod Conf
pub mod Core
pub mod Rtmp
