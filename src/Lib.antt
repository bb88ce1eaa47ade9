-- ===== src/Lib.antt =====
-- ebpf-ssf-broker: a revocation pipeline. Tetragon reports a policy violation of a process in a
-- pod; the translator mints a CAEP Security Event Token (SET) for the pod's SPIFFE ID and posts it
-- to the actuator; the actuator appends the principal to the DENY AuthorizationPolicy of the mesh
-- and strips the label that keeps the identity alive from the pods. Service A probes service B
-- through the mesh and counts the answers, so that a revocation shows as a step from 200 to 403.
--
-- Parts and files. Each module with definitions has its theorems in children.
--   Base       numbers, lists, texts as byte lists, signed integers with int64 ranges.
--   Go         what the program uses of Go: strings.CutPrefix, TrimPrefix and Split (Strings),
--              strconv (Decimal), time (Clock, Ticker), net/http (Http), encoding/json (Json), the
--              attributes of log/slog (Log), time.Format with RFC3339Nano (Rfc3339).
--   Caep       internal/caep/set.go: the claims and NewSet (Set), EncodeUnsigned and
--              DecodeUnsigned (Jwt).
--   Environment  os.Getenv with a default, in the mains.
--   Logging    the ReplaceAttr of slog, in the mains.
--   Metrics    internal/metrics/metrics.go: Buckets, Route, Serve; client_golang's counters and
--              histograms (Series).
--   Actuator   cmd/actuator: the sync.Map (Dedupe), parseWorkloadID (WorkloadId), revokeInMesh
--              (Mesh), removeSpireLabel (Labels), metrics.go with nsToTime, headerTime and
--              pipelineSpans (Spans), eventsHandler (Events), resetDedupeHandler (Reset), main
--              from its environment to what it serves (Main), the requests of a whole life of
--              the process (History) and its metrics over them (Registry), concurrent calls
--              of revokeInMesh as a relation of steps (Race) and as schedules of their goroutines
--              over one API server (Concurrent), the two goroutines of a request (Goroutines),
--              whole requests at once with all their goroutines and the metrics (Server). What the
--              map looks like from outside is a quotient, the set of its keys (Dedupe.Keys).
--   Translator cmd/translator/main.go: buildSet (Build), postSet (Post), the loops (Loop), main with
--              its settings and its end (Main), the line of a posted event (Log).
--   Prober     cmd/service-a/main.go and metrics.go: PROBE_INTERVAL and call, the settings, the
--              loop over the ticker and its counter (Loop).
--   ServiceB   cmd/service-b/main.go.
--   Pipeline   the translator posting to the actuator: handle_message and receive over a transport
--              that is events_handler, or over a network (Network) behind which the process of
--              Server handles the requests of others at once (Streams); the log lines of both
--              (Logs); service B behind its sidecar (Sidecar), and the prober in front of it while
--              the pipeline revokes (Trial).
--   Examples   concrete inputs: a token format, an API server, pods, schedules.
--
-- State and operations. eventsHandler is events_handler on a State: the dedupe set, the stored
-- policies and the stored pods; its result is a Handled: the state after it, the response, the
-- calls into the metrics library and the last log line. revokeInMesh is revoke_in_mesh, whose
-- Outcome is Go's pair (bool, error). removeSpireLabel is remove_spire_label on the stored pods.
-- The translator's loops thread the world of the transport and list their log lines and sleeps as
-- Actions. What time.Now and uuid.NewString return is an argument (Now, Round).
--
-- Concurrency. net/http runs requests in parallel. Race has the shared dedupe set and the
-- principals that PATCHes appended, with any number of calls of revokeInMesh, and takes
-- LoadOrStore, the PATCH and Delete as its atomic steps; a lost answer and a Delete of the reset
-- are faults of that relation. Concurrent runs the calls themselves: run executes a schedule of
-- their turns, each an atomic step of mesh_step_at over the one dedupe set and the stored policies,
-- with Deletes of a reset between them. Inside one request the two goroutines of eventsHandler
-- share no variable and write different objects of the cluster: events_handler has one after the
-- other, and Goroutines has the steps of both under a schedule. Server puts it together: Serving is
-- the process with its metrics and with the place at which each of any number of requests stands
-- (RequestAt), and serve_slices executes a schedule of the atomic steps of all their goroutines, the
-- handler's own (advance: up to the start of the two, wg.Wait(), each call of a metric, the
-- response) and the two below it, with the Deletes of resets between them.
--
-- Parameters. The JWT library (Jwt), the API server's policies and pods (PolicyApi, PodApi), the
-- network (Transport), client_golang (CounterApi, HistogramApi), Istio's sidecar (Sidecar),
-- time.ParseDuration, grpc.NewClient and the Kubernetes configuration are arguments. What is
-- assumed of them are the records JwtLaws (what was signed is parsed back), PolicyLaws (an accepted
-- PATCH appends, a refused one appends or does nothing), PodLaws (the list shows the labelled pods,
-- an accepted patch strips the label), Network (an answered request is one of those that the
-- process of Server has answered so far in its schedule), CounterLaws and HistogramLaws (each series
-- counts its own calls) and Sidecar (a DENY policy that it has received answers 403, any other
-- request is forwarded); Refusals says whether an error of the PATCH may hide an effect. Examples
-- has an instance of each.
--
-- Bounds. Loops are structural recursion on lists, such as the messages of a stream or the passes
-- of the prober. Only main_loop of the translator, which ends by a signal, is on fuel, one for each
-- check of the context: as much as the number of the first check that sees the signal, and one, is
-- enough. Integers are unbounded, with int64 written out where Go has it: UnixNano wraps modulo
-- 2^64, Sub saturates, ParseInt refuses what does not fit. A text is the list of its bytes.
--
-- Simplified. json.Marshal copies bytes from 128 on. Header keys are canonical. A histogram
-- observation is the duration, not the float of its seconds, and a histogram is known by its count;
-- a counter is a number without a bound. ServeMux is a lookup of exact patterns. Errors are data,
-- their texts are not formed. Of the log, the actuator's last line of an event is modelled, and the
-- lines of the translator's loops as Actions, without the texts of errors. Registry has the requests
-- one at a time, Server at once. The prober's clock counts nanoseconds, and how long a call takes is
-- an input. The sidecar keeps the policies that it has received until the mesh pushes the present
-- ones; when that happens is an input (Gap), and how long the propagation takes is not limited.
--
-- Not modelled: the gRPC stream itself, timeouts, deploy, scripts, dashboards and test.
pub mod Actuator
pub mod Base
pub mod Caep
pub mod Environment
pub mod Examples
pub mod Go
pub mod Logging
pub mod Metrics
pub mod Pipeline
pub mod Prober
pub mod ServiceB
pub mod Translator
