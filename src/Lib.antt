-- ===== src/Lib.antt =====
-- The providers of the OpenFeature SDK for Go: programs that answer evaluations of feature flags.
-- The parts modelled are the multi-provider, which puts several providers behind one; the
-- provider of GO Feature Flag with its evaluators, its cache and its collector of events; the
-- provider of flagd with its configuration and its two services, and its connector that polls a
-- URL; the client of the OFREP protocol; flags that are stored in the environment; the providers of
-- seven vendors; and the hook that compares versions.
--
-- Common                  lists, maps, texts and sums that the other modules share
-- OpenFeature             the types of github.com/open-feature/go-sdk. `Sdk` holds the functions of
--                         the SDK that the providers call and `SdkLaws` what they rely on; both are
--                         parameters, as the SDK is another repository.
-- MultiProvider           providers/multi-provider/pkg. Strategies is strategies/strategies.go and
--                         errors/aggregate-errors.go; FirstMatch, FirstSuccess and Comparison are
--                         the files of those names (evaluateFirstMatch is evaluate_first_match, and
--                         so on); Provider is providers.go and options.go. The strategies ask the
--                         providers through the functions of a `FeatureProvider`.
-- GoFeatureFlag           providers/go-feature-flag/pkg: Collector is
--                         manager/data_collector_manager.go and Cache is manager/cache.go. Api is
--                         api/api.go; what it makes of a response is what the polls of the
--                         evaluators see: Remote is evaluator/remote.go, which evaluates over a
--                         Cache, and Polling is evaluator/inprocess.go. Provider is provider.go,
--                         provider_options.go and hook, which gives its events to a Collector;
--                         Lifecycle below it is its Init and Shutdown, with the goroutines of the
--                         collector and an evaluator that is any Init and Shutdown.
-- HttpConnector           tools/flagd-http-connector/pkg: HttpConnector itself is http_connector.go,
--                         http_cache_fetcher.go and fail_safe_cache.go, Options is
--                         http_connector_options.go and the constructors.
-- Flagd                   providers/flagd: Cache and InMemory are internal/cache; RetryCounter, Rpc,
--                         Changes and Stream are pkg/service/rpc/{retryCounter,service}.go. Rpc keeps
--                         its answers in a Cache, Changes removes them, and Stream, the event
--                         stream, calls Changes and the RetryCounter. Environment and Configuration
--                         are pkg/configuration.go and Provider is pkg/provider.go, which makes one
--                         of the services from a configuration and follows its events.
-- Flagd.InProcess         providers/flagd/pkg/service/in_process: InProcess itself, Diff, Resolve and
--                         Sources are service.go, and Interleaved is its goroutines one access to
--                         shared state at a time; GrpcSync is grpc_sync.go. The data that GrpcSync
--                         passes on and the events in its channel are the inputs of InProcess, whose
--                         events are those that Flagd.Provider follows.
-- FromEnv                 providers/from-env/pkg: Eval is eval.go, Provider is env.go and
--                         provider.go.
-- Ofrep                   providers/ofrep/internal/evaluate: Resolver is resolver.go and Flags is
--                         flags.go, which evaluates what the resolver returns.
-- CodeReadiness           hooks/codereadiness/codereadiness.go, a hook of the SDK, which sees the
--                         metadata of an evaluation after a provider has answered it.
-- Vendors                 the providers over the SDK of a vendor, each of which is a parameter:
--                         Vendors.Flipt is providers/flipt/pkg, where Transport is
--                         service/transport/service.go and Provider is provider/provider.go over a
--                         service; Vendors.Statsig, LaunchDarkly, Flagsmith, Unleash and ConfigCat
--                         are pkg/provider.go of the providers of these names, and
--                         Vendors.Optimizely is providers/optimizely/provider.go. Details holds what
--                         they build alike.
-- Witnesses               the theorems at concrete inputs, with a small SDK that has the laws.
--
-- A goroutine with its channel is the list of the events that the receiving loop meets, in any
-- order: the theorems on the parallel strategies hold for every order in which the answers of the
-- providers arrive. A loop that waits for more events than there are has no result, which is a value
-- of its own. The goroutine of the collector is a step relation. Every loop is structural recursion
-- on its events or providers, so no fuel is needed. A panic is a value too.
--
-- Go maps are association lists in the order of their `range`. Numbers are the native naturals; an
-- int64 that may overflow is a word modulo 2 ^ 64. Floats and the values of other types are
-- parameters.
--
-- The services of flagd are lists of what happens to them, in any order: InProcess.run, GrpcSync.follow
-- and Stream.start_event_stream take one such thing after the other, and a cancellation is one of
-- them. Environment variables are a function from names to texts.
--
-- Not modelled: the dial options, the retry policy and the waits of Init and Shutdown of flagd's
-- in-process service, the requests of GO Feature Flag's provider, the hooks of open-telemetry and validator, and the providers of harness, prefab, rocketflag and aws-ssm,
-- which pass calls on to the SDK of a vendor. Logging is left out throughout, and so are deadlines but
-- those of the first-success strategy and of flagd's Init.
pub mod Common
pub mod OpenFeature
pub mod MultiProvider
pub mod Flagd
pub mod FromEnv
pub mod GoFeatureFlag
pub mod HttpConnector
pub mod Ofrep
pub mod Witnesses
pub mod CodeReadiness
pub mod Vendors
