-- ===== src/Lib.antt =====
-- A model of Amesh: the data plane agent that turns the xDS resources of a control plane into
-- routes and upstreams of Apache APISIX, the controller that tells the agents which plugins their
-- pods have, and the command that redirects the traffic of a pod.
--
-- The parts and how they interact. A provisioner receives xDS responses and answers each with an
-- acknowledgement, events and further requests. The Amesh provisioner receives plugin
-- configurations from the controller; the xDS provisioner writes them into the routes. Both make
-- manifests, which are compared with the last ones; the differences are events, and the agent
-- stores them in the shared memory that APISIX reads. The controller reconciles plugin configs with
-- its caches, finds the pods that they select, and sends each pod's configs on the stream of its
-- agent.
--
-- - Apisix: pkg/apisix. Apisix.Var is Var of base.go, Apisix.Plugin plugins.go, Apisix.Upstream
--   upstream.go, Apisix.Route route.go with Route.Copy; Apisix.Compare is CompareRoutes and
--   CompareUpstreams and Apisix.Nodes is IsSameNodes of utils/utils.go.
-- - Manifest: pkg/amesh/util/manifest.go, the events of pkg/amesh/types/types.go, and
--   generateIncrementalEvents of pkg/amesh/provisioner/xds.go.
-- - StringSet: pkg/amesh/util/string_set.go.
-- - Agent: storeEvents of pkg/amesh/agent.go over the interface of pkg/apisix/storage.go.
-- - Agent.SharedDict: pkg/apisix/storage, the storage over a zone of nginx and the one without.
-- - Commands: cmd/dynamic/main.go and cmd/standalone/main.go up to the start of the agent, with
--   Dief of pkg/utils/die.go. Commands.Alone goes on to the first connection of the standalone one.
-- - Amesh: updatePlugins and GetPlugins of pkg/amesh/provisioner/amesh.go.
-- - Amesh.Connection: NewAmeshProvisioner, Run and recvLoop of the same file. Amesh.Locks is the
--   lock of updatePlugins and GetPlugins with the channel of its events and one receiver for each
--   connection. Agent.Server,
--   Agent.Metrics and Agent.Create: the helpers of agent.go around its servers, and NewAgent.
-- - Xds.Create is NewXDSProvisioner with GenNodeId of pkg/xds/utils.go, Xds.Connection is Run, run
--   and the receiving loops of xds.go as a step relation, Xds.Connection.Sending is sendLoop as
--   another, Xds.Mirror is translateRouteMirror, which nothing calls, and Xds.Data is GetData with
--   the handler of the status server.
-- - System: the running agent as a step relation: Run of pkg/amesh/agent.go, translateLoop,
--   updatePlugins and UpdateRoutesPlugin on one state. System.Routes is about the routes that are
--   stored, System.Upstreams about the upstreams and System.Secrets about the secrets.
-- - Controller: the comparisons of controller/utils/compare.go, of which Controller.Requirements is
--   LabelSelectorEqual, which nothing calls. Controller.Selectors is
--   controller/utils/selector_cache.go; Controller.Reconciler, Controller.Notices,
--   Controller.Reconcile and Controller.Configs are
--   controller/controllers/amesh/ameshpluginconfig_controller.go, with types.go of
--   controller/pkg/types and status.go of controller/utils; Controller.Streams is
--   controller/pkg/grpc_server.go and instance_manager.go, and Controller.Agents and
--   Controller.Partial join its responses with the Amesh provisioner of an agent. Controller.Runs
--   and Controller.Served are the runs of the reconciler and of the streams as step relations, and
--   Controller.Told goes from a request of the reconciler to the streams. Controller.Notify and
--   Controller.Notified are about the events that a request of the reconciler sends.
-- - Iptables: cmd/iptables/main.go. Iptables.Rules reads the rules as iptables does: the first rule
--   of a chain whose tests a packet passes decides.
-- - Tests: sample data, runs at concrete inputs, and each result applied to one.
-- - Xds: pkg/amesh/provisioner/xds.go, translator.go, route_translator.go, cluster_translator.go
--   and endpoint_translator.go. Xds.Envoy has the messages with the fields that the code reads;
--   Xds.Patch, Xds.Match, Xds.Fault, Xds.Split and Xds.VirtualHost are the route translator,
--   Xds.Cluster the cluster and endpoint translators, Xds.Listener is GetRoutesFromListener,
--   Xds.Provisioner the state and the requests, Xds.Rds, Xds.Cds, Xds.Eds and Xds.Lds the branches
--   of translate, Xds.Translate the whole of it with a round of translateLoop and
--   UpdateRoutesPlugin, Xds.Loop is translateLoop over the responses that arrive, and Xds.Exchange
--   the exchange of requests and responses with a control plane as a step relation.
--
-- How the code is written down. A map is an association list that insert keeps free of repeated
-- keys; a loop over a map goes through it in that order, where Go leaves the order open. A nil
-- pointer is none, a nil slice is the empty list except in IsSameNodes, which tells them apart. A
-- call that fails gives ok, err or panic: a nil dereference, a write to a nil map and an index out
-- of range are panic. int32 of a uint32 wraps at 2^31. All loops are structural, so no fuel is
-- needed. What a method starts in a goroutine (a send to evChan or sendCh) is part of its result;
-- logging is left out. The address of an endpoint, which translateClusterLoadAssignment reads without a
-- test, is always there in the messages of Xds.Envoy: an endpoint without one makes the code panic
-- and has no counterpart here. Errors keep their text without the part that prints a type.
--
-- Parameters: encoding/json, the protobuf decoders, id.GenID, the names of the Envoy filters and
-- the text of a BoolValue stand for code that the repository does not hold. id.GenID makes a
-- checksum, so different names may have one id: where ids have to tell clusters apart, that is a
-- hypothesis on the names that are in use, not on all texts. The storage is a
-- parameter with the contract that a write is seen by the next read of its key, which
-- Agent.SharedDict fills from what is documented of the C function of nginx. For the controller
-- the client of Kubernetes, its listers, the label selectors, the keys of objects and the functions
-- on conditions are parameters, and what it tells others is a list of the calls it makes; the same
-- holds of the rule builder and the execution of commands of iptables. Each request of Reconcile
-- reads the API server anew, and requests are taken one at a time; a goroutine that waits to send
-- on a stream's channel is an entry of a list. Steps of System are taken one at a time: a batch of
-- events is stored before the next one is made, where the goroutines of the source could deliver
-- two batches in the other order.
--
-- Not modelled: gRPC itself and the HTTP servers, timers, the locks but for that of Amesh.Locks,
-- the C function of nginx's shared memory, which is a parameter, the parsing of flags, signals, the
-- demo with random data, the version text, the wiring of the controller manager, the Prometheus
-- registry, generated code, and the listening socket of the controller.
pub mod Prelude
pub mod Apisix
pub mod Manifest
pub mod Agent
pub mod Amesh
pub mod StringSet
pub mod Xds
pub mod System
pub mod Commands
pub mod Controller
pub mod Iptables
pub mod Tests
