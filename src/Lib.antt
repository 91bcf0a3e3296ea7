-- ===== src/Lib.antt =====
-- The kvrocks operator keeps KVRocks resources of Kubernetes in the state that their specification
-- asks for. A resource is a sentinel deployment, a standard instance (one master with replicas in one
-- stateful set), or a cluster (a stateful set for each shard, with a kvrocks controller and its etcd).
--
-- Parts. The reconciler reads the resource and runs the handler of its type. A handler is made for one
-- pass: it holds the instance, its nodes and a flag that asks for a run again, and goes through its
-- steps until one fails or sets the flag. The handlers share commands on settings and monitors. They
-- reach Kubernetes, the kvrocks nodes and the kvrocks controller through three clients. The events run
-- beside the reconciler: sentinels report masters that are down, a queue holds one message for each
-- address, and a failover changes the topology in the resource's status, which is the only thing that
-- one pass leaves to the next beside the objects themselves.
--
-- Files, with the code that each models:
--   Base                  lists, text, decimals, maps, and Exec, the methods that return an error
--   Api                   api/v1alpha1/kvrocks_types.go
--   Kvrocks               pkg/client/kvrocks/kvrocks_client.go: Node; Slots: SlotsToString,
--                         SlotsToInt, InsertSlot; NodeInfo: parseNodeInfo of cluster.go
--   Resources             pkg/resources: Names, Labels, Configs, Validation, Containers (container.go),
--                         Services (service.go), Templates and Workloads (statefulset.go,
--                         deployment.go), Sentinel (GetSentinelInstance)
--   Client.Pods, .Objects the Kubernetes objects, with the fields that the operator reads or sets
--   Client.K8s            pkg/client/k8s, a wrapper for each function under its name; K8s/Lawful: what
--                         the code relies on of the API server, as a record of laws
--   Client.Controller     pkg/client/controller/controller_client.go
--   Client.Redis          pkg/client/kvrocks: standard.go, sentinel.go and cluster.go over the commands
--                         of the go-redis library, a parameter; Replies: how a reply's text is read
--   Client.Kv, .Env       the interface of pkg/client/kvrocks and all that is outside, in one record
--   Common                pkg/controllers/common: EnsureConfig, GetSentinel, RemoveMonitor; Sentinels:
--                         EnsureSentinel, GetOrCreateSentinel; Resize: ResizeStatefulSet; Reserve: the
--                         loop that picks the ordinals of a scale-down; PodRole: the role label
--   Sentinel              pkg/controllers/sentinel: Annotation (UpdateSentinelAnnotationCount), Handler
--   Standard              pkg/controllers/standard: State, Workload and Scaling (kubernetes.go),
--                         Replication (kvrocks.go) with Led, Followed and Created, the nodes and their
--                         pods behind it, Handler
--   Events                pkg/controllers/events: Queue (event.go), Producer (cron.go), Listener and
--                         Failover (handler.go)
--   Cluster               pkg/controllers/cluster: State, Workload, Topology and Shrink (kubernetes.go),
--                         Failover, Roles and Membership (kvrocks.go), Migration (rebalance.go),
--                         Deployment (controller.go), Handler (handler.go, sentinel.go)
--   Reconciler            pkg/controllers/kvrocks_controller.go
--   Operation             the passes and the goroutines of pkg/controllers/events together, as one system
--                         of steps: NewEvent and Run of event.go, consumer and the loop of listen
--   Messages (modules)    the queue of failover messages under each method of the cluster handler and of
--                         Reconcile, by the rules of Base.Exec.Preserves and Cluster.State.Messages
--   Examples              concrete instances and a server, and the theorems at them
--
-- How code becomes definitions. A method is a function of its receiver's state that gives a result and
-- a new state (Exec): an error and a panic are results, and what was written before them stays written.
-- An index out of range and a nil dereference are panics. Client calls change a world that is a type
-- parameter; the operations on it are fields of Env, about which the definitions assume nothing. A
-- theorem that needs a server to answer takes its laws as a hypothesis: Client.K8s.Lawful and .Claims
-- of the API server, Common.Settings.Answers and
-- Standard.Replication.Led.Replicates of the nodes, Common.Sentinels.Watches of the sentinels. Text is a
-- list of bytes. Maps are lists of pairs in a fixed order, where Go leaves the order open. Numbers are natural:
-- the int32 counts of a specification are taken to be non-negative, atoi is bounded by the largest
-- int64, and a difference that Go compares with zero is a comparison here.
--
-- Bounds. Loops are recursions on the lists that they range over. The loop that tries to move a slot
-- recurses on the tries that are left, five after the first one as in the code, and the loop over
-- migrate messages on the number of messages at its start, since each round removes one. The binary
-- search for an ordinal has as much fuel as places. SlotsToInt's loop over a run is modelled for an end
-- below the largest int: at that one Go's counter wraps around and the loop never ends.
--
-- Interleaving. Operation makes a round of the producer, a message that is heard and a failover one step
-- each, in any order: the code holds the event's lock while it registers a pod, adds a message that is
-- heard and deals with a failover. A pass takes no lock, and of what the others use it touches only the
-- queue, through SendFailoverMsg, whose look for the key and insertion are two steps (check and insert);
-- such calls may come at any time, beside the pass's own effect on the world. Operation's field raced
-- tells whether an insertion has met a key that came in behind the look. The channel of 1000 messages is
-- a list without a bound. A panic ends the process, and no step follows it.
--
-- Not modelled: main.go and the registration of watches; generated deep copies; the subscription of
-- SubOdownMsg and the cron schedule of the events, which are the library's; SetClusterNodeId of
-- pkg/resources, which draws random letters and has no caller; logging. Of the objects' metadata, API
-- versions and the UID of an owner are left out, and values of Kubernetes' own types that the operator
-- only copies (resources, tolerations, given affinities) are opaque texts.
pub mod Base
pub mod Api
pub mod Kvrocks
pub mod Operation
pub mod Resources
pub mod Client
pub mod Common
pub mod Sentinel
pub mod Standard
pub mod Events
pub mod Cluster
pub mod Reconciler
pub mod Examples
