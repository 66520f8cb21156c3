-- ===== src/Lib.antt =====
-- The Scaleway cloud controller manager: the load balancers of Kubernetes services, and the servers
-- behind Kubernetes nodes.
--
-- The program answers the Kubernetes controllers through two interfaces. `loadbalancers`
-- (scaleway/loadbalancers.go) makes, updates and deletes a load balancer for a service: it reads
-- the service's annotations (scaleway/loadbalancers_annotations.go), finds the load balancer by its
-- noted ID or by its name, converts the ports to frontends and backends, compares them with the
-- current ones, applies the differences, sets the access rules (scaleway/acl.go) and attaches the
-- private networks. `servers` (scaleway/servers.go) hands the questions about a node on to
-- `instances` (scaleway/instances.go) or to `baremetal` (scaleway/baremetal.go).
-- Apart from these, `syncController` (scaleway/sync.go) turns the tags of instances and of load
-- balancers into labels and taints. `cloud` (scaleway/cloud.go) makes all of them of the environment.
--
-- The files:
-- - Base: numbers, texts, lists, errors as values, maps as association lists, sorting, and the
--   parsers of strconv.
-- - Kube, Scaleway: the objects of Kubernetes and of the Scaleway APIs. Scaleway/Api has the calls
--   and the methods that make them: a method is a function of the history of calls to a result and
--   a longer history, and the service's answer to a call is an arbitrary function of the history,
--   so that a theorem holds whatever is answered and whichever call fails.
--   Scaleway/Api/Trace, Yields and Results are the laws of these methods: what they call, what else
--   holds of their results and calls, and what a success tells.
-- - Annotations: one function for each getter of scaleway/loadbalancers_annotations.go, in Ports
--   (lists of ports, values by port), Values, Network, Proxy and Health.
-- - LoadBalancers/Nodes, Convert, Equality, Compare, Controller, Lifecycle, Acls, Networks, Requests,
--   Update, Status, Ensure: scaleway/loadbalancers.go and scaleway/acl.go. A Go method fooBar is the
--   function foo_bar, and a part of a long one has a name of its own: EnsureLoadBalancer is
--   ensure_load_balancer, UpdateLoadBalancer is update_load_balancer_hosts, and updateLoadBalancer
--   is update_load_balancer. Compare/Convergence and Update/Convergence carry the operations of a
--   comparison out, LoadBalancers/Phases orders the calls of an update, LoadBalancers/Effects tells
--   what they change, and LoadBalancers/Managed follows the calls through all methods.
-- - Servers: ProviderId, Search, Interface, Instances, Baremetal and Dispatch, for
--   scaleway/servers.go, instances.go, baremetal.go and zones.go.
-- - Sync: scaleway/sync.go, with the parsers of tags in Tags, the labels and taints of tags in Labels,
--   the synchronisation of nodes and services in Controller, the loop over the queue of nodes in Queue,
--   and Run in Run: the events of its goroutines, in any order.
-- - Cloud: scaleway/cloud.go, client.go and version.go, with scaleway/logger.go in Logger and
--   cloudInitializer of cmd/scaleway-cloud-controller-manager/main.go in Initializer. A field of an
--   interface type is nil or holds a pointer, which may be nil.
-- - A child Laws holds the theorems of its module; Tests has the examples.
--
-- What is a parameter: time.ParseDuration, url.Parse, net.ParseCIDR, strings.Split at a longer
-- separator, the conversions and tables of the SDK (Scaleway/Packages), the environment, the APIs,
-- the validation of labels by k8s.io/apimachinery, and the present time. The compute APIs are
-- functions of the request alone, but for the server that a synchronisation reads. The SDK's client,
-- the levels of klog and what cloudprovider.InitCloudProvider returns are arguments too. The work
-- queue of client-go is an interface, WorkQueue; its documented laws are IsWorkQueue, where a key
-- counts as in the queue from the time that it is added, although it may be handed out later. Once
-- the queue is shut down, it ignores the keys that are added.
--
-- What is simplified: formatted error texts are abbreviated; letter case and white space are those
-- of ASCII; a range over a map takes the order of an association list, and two maps of annotations
-- are compared with that order; requests carry a resource whose unsent fields are blank; a
-- frontend's backend is kept by its forward port; rules are sorted by insertion, which agrees with
-- slices.SortStableFunc where the wrapping difference of the indices orders them; making the JSON of
-- a patch does not fail; an int has 64 bits. The loop of chunkArray runs on fuel, of which the length of the array is enough since
-- each round takes an element at least. The loop of runSyncQueue ends with the queue alone, and is
-- given the number of its rounds. All other loops are structural.
--
-- What is not modelled: the informers and their caches, which newSyncController makes, the timers of
-- Run, the registration of the provider, and the command line of main. All these are calls of other
-- packages. The goroutines of Run interleave node by node and service by service.
pub mod Base
pub mod Kube
pub mod Scaleway
pub mod Annotations
pub mod LoadBalancers
pub mod Servers
pub mod Sync
pub mod Cloud
pub mod Tests
