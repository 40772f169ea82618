-- ===== src/Lib.antt =====
-- The configuration, the hydration, the virtual lab, the controller and the connectivity matrix of
-- Hedgehog Fabricator.
--
-- `hhfab` reads a wiring diagram, gives every node, switch, link and gateway its addresses and ASNs
-- (hydration), and later tests the fabric against a matrix of the connectivity that it expects. The
-- parts:
--
--   Netip              what the program uses of Go's net/netip, and the parsers of api/meta/netip.go
--   Wiring             the objects of the wiring and the Kubernetes client, as parameters
--   Status             `getHydration` of pkg/hhfab/hydrate.go: Status.Nodes, Status.Switches,
--                      Status.Links and Status.Gateways are its loops, Status.Claims the tests of one
--                      address that they repeat, Status.Types its maps, counters and errors
--   Allocate           `hydrate` of pkg/hhfab/hydrate.go, with a module for each of its loops
--   Ensure             `ensureHydrated` of pkg/hhfab/hydrate.go, which runs the other two
--   Matrix             pkg/hhfab/matrix.go: `Add`, `Lookup`, `Validate`; Matrix.Overlay is
--                      `OverlayMatrixNAT`, Matrix.Replace `ReplaceServerEndpoints` of
--                      pkg/hhfab/endpoints.go
--   Fab                the Fabricator object of api/fabricator/v1beta1/fabricator_types.go: Fab.Default and
--                      Fab.Targets are `Default`, Fab.Validate and Fab.Users `Validate`, Fab.Ready
--                      `IsReady` and `IsGatewayReady`; Fab.Nodes is `Validate` of controlnode_types.go
--                      and fabnode_types.go; Fab.Load `GetFabAndNodes` of
--                      pkg/fab/fabutil.go; Fab.Hydration and
--                      Fab.Hydrated tie the object and its nodes to hydration
--   Controller         pkg/controller/fabricator_ctrl.go: Controller.Reconcile is `Reconcile`,
--                      Controller.Check and Controller.Components `statusCheck` and the watcher
--                      `Start`, Controller.Install `EnforceKubeInstall` of pkg/fab/comp/kube.go;
--                      the other modules say what the cluster is left with
--   Vlab               pkg/hhfab/vlabbuilder.go: Vlab.Build is `Build` of `VLABBuilderDefault`, with
--                      its checks in Vlab.Options and its loops in Vlab.Leafs, Vlab.Servers,
--                      Vlab.Fabric and Vlab.Externals; Vlab.Rail is `Build` of `VLABBuilderGPURail`,
--                      Vlab.Ports and Vlab.Create the methods of `VLABBuilderBase`
--   Reach              pkg/hhfab/testing.go: Reach.Servers is `IsServerReachable`, `IsSubnetReachable` and
--                      `IsExternalSubnetReachable`, Reach.Peerings the checks of the two kinds of
--                      peerings, Reach.Populate `populateConnectivityMatrix`, which fills a Matrix;
--                      Reach.Permitted and Reach.Decided say when one peering, and a
--                      composition of checks, answers yes
--   Action             a method that changes a state and may fail, and rules for what it leaves
--   Strings            what is used of Go's strings and strconv
--   Common, Samples    helpers, and the small fabric that the tests run on
--
-- State. The local variables of `getHydration` are the record `Seen`; a `map[netip.Addr]bool` is the
-- list of its keys. `hydrate` passes its cursors on as arguments. The store of the Kubernetes client is
-- a parameter `Kube` with the calls that the code makes; each may fail. A string field that holds an
-- address is modelled by what net/netip reads in it: nothing, a text that it refuses, or a prefix.
-- An error is a constructor for each message, with the object that it names. A function that fails
-- returns the error alone: what it had changed of the configuration or the store before is not
-- modelled, since the callers give up.
--
-- In the controller the cluster is a state of any type, and the calls of the client are functions of it
-- that return a result and the state they leave, an error too. What the controller relies on of them is
-- the records `ApiLaws`, of conditions and writes, and `ReadLaws`, of reads: they are from a
-- cache and give some version of the object that the cluster has or had. Where a theorem needs a read of
-- the stored object, `IsFresh` is among its premises. The state also lists the installs that were begun.
--
-- The builders of a virtual lab keep the tracker of the interfaces, the number of the next switch and
-- what the loader holds; the list of the switches with too many interfaces is what they log. A device
-- is a switch or a server with its name. Their counts are `uint8`; a loop over a `uint8` up to 255, of
-- which the condition always holds, is an error in the model, and so is an index out of range.
--
-- Numbers. An ASN is a `uint32` and the last octet of a gateway's MAC a `uint8`; both wrap where the
-- code increments them. Counters are `int` in the code and do not overflow for lists that fit in memory.
-- All loops are over slices and maps, and are recursion on lists: no fuel is used. A map is an
-- association list, and where the code ranges over a map, the order of the list is any.
--
-- Reachability reads the cluster through the record `ReachApi`, which has for each read its result or an
-- error. An error of the code that wraps `reachCheckUnsupported` is `unsupported`, any other is `failed`.
-- The record is a snapshot: what the cluster changes while the checks run is not modelled.
--
-- Not modelled: the syntax of addresses, the log, the text of messages, and everything that runs
-- commands or virtual machines, or that makes the objects that the controller installs. The struct
-- validator, the `fmeta` package and the functions of `lo` are parameters. In the matrix, a pointer to an endpoint is an
-- endpoint with an identity, and a dropped endpoint is its text.
pub mod Common
pub mod Controller
pub mod Netip
pub mod Vlab
pub mod Wiring
pub mod Status
pub mod Action
pub mod Allocate
pub mod Ensure
pub mod Matrix
pub mod Reach
pub mod Samples
pub mod Strings
pub mod Fab
