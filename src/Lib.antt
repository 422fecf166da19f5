-- ===== src/Lib.antt =====
-- tln-db-k8s-operator: the controller of the TlnDB custom resource.
--
-- The program is a Kubernetes operator. A TlnDB resource describes a key-value database that runs
-- either as one StatefulSet (standalone) or as a leader and a set of followers (replicated). The
-- controller reads the resource, builds the Kubernetes objects that belong to it with pure
-- functions, creates or updates each of them through an API client, and writes what it finds to
-- the status of the resource.
--
--  - Base: Boolean tests, integers, dictionaries, decimal numbers and the text functions of Go
--    that the program calls (`strconv.ParseInt`, `strings.TrimSpace`, the verbs %d and %q).
--  - Kube: the fields of Kubernetes objects that the operator sets or reads, and `Platform`, the
--    types that it only copies and the functions that are not its own (resource quantities,
--    SHA-256, the Unicode table behind %q).
--  - Api: api/v1alpha1/tlndb_types.go, the specification and the status of the custom resource,
--    the API group of api/v1alpha1/groupversion_info.go and the types that the package registers.
--  - DeepCopy: api/v1alpha1/zz_generated.deepcopy.go. Alloc has the cells of memory and the loops,
--    Copyable a type with its copy and what a right copy is, Laws the rules that lead from the
--    fields to the struct, Foreign the copies of the Kubernetes types, which are parameters.
--    Availability, Networking, Observability, Storage, Workload, Spec, Status and Resource have the
--    structs and their methods, Structs the law of each. Package has all types of the package
--    together, Objects `DeepCopyObject`, and PatchBase is about the copy that the reconciler keeps
--    while it changes an instance.
--  - Resources: internal/resources, a file for each Go file. `build_…` is `Build…` or `build…` of
--    the source: common.go is Common and Hash, statefulset.go and pvc.go are StatefulSet with its
--    children Container and Volumes, service.go is Service. The other children state what the
--    built objects have to do with each other: Service.Routing, PortAgreement, Names,
--    StatefulSet.DataVolume, StatefulSet.Probes, NetworkPolicy.Egress, or what one of them computes:
--    Common.Ports, Hash.Stable, Hash.Sorted, ConfigMap.Lines, ConfigMap.Rendered,
--    ServiceMonitor.Targets, References.
--  - Controller: internal/controller/tlndb_controller.go. Exec has the steps of a method that
--    changes an object and may return an error; Environment has the API client and the helper
--    libraries as the record `Runtime`; Apply is the create-or-update helpers, Status is
--    setPhase, setCondition and syncStatus, Provision is reconcileResources with a function for
--    each of its blocks, Watches is SetupWithManager, and Controller itself is Reconcile and
--    reconcileDeletion. The other children are about these:
--     - Keeps and Safety: what a reconciliation keeps of the cluster, and what it creates there,
--       whatever the client answers;
--     - Outcomes and Success: what its operations return, and what they have done when they return
--       no error;
--     - Converge: how the helpers that compare before they write behave when they are called
--       twice. Unchanged has their common shape as a record of one kind of object, Kinds fills it;
--     - Total: what a reconciliation does on a healthy server, where every call succeeds or finds
--       nothing, from the first helper (Apply) to a whole reconciliation (Whole, Settled) and to a
--       deletion (Deletion). Managed is the table of the objects that an instance asks for, which
--       Total compares with the list that the reconciliation writes;
--     - Installs: what a provisioning creates where nothing of an instance is found yet. Table has
--       these objects in their order, EmptyServer the server;
--     - Rounds: how often the work queue calls Reconcile in a row.
--  - Manager: cmd/main.go. Options has the flags and the options of the manager, Manager itself the
--    calls of main with the manager of controller-runtime as the record `ManagerRuntime`; Tls and
--    Started are about the options and the exit status. Scheme is how the types of the API package
--    get into the scheme, with the scheme as the record `SchemeLibrary`.
--  - Examples: a concrete environment, and every property at a concrete input.
--
-- How the code corresponds. A Go pointer that may be nil is an Option. int32 and int64 are
-- integers: the program computes with them only by comparison, by a division of a positive
-- number, and by printing, so nothing overflows. A Go map is a dictionary, a list of entries with
-- the insertion of Go; the order of the entries is not observed except where Go sorts. The
-- object that a method changes through a pointer, `instance`, is the session's field
-- `instance_in_memory`: steps read it when the source reads it, and a status patch or an update
-- that succeeds replaces it by the server's answer. The cluster is a value of an unknown type,
-- `World`, that each call of the client may change and that its answer may depend on, so that
-- every call may fail, and other writers may act at any call. The proofs assume nothing about the
-- client but what a theorem names as a hypothesis.
--
-- One read of the source is simplified: a create is taken to leave the object that it is given as it
-- is, while the client writes the server's answer into it. This concerns the configuration hash,
-- which is taken of the ConfigMap after its creation.
--
-- Recursion is structural throughout, with two exceptions. Printing a number takes fuel for twenty
-- digits, which 64-bit numbers do not exceed. The calls of Reconcile in a row (Controller.Rounds)
-- take a bound on their number: two, one that may add the finalizer and one for the rest.
--
-- Hypotheses on the server are records with the documented behaviour as fields: `Healthy` (calls
-- succeed, nobody else writes meanwhile), `QuietSets` and `QuietKind` (what is written is read
-- back), `ShowsPhase` (so is the phase in a status patch), `Empty` (nothing is found and what is
-- created is accepted), `KeepsFinalizers` and `Releases` (the same of the custom resource, and what
-- the finalizer functions of controllerutil do). Examples has a cluster in memory for each.
--
-- Values of the model are immutable, and the reconciler's `instance.DeepCopy()` is there the value
-- itself. DeepCopy says what stands behind this: it has the same types once more as structs in
-- memory, whose pointers, slices and maps carry the address of the cell that they lead to, and the
-- copies as state passing over the first address that is free. A slice shows its whole backing
-- array, and its capacity is left out.
--
-- Not modelled: the parse of the command line and the logger of cmd/main.go, log messages of the
-- controller, and the charts, manifests and scripts.
pub mod Base
pub mod Kube
pub mod Api
pub mod DeepCopy
pub mod Resources
pub mod Controller
pub mod Manager
pub mod Examples
