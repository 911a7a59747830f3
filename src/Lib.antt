-- ===== src/Lib.antt =====
-- roommate-csi is a CSI node plugin that mounts one Secret or ConfigMap into a pod as a writable
-- directory: every data key is a file. This library models the mount (pkg/objectfs), the registry of
-- mounts (pkg/mounts), the pod's token (pkg/podtoken) and the node service (pkg/driver), and proves
-- what their callers rely on.
--
-- The parts. A volume keeps the newest known snapshot of its object in a cache. Reads are served from
-- it, and go to the API server when it has not been confirmed for too long. An open file is a handle
-- with a buffer of its own. Closing it commits the buffer as one merge patch, through the committer,
-- which checks the size first and lays the change over the cached snapshot behind the patch. A lock
-- on a file takes a coordination.k8s.io Lease, in the name of that handle; while it is held a loop
-- renews it, and a commit under a lease whose renewal fails is refused. A handle that gets the lock
-- reads the object again, so it sees what the last holder wrote.
-- Kubelet publishes a target once, and then again and again with new tokens. The node service mounts a
-- volume for a first publish and puts it into the registry, which also writes the target to a state
-- file; a republish only swaps the token that the volume's client sends. After a restart the state
-- file tells which targets were published before.
--
-- The files.
--   Prelude       the names that all files share; Tests, Lists, Bytes and Int below it
--   Map           Go's map[string]V as an association list
--   Number        the numerals of strconv and fmt that the program parses and prints
--   Snapshot      pkg/objectfs/snapshot.go: Get, Keys, Size, With (`with_changes`);
--                 Snapshot/Contents: maps up to the order of iteration
--   Keys          pkg/objectfs/keys.go: ValidKey, hashKey
--   Stores        pkg/objectfs/store_secret.go, pkg/objectfs/store_configmap.go: Decode, and the body
--                 of Patch; Stores/Client: NewSecretStore, NewConfigMapStore, Get, Patch,
--                 Describe, and what Watch asks for; Stores/Utf8: utf8.Valid of the
--                 standard library, which Patch calls
--   State         the state of a volume, and the interfaces of the API server and the host
--   Cache         pkg/objectfs/cache.go: Current, Set, setFromWatch, Fresh, MaybeFresh;
--                 Cache/Watch: watchOnce, and a round of Run (`run_round`)
--   Commit        pkg/objectfs/commit.go: Commit and checkSize (`oversize`)
--   Lease         pkg/objectfs/lease.go: TryAcquire, Acquire, Release, claimable, create, takeOver,
--                 startRenewal, renewOnce and a round of renewLoop (`renew_round`);
--                 Lease/Record: claimable, and what is written into a Lease;
--                 Lease/Cluster: the requests of any number of managers on one Lease, as steps
--   Sharing       the handles of many nodes that change one object under one Lease, as steps: the read
--                 of setlk, and the fence and the patch of Commit, over Lease/Cluster
--   Volume        pkg/objectfs/volume.go: ParseConfig and its helpers, NewLease;
--                 Volume/Assembly: NewVolume
--   Handle        pkg/objectfs/handle.go: Read, Write, truncate, commit (Flush and Fsync), Release,
--                 setlk (`lock` is its granting half), unlock, errnoFor
--   Files         pkg/objectfs/fs.go: the operations of Root and of File
--   Mounts        pkg/mounts/registry.go: NewRegistry, Get, WasPublished, Put, Delete (`remove`),
--                 Shutdown, persist; pkg/mounts/detach.go: DetachStale, isMountpoint
--   Token         pkg/podtoken/token.go: Extract, PodIdentity, RoundTrip (`authorize`);
--                 Token/Client: ClientFor, clearCredentials, wrapTokenAuth
--   Driver        pkg/driver/node.go: NodePublishVolume, publish, swapToken, NodeUnpublishVolume;
--                 Driver/Serializing: pkg/driver/targetlock.go, and the publishes that it serializes,
--                 as steps; Driver/RbacHint: pkg/driver/rbachint.go; Driver/Service:
--                 pkg/driver/identity.go, pkg/driver/server.go (Serve), NodeGetInfo and
--                 NodeGetCapabilities
--   Mounting      pkg/objectfs/mount.go: Mount, mountOptions, checkAtomicOTrunc
--   Program       cmd/node/main.go: main, newLogger, and one process after another
--   Tests         a small world to run them in, and the runs
-- The files below a part hold its theorems.
--
-- The state. What the goroutines of a volume share is one record, `Shared`: the cache's atomic
-- pointer, the sequence of lock holders, the mutex of the acquirers, the lease managers and the open
-- handles, each named by a number where the code has a pointer. An operation maps a state to a result
-- and a state; the state also lists the API requests that this goroutine has sent, newest first.
-- The API server and the host are parameters: a call of the API is an arbitrary function on all that
-- is shared, so it also stands for whatever other goroutines do while it is under way. Where the code
-- leaves its mutex without an API call, `others` stands for them. The kinds of error that the code
-- tells apart are constructors of `Error`.
--
-- The cache's Load and Store in setFromWatch, and in Commit after the patch, are one step. The values
-- of a patch are slices, which may be nil (`Slice`): a patch of a Secret then has a JSON null, which
-- deletes the key, and every other part reads a nil slice as no bytes.
--
-- The node service has a state of its own, `Node`: the registry, what its pointers to live mounts point
-- to, and the files. System calls and the calls of other packages are parameters there: those that
-- run under the registry's mutex change the host only, all others anything.
--
-- Three parts are also modelled as steps of many goroutines, in any order. In `Lease.Cluster.Step` the
-- managers of many nodes contend for one Lease: a request to the API server is one step, and the
-- manager learns of a write that was accepted in a later step, or never. The time that a write is
-- stamped with may be any time before it. The managers' clocks differ by fixed offsets. In
-- `Sharing.Step` the handles on those nodes read one object under their Lease and patch it: a handle
-- with unsaved changes keeps its buffer when it gets the Lease, and a patch leaves when the fence lets
-- it pass, and lands in a later step, perhaps more than once. In
-- `Driver.Serializing.Step` a critical section is one step, and a publish ends with its entry in the
-- registry or with an error.
--
-- Numbers. Times and durations are in nanoseconds; the clock is a natural number. Wrap-around is
-- written out where the code can meet it: the product of `parseSeconds`, the int32 of the lease's
-- duration, the uint64 of the sequence and of the inode hash.
--
-- Fuel. `Acquire` polls for as long as its context lives, so it has fuel, with `none` when that runs
-- out; it is enough when it exceeds the number of sleeps after which the context ends. Printing a
-- number has as much fuel as the number plus one, which exceeds the number of its digits.
--
-- A process of the plugin is a function of its flags and of a session: the calls that kubelet makes of
-- it, one by one, and how it ends. Only the files outlive it; a kill comes between two calls.
--
-- Not modelled: go-fuse and its inode tree, the gRPC server, client-go, the text of the log and of the
-- errors, which are parameters or left out; what JSON looks like, and the drift of clocks.
pub mod Prelude
pub mod Map
pub mod Snapshot
pub mod Keys
pub mod Stores
pub mod Number
pub mod State
pub mod Cache
pub mod Commit
pub mod Lease
pub mod Volume
pub mod Handle
pub mod Files
pub mod Mounts
pub mod Token
pub mod Driver
pub mod Sharing
pub mod Program
pub mod Mounting
pub mod Tests
