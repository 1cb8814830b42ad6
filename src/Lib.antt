-- ===== src/Lib.antt =====
-- A model of kubecon2018, a Kubernetes operator that provisions clusters by the tool `rke`, and
-- the theorems on it.
--
-- The program creates its two resource definitions (main.go), builds a clientset and registers
-- four controllers on one shared informer of Cluster objects (controllers/controller.go). The
-- provisioner takes keys from a work queue, runs `rke up` where a cluster's file differs from the
-- configuration that was applied, and `rke remove` where the cluster is deleted, which its
-- finalizer holds up until then. The health checker sets the condition Ready, the config generator
-- keeps a Kubeconfig object for each provisioned cluster, and the annotator notes the version that
-- the cluster's API server tells.
--
-- Files and sources:
--   Api               pkg/apis/clusterprovisioner: the objects
--   Platform          what the program calls and does not implement, as the fields of a record:
--                     errors, files, processes, the API servers, the work queue, the condition library
--   Platform/WorkQueue
--                     a work queue by the keys that are to be handled and those being handled
--   Platform/Laws     the documented behaviour of these, by which theorems are conditioned
--   Platform/Versions the versions by which the API server tells an update of an older object
--   Platform/Shared   a server that other clients write to between the program's calls
--   Platform/Served   the platform with the typed client of clusters over a server of requests; its child
--                     Kubeconfigs has that of Kubeconfigs
--   World             the process: a heap of Cluster objects, which the informer's store shares, the
--                     queue, the commands run, the text printed, and the state outside
--   World/Retry       the loop of three updates, which five functions of the controllers write out
--   Client/Clientset  pkg/client/clientset/versioned: NewForConfig, NewForConfigOrDie, New, the getters,
--                     setConfigDefaults
--   Client/Objects    what the controllers ask of a typed client, and the law by which a server keeps
--                     objects by name
--   Client/Typed      pkg/client/clientset/versioned/typed: the clients of the two resources
--   Client/Fake       the same, for tests, in its folder fake; its child Simple has NewSimpleClientset
--                     of versioned/fake
--   Client/Scheme     v1alpha1/register.go, RegisterDeepCopies, versioned/scheme, versioned/fake: the
--                     types that a scheme knows
--   Client/Lister     pkg/client/listers: the listers of both resources
--   Client/Informers  pkg/client/informers/externalversions: the factory; its child Resources has
--                     ForResource and the getters of group and version, its child Sources the list and
--                     watch functions of an informer
--   DeepCopy          pkg/apis/clusterprovisioner/v1alpha1/zz_generated.deepcopy.go, on a memory of
--                     slices; its child Pointers has DeepCopy and DeepCopyObject
--   TaskQueue         util/util.go; its child Run has Run and the channel workerDone
--   Provisioner       controllers/provisioner/provisioner.go: sync, handleClusterAdd,
--                     handleClusterRemove, updateAppliedConfig, getConfigStr; its child Command has
--                     executeCommand, printLogs, provisionCluster and removeCluster, its child
--                     Finalizers initialize, finalize and containsString
--   Healthchecker     controllers/healthchecker/healthcheck.go
--   Annotator         controllers/annotator/annotator.go
--   ConfigGenerator   controllers/configgenerator/config_generator.go; its child FilePath has
--                     getKubeConfigPath
--   Controllers       controllers/controller.go and the four functions Register; Controllers/Runs: the
--                     steps of the program as a whole; the commands that they run in
--                     Controllers/Reasons, the applied configurations in Controllers/Earned;
--                     Controllers/Sends: what the handlers send to the API server;
--                     Controllers/Delivered and Controllers/Released: from an event of the informer
--                     through the queue to the provisioner; Controllers/Handover: from the config
--                     generator to the readers of its Kubeconfigs
--   Concurrent        the handlers of all four controllers by their steps; Handlers and Provisioning have
--                     them, Undisturbed compares them with the handlers as functions, and Interleaved
--                     has the process with any number of them at work, on which Cores is; the others are
--                     lemmas
--   Startup           main.go: run, createCRDS; its child Main has main
--   Tests             a concrete platform that meets the laws, and the theorems at concrete inputs
--
-- A method is a function from its arguments and the state of the process to its result and the new
-- state. A `*Cluster` is an address: where the program writes to an object that the informer handed
-- out, the model writes to the cell that the store shares. An error is a value, `none` or `some e`,
-- and a function that returns a value or an error returns a Result. A handler is a function that
-- runs as a whole, as the single worker runs those of the provisioner; Controllers/Runs has the
-- sequences of such runs of all four controllers. What other clients do at the API server between
-- two calls of a run is part of what the calls leave outside the process (Platform/Shared). For the
-- handlers that are at work at the same time, on one object of the informer's store, each handler
-- is also a Task: a step is one call, or the reads and writes of an object that stand together with
-- no call between them, and the steps of all that are at work follow each other in any order
-- (Concurrent). The controllers' calls of the API server are operations of the platform, with the
-- interface of Client/Objects, which the typed clients and those for tests fill; Platform/Served
-- has the platform that such a typed client gives. The deep copies are modelled on a memory of
-- their own: in the process a copy of a Cluster is a new cell of the heap with the same value. A
-- list of strings stands for a nil slice and an empty one alike; a map may be nil.
--
-- The laws on what the API server keeps tell it but for the objects' versions, which it sets
-- itself; a server that refuses updates of older versions is described by Platform/Versions, and
-- the runs against it are in Provisioner/Unrecorded, Provisioner/Recorded, Provisioner/Twice,
-- Provisioner/Settles, Provisioner/Interrupted and Controllers/Stale; Controllers/Course has the
-- runs of all controllers with an informer that lags behind such a server. The version field
-- itself is neither read nor written by the program.
--
-- Bounds: the retry loop makes three calls, as written; the worker, which never ends by itself, is
-- a run through its next n items; the endless sleep of `run` is the outcome `serving`.
--
-- Not modelled: log lines, two reads or writes of memory at the same moment, the wire format of the
-- REST calls, the codecs that are made of a scheme, and vendored libraries beyond their laws.
pub mod Prelude
pub mod Api
pub mod Platform
pub mod World
pub mod DeepCopy
pub mod Client
pub mod TaskQueue
pub mod Provisioner
pub mod Healthchecker
pub mod Annotator
pub mod ConfigGenerator
pub mod Controllers
pub mod Concurrent
pub mod Startup
pub mod Tests
