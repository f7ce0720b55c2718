-- ===== src/Lib.antt =====
-- The verification library of faas-share: serverless functions that share GPUs on Kubernetes.
--
-- A function is a SharePod object. The operator (pkg/controller) turns it into pods; the
-- scheduler (pkg/scheduler) chooses a node and a GPU identifier for a pod and writes both into
-- it; the device manager (pkg/devicemanager) turns the identifier into a physical GPU, hands out
-- a port of the pod manager from a bitmap (pkg/lib/bitmap), and sends each node the list of the
-- pods of each GPU. The HTTP server (pkg/server) creates, scales and deletes SharePods for the
-- gateway, finds the address of a function for a call (pkg/k8s/proxy.go) and reads its logs
-- (pkg/k8s/logs.go).
--
-- Common and its children hold what the other files share: Boolean tests, lists, signed integers
-- with Go's int64 wrap-around, maps as association lists, and the functions of `strings` and
-- `strconv`, with `sort.Strings`. Kube holds the fields of the Kubernetes objects that the program
-- reads and writes.
--
-- Bitmap models pkg/lib/bitmap: Bitmap64 is Bitmap64 (a list of words below 2^64), RrBitmap is
-- RRBitmap. The loops run on the rounds that Go's loop bounds give them.
--
-- Scheduler.Resources models pkg/scheduler/sync_resources.go and resource_type.go,
-- Scheduler.Filters models filters.go, Scheduler.BestFit models scheduler.go, and
-- Scheduler.Controller models the handlers of controller.go. Scheduler.Queue runs them: the
-- informer events, the ticker and the workers, over a work queue that is an interface
-- (Kube.WorkQueue), since the client library implements it. The goroutines of syncNodeResources
-- and of ScheduleAlgorithmBestFit only meet under a mutex, so a run is a sequence of their
-- critical sections; the order is an argument, and the theorems hold for every order. The count
-- of a WaitGroup is a number, and a Wait that never returns is `none`.
--
-- DeviceManager.State holds what the goroutines of pkg/devicemanager share (nodesInfo and
-- nodeStatus) and the calls that leave the process. DeviceManager.Pool and its children model
-- gpupool.go (getPhysicalGPUuuid, removeSharePodDepFromList, createDummyPod and
-- getAndSetUUIDFromDummyPod), DeviceManager.Init its initNodesInfo, DeviceManager.Config
-- config.go (syncConfig, the registration of a node, the heartbeats), and
-- DeviceManager.Controller the handlers of controller.go. A handler is a function on the state;
-- `none` or `crash` is a panic. createDummyPod runs on the list of the answers that the cluster
-- gives, one for each Get. In removeSharePodDepFromList an argument says of each round whether
-- another goroutine holds the mutex at its last Unlock. ConfigClient models handleRequest of
-- pkg/configclient/config-client.go, the reader of syncConfig's messages; whether os.Create
-- answers a file is its argument Disk. DeviceManager.Session is clientHandler as a whole, on the
-- lines of a stream (Common.Lines), and ConfigClient.Session what the agent writes to it.
-- DeviceManager.Run puts the sections that run under a mutex after initNodesInfo one after the
-- other, in any order, a removal up to its last Unlock among them; DeviceManager.Run.Keeps and
-- DeviceManager.Run.Leaves are the induction over them. DeviceManager.Queue runs the handlers of
-- controller.go: the events of the informers and the workers, over the interface of a queue; a
-- deleted deployment is the event of its removeSharePodDepFromList, with the pods that the
-- lister answers.
--
-- Operator.Deployment models pkg/controller/deployment.go and getReplicas, with
-- pkg/k8s/securityContext.go and utils.go; Operator.Sync models the handlers of
-- pkg/controller/controller.go and service.go as the calls that they make, in order, and
-- Operator.Queue the events of its informer and its workers, over the same interface of a queue.
--
-- Secrets models pkg/k8s/secrets.go: Secrets.Client the client of the function secrets,
-- Secrets.Client.Contract the table that it promises and the laws of the Kubernetes API that it
-- needs, Secrets.Template ConfigureSecrets and ReadFunctionSecretsSpec on the pod template of a
-- deployment. A call of the API answers the store after it, or an error, for
-- any reason; the laws say what a call that comes through has done.
--
-- Server.Handlers and Server.Namespaces model the handlers of pkg/server (apply.go, delete.go,
-- list.go, replicas.go, health.go, namespaces.go). A handler is a function to the events that it
-- causes, in their order: what it writes and the calls that change the cluster; the status of a
-- reply is that of its first header. The answers of the API and of encoding/json are arguments.
-- Server.Routes is the table of server.go that gives each request its handler, with info.go and
-- version/version.go. Server.Deployed follows a posted function through the handler and the
-- operator.
--
-- Proxy models pkg/k8s/proxy.go; the goroutines that share the listers only meet under its lock,
-- and a lister that is set twice is the same. Logs models logs.go and log.go: the goroutines of
-- GetLogs and podLogs are a step relation on the state of its channels, so that the theorems hold
-- for every interleaving; Logs.Lines holds the functions on the lines. GpuId models NewGPUID of
-- pkg/apis/kubeshare/v1/types.go, a loop on rounds: twelve rounds for a letter are enough if each
-- draw of twelve indices holds that of a letter; without that the loop of the program runs on,
-- too.
--
-- float64 is a record of operations (Kube.Float64): the program compares, adds, subtracts, parses
-- and prints such numbers, and a theorem that needs a law of them names it as a hypothesis.
--
-- Settings models Read of pkg/config/read_config.go, the DeploymentConfig that main.go makes of
-- it, and MakeProbes of pkg/k8s/probes.go, whose only caller is commented out. The functions of
-- faas-provider that read the environment are parameters, in Settings.Provider.
--
-- Not modelled: the generated clients and deep copies (pkg/client, zz_generated), the commands
-- and their flags (cmd, main.go but for DeploymentConfig), the status of functions
-- (pkg/k8s/function_status.go, which nothing in the program calls) and makeResources, which
-- newDeployment does not call either; the profiles, whose code is commented out; the informers
-- and the set-up of the controllers and the port and time-outs of the server, and the printing of
-- logs, which are I/O or belong to the client library. ConfigureSecrets has no caller but its
-- tests; it is modelled for the contract that it states.
pub mod Bitmap
pub mod Common
pub mod ConfigClient
pub mod DeviceManager
pub mod GpuId
pub mod Kube
pub mod Logs
pub mod Operator
pub mod Proxy
pub mod Scheduler
pub mod Secrets
pub mod Server
pub mod Settings
