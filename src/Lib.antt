-- ===== src/Lib.antt =====
-- The verification of DRNavigator: Site-Manager (site-manager/), which manages the modes of the
-- services of a cluster for disaster recovery, and paas-geo-monitor (paas-geo-monitor/), which checks
-- the connection to other clusters.
--
-- Site-Manager. Services are declared by resources of Kubernetes. Legacy resources have three versions,
-- of which the third is the hub of the conversions (site-manager/api/legacy); new ones are SiteManager
-- resources (site-manager/api/v3). Webhooks admit them, reconcilers write their status, and the
-- manager reads both kinds into one dictionary, which the main API serves: the list of the services,
-- the status of a service with what it depends on, and the procedures that switch a service. The
-- manager asks the services over HTTP with a token that is read from a watched file; callers of the
-- API are authorised by a token review.
--   Config, Utils, Model       site-manager/config/config.go, pkg/utils/utils.go, pkg/model
--   Api.V1, V2, V3             site-manager/api/legacy/v1, v2, v3: CR, ConvertTo, ConvertFrom,
--                              GetServiceName; Api.Qubership is site-manager/api/v3
--   Http                       site-manager/pkg/client/http/http_client.go: DoGetRequest,
--                              DoPostRequest
--   Cluster                    site-manager/pkg/client/cr/cr_client.go
--   Manager                    site-manager/pkg/service/cr_manager.go: CRManagerImpl;
--                              Manager.Convert is convertToDict, Manager.Collect is
--                              collectServicesStatuses, Manager.Setup is NewCRManager
--   Token                      site-manager/pkg/service/handle_token.go
--   Validator                  site-manager/internal/controller/legacy/validator.go
--   Webhook                    site-manager/internal/webhook/v3/sitemanager_webhook.go
--   Reconcile                  site-manager/internal/controller: the two Reconcile methods;
--                              Reconcile.Store puts an API server, the webhook and the
--                              reconciler together
--   App                        site-manager/pkg/app/main_app.go: the handlers; App.Server is
--                              ServeMainServer, App.Statuses the status from body to response
--   Start                      site-manager/cmd/main.go: ServeApp, and
--                              config/kube_config/kube_config.go: GetKubeConfig; Start.Reading is
--                              what ServeApp reads first, Start.Threads the token watcher as a
--                              goroutine beside the main API
--   Start.Schemes              site-manager/api/legacy/v1, v2, v3 and api/v3: AddToScheme;
--                              cmd/main.go: init
--   Start.Setup                SetupCRReconciler, SetupWithManager and the functions that set the
--                              webhooks up, of site-manager/internal and site-manager/api
-- paas-geo-monitor. A configuration lists peers; each is resolved, asked by its service address and
-- then by the address of the pod that answered, and the three results are metrics and a report.
--   Geo.Peer                   paas-geo-monitor/pkg/resources/peer.go, and Resolve of
--                              pkg/client/client.go; Geo.Client is the rest of that file
--   Geo.Config, Geo.Peers      paas-geo-monitor/pkg/app/app.go: GetConfig; pingPeersStatus and
--                              getPeersStatusHandler
--   Geo.Peers.Turns            the same loop as goroutines, one for each peer, that take turns
--   Geo.Settings               app.go again: what Serve reads of the environment, pingHandler
--   Geo.Bgp                    paas-geo-monitor/pkg/bgp/bgp.go: UpdateBgpMetrics
--   Geo.Serve                  paas-geo-monitor/pkg/app/app.go: Serve, with the loop over BGP;
--                              cmd/root.go: ServeApp; pkg/bgp/bgp.go: GetClientSet
--   Geo.Logger                 paas-geo-monitor/logger/logger.go: the level of the log
--   Geo.Gauge                  the gauges of Prometheus that they set
-- The children of these modules hold the proofs, and Tests the runs on concrete inputs.
--
-- How the code is modelled. A method is a function of its receiver's state and of a state W of what is
-- outside (network, cluster, file system), and returns its result beside the state it leaves. Clients,
-- codecs, files and clocks are records of functions on W. A Go pair of a value and an error is a
-- Result, or a record of both where the code reads both. A pointer that may be nil is an Option, and
-- where the code would dereference nil the model says so (nil_dereference). Strings are texts; fmt's
-- verbs are written out. An int or int64 is an unbounded integer; the code copies and compares them,
-- and subtracts one timeout from a time. A Go map is an association list whose order stands for the
-- order of iteration. Logging, contexts and timeouts are left out.
--
-- Bounds and fuel. collectServicesStatuses recurses until each service has a status; its model runs on
-- fuel, one more than the number of services in the dictionary. Every level of the recursion below the
-- first stores a status of one more service, so the fuel is enough, and no result says otherwise. The
-- loop of the attempts counts down in the code too. The digits of a number are made on the number
-- itself as fuel. The endless loops, of the token watcher, of the checks of a peer and over BGP,
-- are modelled up to any number of events or rounds.
--
-- The start of both programs, and their goroutines. Reading the flags and files, and the calls that set
-- the frameworks up, are an Action, in the order of the code; an exit with the code 1 is its error, as
-- is a panic where the code raises one on purpose. What runs in goroutines afterwards is a list of
-- tasks, each of which is modelled on its own: the main API by its handlers, the token watcher by its
-- loop, the reconcilers and webhooks by their methods. Two kinds of goroutines are also modelled side by
-- side, for any order of their turns. The checks of the peers: a check is one turn, and each setting of
-- a gauge is one. The token watcher beside the main API: each request to a service, each list of
-- resources and each review of a token is a step, before which the watcher may take any turns, and the
-- calls of the API follow one another. The check of an admission and the storing of the resource that
-- it admits are one step. The client of the manager of controller-runtime may read through a cache;
-- where resources are stored and read again, its reads are taken to be up to date.
--
-- Not modelled: what the frameworks do between those calls (routing, leader election, queues), the
-- interleaving of other goroutines, the generated code, the messages of the logs and Site-Manager's
-- logger, the charts, and the client in Python.
mod Common
pub mod Config
pub mod Model
pub mod Api
pub mod Utils
pub mod Http
pub mod Cluster
pub mod Manager
pub mod Validator
pub mod Webhook
pub mod Reconcile
pub mod Token
pub mod App
pub mod Start
pub mod Geo
mod Tests
