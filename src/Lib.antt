-- ===== src/Lib.antt =====
-- cain injects CA certificates into pods. A mutating webhook adds volumes, an init container that
-- builds the CA bundle, mounts and environment variables to labelled pods; a validating webhook
-- asks, through channels, for the secret and the certificate that such a pod mounts; two workers
-- for secrets and one for certificates take these requests and call the API server.
--
-- The files, and the code that they model (paths from the root of the repository):
-- Metadata: metadata/extractor.go. An `Extractor` is the record of the keys;
-- `is_injection_enabled`, `family`, `jvm_common_name` and the others are the methods of the same
-- names.
-- Webhook/Owner: `rootOwner` of webhook/utils.go, as `root_owner`, with the loop over the
-- references, `follow_owners`. Its children define the objects above an object, and hold the
-- proofs.
-- Webhook/Config: `CASecret.UnmarshalText`, `NewContainerResources` and `ToK8S` of
-- webhook/utils.go.
-- Webhook/Mutator: webhook/mutator.go. Handler has `Mutate` and `injectCA`, Volumes
-- `addCASecretVolumes` and `getCASecretVolumes`, Sources the loops over the secrets, Env
-- `addJVMSecretAndEnv` and `addPythonEnv`, State the constants and `Mutator`. The functions return
-- the pod that the code changes in place. The steps of `injectCA` are chained: `inject_ca`,
-- `inject_jvm`, `inject_python`.
-- Webhook/Validator: webhook/validator.go; `World` holds the channels and the API server.
-- Secrets: secrets/creator.go and secrets/deleter.go; Certificates: certificates/certcreator.go.
-- The loops over the channels are functions of the list of requests that come through them; New
-- has the constructors. Secrets/Promise says what a worker promises of one request, in terms of
-- the store of secrets.
-- Metrics: metrics/prometheus.go, with the methods as one function of the call, `record_call`.
-- Setup: `setupWebhooks` and `getPodNS` of cain.go; the part from the extractor on is
-- `build_webhooks`, that from the recorder on `serve`. Startup: `main` and the first half of
-- `run`, as `main`, `run` and `start`; the part from the workers on is `start_workers`, that from
-- the metrics handler on `start_servers`.
-- Run: the second half of `run` of cain.go, the pool of goroutines, as the step relation `Step` on
-- a `Process`; a closing of the three channels by a review is one step, and connections that the
-- webhook server has accepted bring reviews until `Shutdown` has returned nil. Run/Shutdown has
-- what never ends, Run/Return how a run can end.
-- System: theorems on the two webhooks and the workers together. System/Pipeline interleaves them:
-- its `Move` is a step of a review that sends (webhook/validator.go) or of one of the loops of the
-- workers, and its children state what holds in every order of such steps, with reviews that
-- arrive at any time. Trace compares it with a specification over the store of secrets, which
-- Kube/Server describes.
-- Webhook/Log: webhook/log.go.
-- Kube: the objects and clients of the Kubernetes libraries, as far as the program uses them; Go:
-- strings as lists of bytes, errors, maps, channels, base64, the formats that the program prints,
-- paths, and runs that return, panic or go on forever. Prelude: shared helpers. Tests: concrete
-- inputs.
--
-- The client of the API server is a parameter: `Client` reads objects and `SecretClient` changes
-- them, and each call can change the state of the server, so two reads of one object may differ. A
-- theorem that needs a server that answers alike every time assumes `IsSettled`. The parser of
-- quantities, the text of a kind, the Prometheus library and what the setup calls of the webhook
-- library are parameters too. A channel records what was sent in order; a send is one that its
-- receiver has taken, since the channels are unbuffered. What other goroutines do between two
-- steps of a call of a webhook is not modelled; System/Pipeline has the steps in which reviews and
-- workers meet, and Run those that bear on the end of the process. Each field that is a channel
-- has its number, in the order in which the channels are made.
--
-- Only the owner search needs fuel. Without cycles among the owner references, any fuel above the
-- rank of the object is enough; with a cycle of first references, no fuel is. The runs of
-- System/Pipeline need none: `moves_left` bounds their length.
--
-- `strings.TrimSpace` is modelled for ASCII, which is all that a namespace can have. Not modelled:
-- what the program logs, apart from the adapter in webhook/log.go; the reading of the environment
-- and the timeouts of the servers and of the start; the scripts of the init container, and fields
-- of Kubernetes objects that the program neither reads nor writes.
mod Prelude
pub mod Go
pub mod Kube
pub mod Metadata
pub mod Webhook
pub mod Certificates
pub mod Secrets
pub mod Metrics
pub mod Run
pub mod Setup
pub mod Startup
pub mod System
pub mod Tests
