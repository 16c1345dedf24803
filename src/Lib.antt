-- ===== src/Lib.antt =====
-- azure-admission-controller: admission webhooks for the custom resources of Giant Swarm clusters on
-- Azure.
--
-- The program answers the Kubernetes API server's admission requests. An HTTP handler (pkg/validator,
-- pkg/mutator) decodes the object, asks whether it belongs to a legacy release (pkg/filter,
-- pkg/release), and if so hands it to the webhook of its resource (pkg/cluster, pkg/azurecluster,
-- pkg/azuremachine, pkg/azuremachinepool, pkg/machinepool, pkg/azureupdate, pkg/spark). A validating
-- webhook returns an error or none; a mutating one returns JSON patches. The webhooks share the rules
-- for changes of release (internal/releaseversion), for conditions (internal/conditions), for scheduled
-- upgrades (internal/scheduledupgrades), for the organization label (pkg/generic) and the cache of VM
-- sizes (internal/vmcapabilities), which is the only state of the program.
--
-- How the code is modelled:
--   Prelude            numbers, lists, maps, texts, integers and sorting
--   Error, Result      an error is its cause (microerror keeps it through Mask and Maskf); a result is
--                      a value, an error, or the panic of a nil dereference
--   Exec               actions on the cache of VM sizes that return a result
--   Objects            the custom resources, with the fields that the code reads
--   Platform           what is outside the repository, as parameters: semantic versions, the names of
--                      other packages, the Kubernetes API at the time of one request (it is only
--                      read), and the webhooks of Cluster API's own types
--   Key, Semverhelper  pkg/key/key.go and internal/semverhelper/semver.go
--   Releaseversion     internal/releaseversion: `validate` is Validate; Spec is what it promises
--   Conditions         internal/conditions
--   Normalize          internal/normalize
--   Errors             internal/errors: `ignore_capi_error_for_field` is IgnoreCAPIErrorForField
--   Generic            pkg/generic
--   Release            pkg/release and pkg/filter
--   Decimal            strconv.ParseInt for 32 bits and strconv.Atoi, with their ranges
--   Vmcapabilities     internal/vmcapabilities: VMSKU.skus is the state, each method an action on it;
--                      in Concurrent requests share it, and take their steps in any order
--   Scheduledupgrades  internal/scheduledupgrades
--   Cluster, Azurecluster, Azuremachine, Azuremachinepool, Machinepool, Azureupdate
--                      the packages of those names under pkg; `on_create_validate` and
--                      `on_update_validate` are OnCreateValidate and OnUpdateValidate, a child Mutation
--                      has OnCreateMutate and OnUpdateMutate
--   Patch, Mutator     pkg/mutator, internal/patches and pkg/spark
--   Webhook            the HTTP handlers of pkg/validator and pkg/mutator
--   Handler, Factory   the interfaces of webhook handlers, and the constructors of the factories; a child
--                      Handler of a package's module has its webhook_handler.go, as Spark has
--   App                pkg/app/handlers.go: `register_webhook_handlers` is RegisterWebhookHandlers, and a
--                      ServeMux is the list of its paths and handlers
--   Admitter           pkg/admission, and the Handler functions of pkg/mutator/handler.go and
--                      pkg/validator/handler.go
--   Deleting           the early return of the update webhooks for an object that is being deleted
--   Config, Main       pkg/config/config.go and main.go
--   Example            a concrete platform, on which the modules Tests run the definitions
--
-- The Kubernetes API answers the same question alike within one request. The two readings of the clock
-- in ValidateUpgradeScheduleTime are two parameters. A loop of the code is a recursion on the list that
-- it walks, so no fuel is needed; but the loop over Azure's iterator (`gather`) has fuel, and one round
-- more than there are SKUs is enough. `DeepEqual` with a struct that the code builds compares the fields
-- named here, and `rest_is_zero` for the others. A constructor's clients, decoder and logger are given or
-- nil; what they do is in Platform and in Deserializer. The client and the reader of the Kubernetes API
-- answer alike. `Patch.Applying` applies patches in their order; what a patch makes of the fields that a
-- theorem speaks of is in the modules Patching, and the patches of other libraries' defaults are assumed
-- to be elsewhere.
--
-- Not modelled: logging and message texts; the listening server and its shutdown on a signal (the end of
-- `serve` in main.go), which are I/O; the JSON diff of an object and its defaults, which other libraries
-- compute; the data race between a read and a write of the map of VM sizes, each of which is one step;
-- and the helpers of the tests (pkg/testrunner, pkg/unittest, internal/test, integration).
--
-- `Prelude.Sort` models sort.Strings and sort.Ints by the ascending list of the same elements.
pub mod Admitter
pub mod App
pub mod Azurecluster
pub mod Azuremachine
pub mod Azuremachinepool
pub mod Azureupdate
pub mod Cluster
pub mod Conditions
pub mod Config
pub mod Decimal
pub mod Deleting
pub mod Error
pub mod Errors
pub mod Example
pub mod Exec
pub mod Factory
pub mod Generic
pub mod Handler
pub mod Key
pub mod Machinepool
pub mod Main
pub mod Mutator
pub mod Normalize
pub mod Objects
pub mod Patch
pub mod Platform
pub mod Prelude
pub mod Release
pub mod Releaseversion
pub mod Result
pub mod Scheduledupgrades
pub mod Semverhelper
pub mod Spark
pub mod Vmcapabilities
pub mod Webhook
