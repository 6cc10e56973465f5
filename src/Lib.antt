-- ===== src/Lib.antt =====
-- rustdesk-console: a verification library for the back end of the console.
--
-- The program is a NestJS service with a separate updater process. Five of its parts are modelled.
--
-- Role-based access control (src/modules/rbac). A request that needs a permission asks the
-- authorization service, which reads the account, its role assignments and what each role grants
-- from the database, and answers with a scope: everywhere, or a list of device groups. Further checks
-- hold one device, a batch of devices, the targets of a strategy, or a change of an account against
-- that scope, and hand a refused attempt to the audit service.
--   Rbac/Catalog.antt        src/modules/rbac/constants/permission-catalog.ts: the whole catalog,
--                            requirements of a permission, filterEffectivePermissionCodes
--   Rbac/Database.antt       the rows and queries that the service uses. The queries are a parameter:
--                            a record of functions, of which `IsDatabase` says that each answers with
--                            the rows that its `where` selects, in any order
--   Rbac/Authorization.antt  src/modules/rbac/services/rbac-authorization.service.ts: getCurrentUser,
--                            computePermissionScope, requirePermission, assertDeviceAccess,
--                            assertDevicesAccess
--   Rbac/Protection.antt     the same service: assertUserMutation, assertUsersMutation,
--                            assertStrategyTargets, getEffectiveProtectionMap
--   Rbac/Effective.antt      the same service: getEffectivePermissions. The scopes are a function from
--                            permissions instead of an object
--   Rbac/Roles.antt          src/modules/rbac/services/user-role.service.ts: validateAssignments,
--                            groupPermissions, loadAssignments, effectiveScopes
--   Rbac/Eligibility.antt    the same file: getRoleEligibility
--   Rbac/Delegation.antt     the same file: the checks of replaceUserRoles, and in
--                            Rbac/Delegation/Replacement.antt the whole operation with its writes
--   Rbac/RoleRules.antt      src/modules/rbac/services/role.service.ts: normalizeName,
--                            validatePermissions, and roles as they are requested and shown
--   Rbac/Editing.antt        the same file: getRole, getProtectionImpact,
--                            createRole, updateRole, deleteRole and what they call
-- A call of the service is a function of the audit events so far; it returns or throws, and what it
-- has handed to the audit before it throws stays. The cache that lives as long as a request is not
-- modelled, and neither is the lock mode of a query in a transaction. The writes of the roles are
-- calls of the object-relational mapper on a state of any type: the records `RoleStore` and
-- `RoleTable`, of which `IsRoleStore` and `IsRoleTable` say what each call does to the rows that the
-- theorems speak of. A transaction that throws gives the rows back. The identifiers that uuid makes
-- are a parameter.
--
-- The managed updater (src/updater). A control service accepts one task at a time and writes it to a
-- journal; a worker, started again whenever it dies, carries the task out: prepare, fence, stop, back
-- up, switch, verify, decide, reopen. Before the decision is on disk a failure undoes the switch from
-- the snapshot, and after it nothing is undone.
--   Updater/Contracts.antt       src/updater/contracts.ts and errors.ts: records of plans and tasks
--   Updater/Version.antt         src/updater/manifest.ts: compareVersions, satisfies
--   Updater/Manifest.antt        the same file: isStableRelease, assertArtifact, validateManifest,
--                                selectArtifact
--   Updater/Catalog.antt         src/updater/catalog.ts: the interface Catalog, and OfficialCatalog
--                                over the answers to its downloads
--   Updater/Planner.antt         src/updater/planner.ts: create, revalidate, capabilities
--   Updater/Store.antt           src/updater/store.ts: UUID, terminal, jobs, plan, current
--   Updater/Control.antt         src/updater/control.ts: accept, reconcile
--   Updater/Worker.antt          src/updater/worker.ts: run, recover, decide, completeDecision, and
--                                each step of them, in the order in which they are called
--   Updater/Worker/Machine.antt  the worker's state: the record in memory, the journal on disk, the
--                                calls so far; and saveJob of store.ts
-- The planner knows the catalog by an interface and a law (`IsOfficial`), which the official catalog
-- fulfils. The control service is a function of the stored tasks and of the answers of one visit, and
-- its operations and the workers' writes are the steps of a relation.
-- The body of a request is a JSON object. A value that is no text is tested as the text that JavaScript
-- turns it into, as the code does, and is never the same as another value; the record of a task has no
-- key then, and shows the identifier of the plan as that text.
-- What the worker calls is an environment that answers each call from the calls so far: it returns,
-- throws any error, or kills the process there; a write of the journal that fails has reached the disk
-- or not. The worker has no loop, so no fuel is needed; a second run is a second environment. The one loop of
-- the catalog has the fuel of its ten pages, after which the code throws.
--
-- Strategies (src/modules/strategy). A device gets the strategy of its own row, or of its user, or of
-- its group. The service answers from two caches, one of devices and one of strategies, which every
-- change of a strategy or of an assignment has to invalidate.
--   Strategy/Store.antt       the rows and the calls of the mapper: a record `Store`, and its laws
--                             `IsStore`
--   Strategy/Resolution.antt  strategy.service.ts: findStrategyForPeer, resolveStrategyForPeer, the two
--                             caches, invalidateDeviceStrategyCache
--   Strategy/Changes.antt     the same file: createStrategy, updateStrategy, deleteStrategy
--   Strategy/Assignment.antt  the same file: assignStrategy, unassignStrategy
--   Strategy/Binding.antt     src/modules/auth/services/auth-device.service.ts: createOrUpdateDevice,
--                             unbindDevice; and src/common/utils/device-identity.util.ts
--   Strategy/Tables.antt      a database of lists that has the laws, for the tests
-- A call runs to its end before the next one starts; calls that wait for the database while others
-- run are not modelled.
--
-- Heartbeats (src/modules/heartbeat). A device reports itself and its connections, and is answered
-- with the connections to close and its strategy. What devices report is buffered in memory, and
-- written every fifteen seconds in one transaction; what a failed transaction held goes back to the
-- buffers.
--   Heartbeat/Cache.antt        services/heartbeat-cache.service.ts: the buffers, flush as two steps
--                               (its start, and its commit or failure) between which heartbeats may
--                               arrive, and the synchronisation of connections by their difference
--   Heartbeat/Disconnects.antt  services/disconnect-store.service.ts: the connections to close
--   Heartbeat/Service.antt      heartbeat.service.ts: handleHeartbeat, over the cache, the
--                               disconnections and the strategy service
--   Heartbeat/Connections.antt  the same file: getActiveConnectionIds
-- The tombstones of deleted devices and the registration of a new one are the record `Registry`, and
-- the parser of a strategy's text is a parameter.
--
-- The web client's handshake (src/modules/web-client). The gateway decodes the messages that open a
-- session, and compares them with what the session was granted.
--   WebClient/Protocol.antt  web-client-protocol.ts: numbers, fields, the envelope and the three
--                            messages. The loop over fields has as much fuel as the buffer has bytes,
--                            and each turn reads one at least. Decoding UTF-8 is a parameter
--
-- Common.antt and its children hold the tests, list functions, texts and effects that all parts use.
-- Times are natural numbers, digests and identifiers are texts. Permission codes and device groups
-- are sorted by code points, where the program sorts by code units, which is the same for them. Not
-- modelled: the paged lists of roles and of
-- strategies, which only read; login and its tokens, address books, device groups, users, audit, mail,
-- directories, the web client's sessions and gateway, and the updater's adapters and backups, which
-- are services of their own beside these parts.
pub mod Common
pub mod Heartbeat
pub mod Rbac
pub mod Strategy
pub mod Updater
pub mod WebClient
