-- ===== src/Lib.antt =====
-- Verification of scimtest, a local service that plays the identity provider for SAML, OIDC and
-- SCIM tests. Two parts are modelled. The first is the core of its SCIM side, internal/core: the
-- directory of users and groups of an environment, what an app remembers of it on its SCIM server,
-- the engine that brings the server up to date, the client that the engine calls, and the import of
-- a directory from a server. The second is of its web server, internal/web: the credentials of the
-- OIDC provider with the endpoints that issue, take and end them, and the fault injection runs.
--
-- How the parts interact: a change of the directory marks rows dirty (MarkUserDirty); a sync
-- projects the directory with the rows of one app (StateForApp), runs the engine on the projection
-- (SyncDirtyStateWithContext, ReconcileStateWithContext), stores the rows that come back
-- (MergeAppSyncState) and forgets what is deleted everywhere (PurgeFullySyncedDeletions). The token
-- endpoint looks a user up in the directory, and asks the runs of its app for a fault first.
--
-- Files:
--   Prelude      Boolean tests, lists, strings.TrimSpace, map[string]V as association lists.
--   Directory    internal/core/state_models.go: the records. The lookups, labels and statuses of
--                internal/core/state.go and internal/core/user_attributes.go, and in Attributes the
--                validation of managers and custom attributes.
--   Sync         internal/core/state_sync.go. Project is StateForApp; Mark is MarkUserDirty,
--                MarkGroupDirty, InitializeAppSync and AppHasSyncState; Merge is MergeAppSyncState
--                and MergeAppImportState; Purge is PurgeFullySyncedDeletions; Plan is PlanSync; Logs
--                is AppendOperationLogs and AppendLocalOperationLog.
--   Scim         internal/core/scim.go and the payloads of internal/core/scim_transport.go.
--                Resource is newSCIMUserResource, newSCIMGroupResource, userMatchesRemote and
--                groupMatchesRemote; Client is the interface of SCIMClient's calls; Progress is
--                syncProgressReporter; Pass is what the loops share; Users is syncDirtyUsers,
--                reconcileUsers and sendAwaitedManagers; Groups is syncDirtyGroups and
--                reconcileGroups; Engine is the two runs.
--   Scim.Http    internal/core/scim_transport.go and internal/core/scim_entra.go: SCIMClient, as an
--                implementation of the interface Client. Send is doJSONOnce and doJSON, Delay the
--                waits after a rate limit, Pages listResources, Find findByExternalID, Calls the
--                calls that read and delete, Writes those that create and replace, Entra the path
--                operations of Entra ID's dialect.
--   Scim.Import  internal/core/scim_import.go: the user and the group of a resource, and in Replace the
--                loops of replaceStateFromSCIM. SplitName is of internal/core/state.go.
--   Web          internal/web. Fault is faultOptions of fault.go; Resilience is the runs of
--                resilience.go, a map by slug that a lock guards, and Presets their scenarios.
--   Web.Oidc     internal/web/oidc.go and oidc_client.go: the codes, the access tokens and the refresh
--                tokens, issueOIDCCode, the checks of a client and of PKCE. Inject is
--                injectTokenFault; Token issues tokens (issueOIDCTokens, mintAccessToken,
--                issueRefreshToken); Exchange is handleOIDCToken with a code; Refresh is
--                refreshOIDCTokens and issueClientCredentialsToken; Revoke is handleOIDCRevoke,
--                revokeOIDCTokens, handleOIDCIntrospect and handleOIDCUserinfo.
--   The proofs are in child modules, named for what they look at:
--                Sync.Mark Rows (what a change marks) and Initial (a reset); Sync.Merge Rows, RoundTrip
--                and Import; Sync.Purge Filter, Groups, Traces and Merged; Sync.Plan.Agrees;
--                Sync.Logs.History; and, for the users, the groups and the whole run of Scim,
--                Accounting (counts and progress), Live and Members (what of the directory stays),
--                Settled and Silent (what is left to send, or is not sent), Starts (the reports that
--                start an operation, beside PlanSync); Adds, Bounds, Ends, Match, Ids and Agrees for
--                the HTTP client; Unique, Closed, Imported, RoundTrip and Stored for the import;
--                Sound and Reach (any sequence of operations) for the runs; for OIDC,
--                Remains and Left (what a handler leaves of a code and of a refresh token), Steps (any
--                sequence of requests), Issues and Minted (when tokens are issued, and what is stored),
--                Codes, Rotation and Revoke.Ends;
--                Directory.Attributes.Valid for the attributes.
--   Samples, Examples   a small directory and servers, and the theorems applied to them.
--
-- State is passed explicitly: a pass over the users is a record (Scim.Pass.UserPass) with what the
-- Go function keeps in variables, and each case of its switch is a function that goes on or halts.
-- The client with its server is a parameter, a record of calls over a state of any type, so the
-- theorems about the engine hold whatever a server answers and whenever it fails. The order of a Go
-- range over a map and the time are parameters. The HTTP client stands on parameters too: net/http and
-- the clock (Http), and encoding/json, net/url, fmt and strconv (GoLibrary, Decoders). Numbers that Go
-- keeps in 64 bits wrap around where the code computes with them (Prelude.Int). Of the OIDC provider,
-- the parameters are what randomSecret draws (Secrets), the readings of the clock (Times), hashes and
-- the decoding of credentials (Crypto), and claims, signatures and the record of an inspection
-- (Signer). A handler holds the lock of the credentials from its start to its end, so it is one step;
-- the delay of an injected fault releases the lock, so a handler that waits is two.
--
-- Fuel: listResources is a loop without a bound, so list_resources takes fuel, one unit a page.
-- 2^63 - 1 units are enough because each page starts after the one before it, at an index of 64 bits;
-- list_all is the call with that fuel. The retries of doJSON are counted down from
-- maxSCIMRateLimitRetries.
--
-- Not modelled: the persistence in SQLite, the JSON texts, the text of the status lines, the web UI
-- and its handlers, SAML, the claims, the flow events and the authorization requests of OIDC, the
-- tunnel server and client, the updater and the desktop shell.
-- They are input and output, glue, or later parts of this development.
pub mod Prelude
pub mod Directory
pub mod Sync
pub mod Scim
pub mod Web
pub mod Examples
pub mod Samples
