-- ===== src/Lib.antt =====
-- Verification of coredns-netbox, which turns the IP addresses of NetBox and records that are added by
-- hand or by webhook into zone files that CoreDNS serves.
--
-- A poll of NetBox gives records, which zone discovery sorts into zones. internal/merge/merge.go
-- merges them with the zones of the store in internal/dynamicstore/file_store.go and hands them to the
-- manager in internal/zonemanager/manager.go, which has one generator of internal/zonegen for each
-- zone and writes a zone file where the generator finds a change. internal/netboxwebhook takes
-- NetBox's events and changes the store directly. internal/shrinkguard decides whether a poll may
-- replace what is published. The plugin in coredns/plugins/netboxreload loads the zone files and answers
-- queries from them.
--
-- The files:
--   Base, Base/*      texts, lists and maps: a text is a list of bytes, a Go map is an association list.
--   Record            internal/netboxclient: IPRecord, ipItemToRecord, stripCIDR, AuthHeader.
--   Store, Store/*    internal/dynamicstore: a method takes the outcome of its write to disk and gives the
--                     new store and its error. Upsert has the merge through the index, Effects and View
--                     what a client sees of each method, Disk what a restart reads back.
--   Merge, Merge/*    internal/merge/merge.go, the loops of Write: Shadow is about the zones without PTR
--                     records, Reverse about those with them; Publish is the whole of Write, over the
--                     manager.
--   Zonegen, Zonegen/*  internal/zonegen: Serial is NextSerial; Names is safeZoneName and dropUnsafeNames;
--                     Collisions is resolveCNAMECollisions; Order is recordLess; Render is the text of a
--                     zone; Generator is Generate with its fingerprints; Restart is NewGenerator over a
--                     file.
--   Manager, Manager/*  internal/zonemanager/manager.go: Update and removeOrphans. A World says which file
--                     operations fail and what the clock shows. Loops and Turns follow one zone,
--                     Published is about the files of a call, Lost about two calls.
--   WebhookEvent, Webhook, Webhook/*  internal/netboxwebhook: ServeHTTP, apply and what they call,
--                     over the store. Settled, Events, Promise and Redelivery follow the record of each
--                     name through an event; Signals is about who may change the store and about the signals.
--   Shrink, Shrink/*  internal/shrinkguard/shrinkguard.go: EmptyResult, Evaluate, Override.
--   Sidecar, Sidecar/*  cmd/sidecar/main.go: fetchNetbox with the shrink guard, and the cases of the
--                     select of run as steps. Consent is about the guard, Outage about a NetBox that
--                     cannot be reached.
--   Grpc, Grpc/*      internal/grpcserver: the handlers of both services, the cache and authInterceptor.
--   Reloader, Reloader/*  internal/reloader/reloader.go: Reload, Reconcile and the retries.
--   Client, Client/*  internal/netboxclient/client.go: the pages and retries of FetchIPAddresses.
--   Config, Config/*  internal/config/config.go: the statuses that are published, the lists of zones.
--   Discovery, Discovery/*  internal/zonediscovery: the strategies as discoverers, with CommonSuffix and
--                     Reverse apart. Placed, Longest, Above and Reverse/Found are about the zones they
--                     choose, Served about a name that the plugin looks up.
--   Device, Device/*  internal/nameformat/formatter.go, and in Category internal/ipcategorizer. Rendered is
--                     about the names, Slices about sort.Slice and its order, Selected about the chosen
--                     addresses, Targets about the aliases.
--   Plugin, Plugin/*  coredns/plugins/netboxreload: ServeDNS; Reload is the load of zones, Swap is
--                     reloadZones, Transfer is the transfer and the choice for NOTIFY, Notify the calls of
--                     the transfer plugin behind a reload. Sync is about the two maps that a
--                     reload keeps.
--   Samples, */Tests  sample data and runs.
--
-- Bounds and fuel: the decimal form of a number recurs on fuel that is one more than the number, which
-- is enough since each round divides it by ten. A serial is a number below 2 ^ 32 with its wrap
-- written out. Times are natural numbers, and a delay is a number below 2 ^ 64 that is negative from
-- 2 ^ 63 on. The plugin's chase of CNAMEs recurs on fuel that is one more than the number of owners in
-- the zone: a round marks a name, and a name without records ends the loop. The pages of the NetBox DNS
-- plugin are followed on fuel, as nothing in the code bounds their number. All other loops are
-- structural.
--
-- Parameters: SHA-256 is a function from texts to texts, of which only the form of its digests is
-- used; HMAC, JSON decoding, url.Parse, package dns, the transfer plugin, net.ParseIP, the compiled patterns
-- and templates, and sort.Slice, which is given the source's order, are functions, and in the modules of
-- the webhook, the merge and the sidecar so are zone discovery and the naming of devices, which have
-- modules of their own; an event asks discovery at most once for each name, so one event sees a function,
-- and two events may see two. float64 is a type with the operations that the shrink guard uses. Where an operation ranges over a Go map, the model
-- takes the entries in list order, and the theorems hold for every list.
--
-- Not modelled: the start of the servers and the status caches of cmd/sidecar, the poll loop and
-- the registration of the plugin, and the compilation of the name parsers are left out; metrics, logs,
-- the reading of the environment, HTTP serving of files and the analyzer do not bear on what is served. The temporary
-- file of zonegen.WriteFile is not modelled: a write succeeds or fails as one.
pub mod Base
pub mod Record
pub mod Store
pub mod Merge
pub mod Zonegen
pub mod Manager
pub mod Client
pub mod Config
pub mod Device
pub mod Discovery
pub mod Plugin
pub mod Publish
pub mod Sidecar
pub mod Grpc
pub mod Reloader
pub mod Samples
pub mod WebhookEvent
pub mod Webhook
pub mod Shrink
