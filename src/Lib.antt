-- ===== src/Lib.antt =====
-- An OpenTelemetry receiver that polls network devices over SNMP. A scan finds devices and keeps
-- them in a registry; a device's sysObjectID selects a profile, a document that inherits from others
-- and names the OIDs to read; a poll reads them over an SNMP session into a store of values; and a
-- report turns the values into metrics, named by a curated registry or by a generated name. The
-- receiver holds these together: it seeds the registry with the configured devices, registers what the
-- scans find, and sends each device to a poller when its slot in the collection interval has come.
--
-- Which file models which part:
-- - Snmp/Oid.antt: internal/snmp/oid.go, and CanonicalOID, rowIndex, longestMatch and prefixed. Order
--   and Rows have the theorems on comparing OIDs and on which column an OID belongs to.
-- - Snmp/Value.antt: internal/snmp/valuestore.go, the decoded values and their store.
-- - Snmp/Batch.antt: the batchSizer of internal/snmp/fetch.go.
-- - Snmp/Fetch/Session.antt, Scalars.antt, Consume.antt, Columns.antt and Poll.antt: the types of
--   internal/snmp/fetch.go, fetchScalars, consume, fetchColumns and Fetch. Their children have the
--   theorems: Scalars/Round goes through the branches of one round of the loop, Scalars/Total sums
--   the rounds up, Consume/Forward and Consume/Rows are about the positions and the rows, and
--   Columns/Rounds is about what every round of a walk keeps.
-- - Snmp/Credentials.antt: the credentials of internal/snmp/session.go, and what NewSession configures.
-- - Discovery/Registry.antt: internal/discovery/registry.go. Keyed, Failures and Persist have the
--   theorems on its keys, on when a device is dropped, and on Save and Load.
-- - Discovery/Subnet.antt: ExpandCIDR of internal/discovery/scan.go. Hosts goes through its loop, and
--   Expand has the theorems on what it returns.
-- - Discovery/Scan.antt: DeviceID, ProbeSysObjectID, probe and Scan of internal/discovery/scan.go.
--   Identity is about identifiers, Answered about one address, Found about the devices that a scan finds.
-- - Profile/Definition.antt, Normalize.antt and Validate.antt: internal/profiledefinition.
-- - Profile/Store.antt: the inheritance of internal/profile/store.go. Seen counts what is left to see,
--   Expand is about one call of expand, Resolve about resolveLocked, and Merge about merge.
-- - Profile/Compile.antt: internal/profile/compile.go.
-- - Profile/Match.antt: internal/profile/match.go. Chosen is about what may be chosen.
-- - Naming/Registry.antt and Naming/Fallback.antt: internal/naming. Registry/Schemes is about the names under
--   each scheme, Fallback/Charset about the runes of generated names.
-- - Report/Pool.antt: internal/report/pool.go, with the stream keys and start times of builder.go.
--   Offers is about what streams show after an offer, Placed about the metrics that hold their
--   datapoints, Starts about the start times.
-- - Report/Transform.antt and Report/Text.antt: internal/report/transform.go. Text/Valid is about the
--   encoding of texts.
-- - Report/Tags.antt: internal/report/tags.go. Report/Derived.antt: internal/report/derived.go.
-- - Report/Row.antt, Resource.antt, Builder.antt and Builder/Build.antt: internal/report/builder.go, from
--   the rows of a symbol and the attributes of the resource to the datapoints of a symbol and to Build.
--   Resource/Identity is about the attributes that tell a device. Builder/Keeps and Builder/Build/Keeps
--   carry any property of the pool that an offer keeps through Build; Build/Poll applies them.
-- - Config.antt and Config/Validation.antt: config.go. Usable is about what an accepted configuration gives.
-- - Receiver/Schedule.antt: pollLoop and offsetFor of receiver.go. Slots is about the due times, Claims
--   about the marks in inFlight, Due about a device whose slot has come.
-- - Receiver/Fleet.antt: seedStaticDevices, the registration in scanAll, and credentialsFor. Changes has
--   what scans and polls do to the registry, Shadows and Unshadowed are about scanned devices that are
--   configured as well, Registered about the configured devices themselves.
-- - Receiver/Poll.antt: pollDevice, ensureProfile, failPoll and forgetState. Others,
--   Selected and Isolated are about the other devices.
-- - Receiver/Lifecycle.antt: Start, storageClient and Shutdown. Starts is about what starts.
-- - Base: the parts of Go's own library that these use, on lists of bytes and association lists.
-- - Tests: the theorems at concrete inputs.
--
-- How the code is modelled. A struct is a record and a map an association list; where Go's order
-- over a map shows, it is the order of the list. A string is a list of bytes. The runes of a name and
-- their classes are a record Letters; the case of other texts and blanks are those of ASCII. An error is a value of a type with a constructor for each place that returns one. float64 and
-- float32 are a record of the operations that the code uses (Base/Number.antt), which holds Letters too. The device, the transport
-- and the context are a Session, whose answers depend on a state that each call may change; no theorem
-- restricts it. The storage extension and JSON are a Storage; the round trip of Save and Load states what
-- it needs of them, and asks it only for devices whose texts are valid UTF-8. Mutexes make each method one step.
--
-- Machine integers. The limits that configure a fetch are ints, and ports and counts small numbers. Where a
-- uint becomes an int in Report/Transform.antt, the wrap-around is written out; the panic that it may cause
-- is modelled as an error. The batch size of Snmp/Batch.antt is a natural number, which agrees with Go's int
-- for a configured size of at most 2^62, above which doubling may wrap.
--
-- Loops. fetchScalars runs on the fuel scalar_fuel, the number of OIDs plus one times the batch size
-- plus two: a round drops an OID or shrinks the batch. `expand` takes the depth of its calls, one more
-- than the number of profiles, as each call goes into a profile that was not seen. fetchColumns takes its fuel as an argument, since a device may
-- answer for ever with later OIDs that hold no value, which no limit counts.
--
-- The scheduler takes as many rounds to advance a due time as nanoseconds have passed since; the loop over
-- a subnet takes as many as the subnet has addresses, which is at most the limit.
--
-- How the receiver's parts meet. A step of the scheduler or of a poller is one event of
-- Receiver/Schedule, and lists of events stand for all interleavings. What a poll does to the registry and to
-- its device's state is Receiver/Poll, over a Transport that dials and tells the time; the store of the
-- profiles comes in as the two functions that a poll calls. Compiled expressions, the printing and reading of
-- network addresses and file patterns are records of functions: Regexes, Addresses, Nets, Libraries, Globs.
--
-- Not modelled: newReceiver and the timers of receiver.go, its cancellation inside
-- pollLoop, its telemetry and logs; the interleaving of the workers of one scan, whose addresses are
-- probed one after another; reading files and YAML; the gosnmp client's own calls; factory.go, the commands
-- under cmd, the generator internal/naming/gendoc and the fake device internal/snmptest.
mod Base
pub mod Snmp
pub mod Discovery
pub mod Profile
pub mod Naming
pub mod Report
pub mod Config
pub mod Receiver
mod Tests
