-- ===== src/Lib.antt =====
-- Zeolite: a proof library for the browser engine of the repository, the TypeScript worker of app/src.
--
-- The worker stands between a page and the network. It decides for each request what happens to it
-- (the rules and the policy), attaches and admits cookies (the jar), sends the request over a
-- transport and reports what is in flight. The parts modelled and their files:
--
--   Text, Url, Hosts, Numbers  the platform's strings, addresses and numbers, and the host comparison
--                    `undotHost` and `matchesHost` that app/src/rules.ts and app/src/policy.ts share
--   Rules            app/src/rules.ts: compileRules, applyRules and the per-site overrides
--                    (Rules/Apply is applyRules, Rules/Overrides the choice of an override)
--   Kdl              app/src/kdl.ts: the nodes of a document; Kdl/Lexer is the scanner and Kdl/Parse the
--                    recursive descent parser, parseKdl
--   Policy           app/src/policy.ts: policyMatch, behaviorMatch, transportMatch; Policy/Compile is
--                    compilePolicy on a parsed document
--   Transport        Delivery is app/src/delivery.ts, Lifecycle app/src/transport-lifecycle.ts, Streams
--                    app/src/streams-alive.ts, Load app/src/loadstate.ts
--   Cookies          app/src/cookies.ts: Date is parseCookieDate, Header and Request the reading and the
--                    gates of admitCookie, Admit its storage half, Jar the store and sweepJarLimits,
--                    Profiles the jar profiles, Origin originJarId, Attach cookieHeaderFor and the
--                    document.cookie reads, Write the seams applySetCookie and documentCookieWrite, Import
--                    jarRemoveIdentities, jarReplace and jarMerge; Cookies itself holds the
--                    tests that scope a cookie
--   Codec            app/src/codec.ts: Base64 is b64uEncode and b64uDecode, Siphash the MAC, Token the keyed
--                    tokens, Route the prefix, the route keys and the paths that carry a destination,
--                    Handle the navigation handles, Query the query routes, Client the visible paths of
--                    handles and the addresses of clients, Challenge passChallengeRedirFixed, Recover
--                    recoverPath and unwrapDest; Fields has lemmas on separators
--   Range            app/src/range.ts: planRange
--   Spool            app/src/bodyspool.ts: the calls of spoolBody and their counters
--   Sockets          Relay is app/src/ws-relay.ts: the sockets that ride the embedder's relay
--   Csp              app/src/csp-enforce.ts: the plans, source matching, the gate and the registry; Csp/Policy
--                    is planEngineCsp, Csp/Translation app/src/csp-translation.ts
--   CrossOrigin      app/src/origin.ts: the virtual origin, the Sec-Fetch headers and the sender's origin;
--                    Cors is app/src/cors.ts and preflightHeaders, Foreign classifyForeign of
--                    app/src/foreign.ts
--   Extensions       Permissions is app/src/extensions/permissions.ts, Alarms app/src/extensions/alarms.ts
--   Examples         the parts at concrete values
--
-- How they interact: Policy compiles from Kdl nodes and uses the resource types and host comparison of
-- Rules; every admission of Cookies runs Request (with Header and Date), then Admit, which sweeps the Jar of
-- the namespace that Profiles chooses; Attach reads that namespace and purges the Jar. A plan of Csp/Policy is
-- kept by the registry of Csp and read by its gate; CrossOrigin/Sender decodes a client's address with
-- Codec, and CrossOrigin/Foreign its route.
--
-- State: a module's variables are the fields of a record (RulesState, Profiles, Store, Machine, Streams)
-- or an association list in insertion order for a Map; an operation takes the state and returns the
-- next one with its result. A thrown error is `err` of a Result, `null` is `none`. The clock is an
-- argument; where the source reads it twice (admitCookie and its sweep) there are two arguments. A
-- cookie object's identity, which the source compares by reference, is its field `ref`; a fresh object
-- takes the next number. The listeners of the connection machine are a list with an id for each, and a
-- promise that settles is recorded in the state; each call of onTransportState subscribes a fresh callback,
-- which does not call the machine again (the Set of the source drops one that is registered twice); what a socket tells its page is a list in the state;
-- timers run out by a step of their own, at any time.
--
-- What is not under app/src is an argument: `parse_url` for the platform's URL parser, `get_public_suffix`
-- and `get_domain` for the public suffix list (tldts), `encode` for encodeURIComponent,
-- `ghostery_block` for the filter engine, the record Utf8 for TextEncoder and a fatal TextDecoder, of which
-- only this is assumed: it writes bytes, and an ASCII letter as itself; the record Web for `new URL`, `href`,
-- the assignment of `pathname` (assumed to leave the origin) and decodeURIComponent, and Params for
-- URLSearchParams. Numbers of a policy file are any type with a total
-- preorder. Nothing is assumed of them but what a theorem names.
-- Headers are a map from lower-case names to values.
--
-- Bounds: the loops of the source run over lists and texts, and the functions here recur on them.
-- The KDL parser, whose loops move a position, runs on fuel: one more than the text left is long. The
-- loop of an alarm that fires has fuel for as many turns as its clock shows parts of a millisecond, and one
-- more, which is enough since a period is at least one part. The
-- source's own bounds are kept: four peeled markers of a visible path, eight wrapped routes.
--
-- Texts are lists of UTF-16 code units. `toLowerCase` is the ASCII one: hosts come from the URL parser,
-- which has made them ASCII, and attribute names are compared with ASCII words only. Times are
-- natural numbers of milliseconds, those of a cookie date integers; those of alarms are in parts of a
-- millisecond, as fine as the periods need.
--
-- Where csp-enforce.ts and csp-translation.ts ask for the wasm seam first, their own bodies are modelled and
-- the seam is not. The texts of an alarm's store are lists of well-typed records; its times are whole
-- milliseconds.
--
-- Not modelled: diagnostics and traces, persistence (the Cache API) and the loading of /rules.kdl and
-- /policy.kdl, the registry of virtual origins, whose order nothing here reads, the change listeners of
-- the jar, the cookieStore facade's writes, the jar's own navigation handles, the clearing and the enumeration of
-- jars, the user agent tables, the wake hook of the alarms and the unsubscription of their listeners, and
-- the modules of app/src, of its extensions, of the crates and of the suite that the list above does not
-- name.
pub mod Prelude
pub mod Text
pub mod Url
pub mod Hosts
pub mod Numbers
pub mod Kdl
pub mod Rules
pub mod Policy
pub mod Transport
pub mod Cookies
pub mod Codec
pub mod Range
pub mod Spool
pub mod Sockets
pub mod Csp
pub mod Extensions
pub mod CrossOrigin
pub mod Examples
