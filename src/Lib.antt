-- ===== src/Lib.antt =====
-- A model of the stellar-onramp TypeScript packages and the theorems about it.
--
-- The program lets an issuer verify a person, sign a credential of twelve attributes, publish which
-- credentials are revoked, and lets a relying party check a credential against that list.
--   * Identity (packages/identity/src): Base64, Bits, Gzip and StatusList are status-list.ts
--     (base64urlDecode and base64urlEncode, bitAt, setBit and statusAt, gunzip and gzip,
--     decodeStatusList, isStatusSet and encodeStatusList); Schema and Decimal are schema.ts
--     (encodeClaims, decodeDisclosed, normalizeIndexes). Binding and ReplayGuard are binding.ts,
--     Points the lengths of points.ts. Credential is issue and derive of credential.ts, and Verify
--     its verifyDetailed: Verify/Policy holds the checks on what is disclosed, judge is all of it
--     but the replay guard, conclude the guard's part. Predicates is predicates.ts, which composes
--     predicates and hands them to verifyDetailed.
--   * Gateway/Status (packages/gateway/src/status): Credential is the verifier of credential.ts and
--     Canonical the bytes that are signed; HttpsUrl is the URL check of publisher.ts; Resolution,
--     Fetch and Resolver are resolver.ts. The resolver fetches a signed document
--     (Fetch.fetch_and_verify), verifies it (Credential), decodes its list (Identity) and caches
--     it. Its fields are the record Resolver; its methods are functions of a state monad in which a
--     throw keeps what was written before it.
--   * Gateway/Kyc (packages/gateway/src/kyc): Age is age.ts, Claims is claims.ts, RevocationIndex
--     is revocation-index.ts and Record is record.ts. Issue is issue.ts: it prepares a request,
--     asks the allocator for an index, has Identity's issue sign the claims and builds the record.
--   * Gateway/Auth (packages/gateway/src/auth): Jws is verifyJws of jws.ts and Der its conversion
--     of ECDSA signatures.
--   * Gateway/Chain (packages/gateway/src/chain): Errors is errors.ts and Epoch is epoch.ts.
--   * Sdk (packages/sdk/src): Expiry is expiry.ts, Grants is attest/grants.ts.
--   * Tests holds runs of the model at concrete inputs.
--
-- Conventions. A throw or a rejected promise is `err` of an error type with a constructor for each
-- reason; the texts of messages are left out. A string is the list of its UTF-16 code units.
-- Numbers are natural numbers; where the code checks an argument, the argument is a Number, which
-- may be negative or no integer. Sums and products that the code forms are taken to be exact, but
-- for the expiries of Sdk, which round as doubles do. The clocks of verifyDetailed and of verifyJws
-- are Instants (Base/Instants): an integer, a fraction, an infinity or NaN; that of the resolver is
-- a natural number. What JSON.parse gives of a status list is a tree in which each key stands once.
-- Three options of the resolver are taken to be natural numbers: the cache ttl, which its
-- constructor compares with the freshness bound alone, and the byte cap and the redirect cap, which
-- nothing checks; NaN, an infinity or a negative number as one of them is not expressed.
--
-- Bounds and fuel. The redirects are a recursion on how many may still be followed, as the code
-- counts them. The walk over a thrown value recurses on the code's own bound on the depth. A day of
-- two digits is rolled over by at most four months (Age.roll), each of which takes at least 28 days
-- off; the digits of a number n take fuel n + 1, since each digit divides the number by ten.
--
-- Parameters. Code outside the repository is an argument: node:crypto, the Compression Streams, the
-- URL parser, Date.parse, JSON.parse, JSON.stringify of strings, hashing, Ed25519 and BBS+
-- signatures, the network, the address check and the simulator of the Stellar SDK. IsGzip states
-- what is relied on of the streams, IsNoble of hashing, IsBbs of BBS+ signatures (a derived proof
-- verifies). A replay store and an allocator of indexes, which the code takes as interfaces, are a
-- state and its step.
--
-- Not modelled: concurrent calls of one resolver, which are taken one after another, so that what
-- happens between the sending of a request and its answer to another call's cache entry is not
-- expressed; the signing and publishing side of the status list, the signing of tokens, the rest of
-- the client library, the HTTP gateway, the contracts (Rust) and the web pages.
pub mod Base
pub mod Identity
pub mod Gateway
pub mod Sdk
pub mod Tests
