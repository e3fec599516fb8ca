-- ===== src/Lib.antt =====
-- nyauth is an OAuth 2 and OpenID Connect provider in Go. This library models the parts of it that
-- decide who gets a token and which mail configuration is in force, and proves what makes them
-- correct. Paths are from the repository's root.
--
-- The parts and their files:
--   Redis       the commands that the Lua scripts use, as an interface with Redis's documented laws;
--               Redis/Memory is a keyspace that keeps them, for concrete runs. A request may fail before
--               the server runs it or after (`Network`), and a script runs in one step.
--   Session     internal/session/store.go: authorization codes and consents. Session has the stored
--               records, the keys and the scripts consumeMatchingScript and consumeConsentScript;
--               Session/Codes and Session/Consents have the methods of Store, by their names in this
--               spelling (save_authorization_code is SaveAuthorizationCode). Session/Events orders
--               calls; Session/Spent, Session/Once and Session/Owners hold the proofs. Session/Clock is the
--               logical clock by which a grant is issued and revoked, with its proofs in
--               Session/Revocation, Session/Revoked and Session/Contained.
--   Refresh     internal/session/store.go: families of refresh tokens. Refresh has the records, the keys
--               and rotateRefreshWithAccessScript, Refresh/Store the methods and the smaller scripts,
--               Refresh/Tokens those that read, save and revoke one token, Refresh/Saved what a saved
--               access token leaves, Refresh/Marker what the scripts do to the marker of a revoked family,
--               Refresh/Family any order of calls, and Refresh/Reuse the reuse of a token. Redis/Sets is its interface to Redis.
--   Device      internal/deviceauthorization/store.go: the device grant. Device has the records and
--               scripts, Device/Codes the user codes, Device/Store Create and the reads, and
--               Device/Decisions Approve, Deny, Poll and ConsumeApproved. Device/Frozen is about
--               decided records, and Device/Grants builds on it; Device/Pace is about polling, and
--               Device/Found about reading what Create stored.
--   Auth        internal/oauthstepup/acr.go (Auth/StepUp), internal/auth/pkce.go (Auth/Pkce), and the
--               scope functions of internal/auth/consent.go, token.go and handler.go (Auth/Scopes, and
--               Auth/ScopeText where a text is split or joined).
--   Token       internal/auth/token.go, handler.go, device_authorization.go and consent.go: the token
--               endpoint over Session, Refresh and Device. Token has the records and what surrounds the
--               server (`Env`), Token/Exec the monad of the handlers, Token/Clients the authentication of
--               clients, Token/ClaimNames the names of claims, Token/Validate the checks of users and
--               grants, Token/Issue how a pair is signed and stored, Token/CodeGrant, RefreshGrant and
--               Grants the handlers, Token/Access validation and revocation, and Token/Inspect introspection
--               and UserInfo. The proofs stand in Token/Redeemed and Unbound (codes), Replayed (codes used
--               again), Refreshed (refresh tokens), Machine (client_credentials), DeviceGrant, Fresh
--               (tokens that were issued), Revoked, Disclosed (Introspect) and UserInfo, on the lemmas in the
--               other modules.
--   Mail        internal/mailruntime: the row `mail_runtime_state` under PostgreSQL. Mail has types.go
--               and the skeleton of a transaction, Mail/Outcome the validation, Mail/Circuit circuit.go,
--               Mail/Versions the methods RecordTest, Activate, Rollback and Disable of store.go, and
--               Mail/Calls all of them as one step. The Cases modules give each method branch by branch. The
--               proofs stand in Mail/Audit (revisions and notifications), Preserve (the constraints of
--               Mail/Constraints), Window (failures), Claims and Probes.
--   Common      tests, lists, texts and time.
--
-- The interaction: a handler of internal/auth reads and consumes the values of Session, Refresh and
-- Device; the three share one Redis but no key. The instances of the mail runtime share one row,
-- which each transaction locks, so an interleaving of instances is a sequence of calls (`run`).
--
-- A handler of Token is a function on the state of all stores that may fail, and what it did before it
-- failed stays done; its reply is a pair of tokens or the status, the error code and the audit
-- record of a refusal. One request runs at a time; requests that overlap are covered where a theorem
-- lets any calls stand between the reading of a code or an approval and its exchange. The tables
-- of PostgreSQL, the JWT library, uuid.Parse, random values and the clocks are the fields of `Env`,
-- which each request takes anew.
--
-- How it is modelled. A store's state is passed explicitly; for Redis it is an abstract type `Db`.
-- Keys are constructors in place of the source's prefixes, since no two prefixes meet. What Redis
-- holds is the decoded JSON: encoding and decoding are not modelled, and a value of another type under
-- a key is an error of the script. SHA-256, crypto/rand, the Unicode tables above ASCII and the text
-- of a uuid are parameters. Numbers are natural: int64 values below zero are read as 0 where the
-- source only tests that they are positive, and no sum comes near 2 ^ 63. Times in Device are
-- milliseconds, as in the source; in Mail and Auth nanoseconds. A nil receiver is not modelled for
-- Session and Device; for Mail it is the flag `available`.
--
-- A request to Redis may fail before the server runs it or after. A statement that PostgreSQL refuses
-- ends the transaction without an effect; a Commit may also be done and its reply lost, which the
-- caller sees as an error (`commit_lost`).
--
-- Loops: Create tries eight times, as the source does, and reports that it found no free code; every
-- other loop is structural recursion, so no fuel is chosen anywhere.
--
-- Not modelled: CreateCandidate, LoadEffectiveConfig and the plain reads of mailruntime; the rate
-- limits of deviceauthorization; of session, RotateRefreshToken, the revocations of a user's families,
-- and browser sessions; of auth, the authorization endpoint, the consent and device pages, EndSession,
-- discovery, the metrics and the sink of usage, and configurations in which a service is nil; and the
-- other packages, which are listed with their reasons in the manifest beside this library.
pub mod Common
pub mod Redis
pub mod Session
pub mod Device
pub mod Auth
pub mod Mail
pub mod Refresh
pub mod Token
