-- ===== src/Lib.antt =====
-- The server of a messenger: accounts, sessions, devices and keys, friendships, conversations with
-- their messages, the real-time gateway, and the previews of links; and two parts of its web client.
--
-- The parts and how they interact. The authentication service (server/src/auth/auth.service.ts)
-- keeps users and their sessions in two tables, and hands out an access token and a refresh token.
-- The friends service (server/src/friends/friends.service.ts) keeps one table of requests and
-- friendships. The conversations service (server/src/conversations/conversations.service.ts) keeps
-- conversations, their members with roles, messages, pins and reactions; what a client sends with a
-- message passes the validator of server/src/conversations/metadata.validator.ts. The chat gateway
-- (server/src/chat/chat.gateway.ts) takes the events of the sockets of logged-in users; it asks a
-- rate limiter (server/src/chat/ws-rate-limiter.ts) first, saves messages by the conversations
-- service, sets a timer for a message of a later time, and for device sync it keeps the sessions of
-- server/src/chat/sync-session.service.ts. The registry of devices
-- (server/src/devices/devices.service.ts) checks the keys of a device by
-- server/src/common/verify-bundle.ts; the key service (server/src/keys/keys.service.ts) keeps the
-- public keys and the recovery blobs. The preview service (server/src/og/og.service.ts) fetches pages
-- through the guard of server/src/og/guards/ssrf.guard.ts. The clean-up removes the messages of the
-- conversations service that were deleted long ago. The client reads the metadata that the server
-- stored, and queues messages while it has no connection.
--
-- The files:
--   Prelude        shared tests, lists, maps (a JavaScript `Map` in insertion order), integers,
--                  results with exceptions, texts as lists of character codes (`Prelude.Texts`), and
--                  `Prelude.Store`, the interface `Table` of the database client, which
--                  `Prelude.Store.Listed` fills with lists of rows.
--   RateLimit      `WsRateLimiter`: `isAllowed`, `retryAfter` and `cleanup` are functions on the
--                  record of its fields, with the time in milliseconds as an argument.
--   Friends        the methods of `FriendsService` that change the table; `step` is any of them.
--   Auth           the rows of the two tables, and `Crypto` for the code of other packages;
--                  `Auth.Tokens` is issueTokens, rotateSession and generateTokens, `Auth.Access`
--                  register to terminateSession, `Auth.Recovery` the passwords and addresses,
--                  `Auth.TwoFactor` the second factor and deleteAccount, `Auth.Calls` the step.
--   Metadata       validateMetadata, on what `JSON.parse` gives; `to_fields` is the object that is
--                  stored. `Metadata.Normal` and `.Again` are about what is accepted.
--   Conversations  the rows of the tables, assertMember and assertAdmin; `Conversations.Members` is
--                  getOrCreateDirect to setMemberRole and the flags of a chat, `.Pins` the pinned
--                  messages and clearMessages, `.Messages` deleteMessage, editMessage and
--                  forwardMessage, `.Reactions` toggleReaction and groupReactions, `.Saving`
--                  saveMessage, updateConversation and the sender keys, `.Reading` the pages of
--                  messages, and `.Calls` the step.
--   Gateway        activeUsers and activeCalls of the gateway: connections, disconnections, and the
--                  handlers of calls. `Gateway.Presence` has the histories of connections,
--                  `Gateway.Messages` the sending of messages with their timers, the delivery and
--                  onModuleInit, `Gateway.Rooms` the handlers that relay to the rooms of sockets.
--   DeviceSync     the session store in memory; `DeviceSync.Handlers` the five handlers of the
--                  gateway, with what they emit and the state after them, and the disconnection.
--   Devices        verifyKeyBundle and the methods of `DevicesService`; `step` is any of them.
--   Keys           the methods of `KeysService`.
--   Og             `Og.Addresses` is isPrivateIPv4, isPrivateIPv6 and what they call, `Og.Fetching`
--                  validateHostname, safeFetch and accept, `Og.Preview` the previews and their cache.
--   Cleanup        runCleanup of server/src/conversations/cleanup.service.ts, on the tables of
--                  `Conversations`; `Cleanup.Outcome` is about what a run leaves.
--   Client         two parts of the web client: `Client.ParsedMetadata` is parseMetadata of
--                  client/src/lib/parseMetadata.ts, and `Client.OfflineQueue` the hook of
--                  client/src/hooks/useOfflineQueue.ts, as events on the state that it keeps.
--
-- How the code is read. A method of a service is an action: it takes the state and returns a result,
-- or an exception, with the state that is then left; a `$transaction` that throws gives back the
-- state before it. The database client is a parameter, the record `Table`, with what its
-- documentation promises of each query; a query without an order may return any row that fits.
-- Random tokens, salts, secrets and the time are arguments of the call that draws or reads them. The
-- hash functions, the signing of tokens, the check of one-time codes and the mailer are fields of
-- `Crypto`; base64 and signatures are the record `Ed25519`, the parser of addresses, the resolver and
-- the network the record `Web`, numbers with a fraction the record `Numbers`. Calls and handlers run
-- one after the other: interleavings at an `await` are not modelled, but for the client's queue, where
-- other events come between the answers of a flush. Ids are natural numbers. The loops go over
-- lists, but for that of safeFetch over redirects: it is bounded in the code, and so takes the number
-- of redirects that it may still follow, and one round more, as its fuel. The body of a response is the
-- list of its chunks and how it ends: it is done, breaks, or stalls, and then safeFetch does not end.
-- The role that setMemberRole is given is any role, since the controller does not check it.
--
-- Foreign keys are taken to hold: an id of a user that a call is given is that of a user who exists,
-- and nobody's account goes while a call runs. A nested create is one action.
--
-- Not modelled: logging, fixed delays and the QR code; the Redis branch of the session store; the
-- lists that are only read for a screen; the gateway's events about deletions, edits and friends; the
-- other services (uploads, reports, push, users), the rest of the web client, which is its pages and
-- what they keep in the browser, and the cryptographic core in Rust.
pub mod Prelude
pub mod RateLimit
pub mod Friends
pub mod Auth
pub mod Metadata
pub mod Conversations
pub mod Gateway
pub mod DeviceSync
pub mod Devices
pub mod Keys
pub mod Og
pub mod Cleanup
pub mod Client
