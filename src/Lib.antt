-- ===== src/Lib.antt =====
-- A model of the core of oma-server, the Go server of an agent platform, with theorems on it.
--
-- The program. An administrator's console and the clients of the members call use cases under
-- com/ohmyagent/internal/application, which keep their rules in com/ohmyagent/internal/domain and
-- their data behind ports that com/ohmyagent/internal/adapter/out fills. Eight parts are modelled.
--
-- Auth: members, their roles and passwords. domain/auth is in Auth/Role.antt and Auth/Member.antt,
--   the table of adapter/out/db/member_repository.go in Auth/Store.antt, the calls of
--   application/auth/usecase.go in Auth/UseCase.antt. The proofs: Auth/Rows.antt on the table,
--   Auth/Gates.antt on the gates, Auth/Hierarchy.antt, Auth/Others.antt and Auth/Traces.antt on what commands reach,
--   Auth/Outcomes.antt on their results, Auth/Login.antt on logging in.
-- ToolPolicy: which tools a member's agent may use. domain/toolpolicy/model.go is in
--   ToolPolicy/Policy.antt; application/toolpolicy/manager.go with its two tables in
--   ToolPolicy/Manager.antt. Its gate is the RequireAdmin of the member use cases, a parameter here.
--   The proofs: ToolPolicy/Floor.antt, ToolPolicy/Cleaning.antt, ToolPolicy/Overrides.antt and
--   ToolPolicy/Coherence.antt.
-- Messaging: rooms, messages, read states, typing signals and presence. domain/messaging is in
--   Messaging/Model.antt, adapter/out/db/messaging_repository.go in Messaging/Tables.antt,
--   application/messaging/typing_cache.go in Messaging/Cache.antt, hub.go in Messaging/Hub.antt,
--   and service.go in the modules under Messaging/Service. The proofs stand in the other modules
--   of Messaging, named for what they are about; Messaging/Requests.antt has the calls as data.
--
-- ServiceAccount: accounts that are not people, with API keys. domain/serviceaccount/model.go is in
--   ServiceAccount/Model.antt, adapter/out/db/serviceaccount_repository.go in
--   ServiceAccount/Tables.antt, application/serviceaccount/usecase.go in ServiceAccount/Service.antt.
--   Its gate is that of the member use cases, an argument here. The proofs:
--   ServiceAccount/Revocation.antt and ServiceAccount/Tokens.antt.
--
-- Quota: how many tokens a member may use in a day, a week and a month. What domain/quota takes of
--   Go's calendar is in Quota/Calendar.antt, domain/quota itself in Quota/Model.antt,
--   adapter/out/db/quota_repository.go in Quota/Tables.antt, application/quota/service.go in
--   Quota/Service.antt, its calls as data in Quota/Requests.antt. The proofs: Quota/Periods.antt and
--   Quota/Keys.antt on windows and their keys, Quota/Usage.antt and Quota/Ledger.antt on what is
--   counted, Quota/Enforcement.antt and Quota/Checks.antt on the check, Quota/Settings.antt on limits.
-- AgentRegistry: which agents there are, whether they live, and tokens for calls between them.
--   domain/agentregistry/model.go is in AgentRegistry/Model.antt, the two repositories in
--   AgentRegistry/Tables.antt with the JSON columns in AgentRegistry/Column.antt,
--   application/agentregistry/usecase.go in AgentRegistry/Service.antt and broker.go in
--   AgentRegistry/Broker.antt. The proofs: AgentRegistry/Validation.antt, Registration.antt,
--   Uniqueness.antt, Ownership.antt, Prefilter.antt, Discovery.antt, Sweeping.antt,
--   Tokens.antt and Minting.antt.
-- Provider: which LLM provider is used, with its configuration and key. domain/llmprovider/model.go
--   is in Provider/Model.antt, adapter/out/db/llmprovider_repository.go in Provider/Tables.antt, and
--   application/llmprovider/usecase.go with the cache and the factory of adapter/out/llm in
--   Provider/Service.antt, its calls as data in Provider/Requests.antt. The proofs:
--   Provider/Single.antt, Provider/Coherence.antt and Provider/Keys.antt.
-- Project: the projects and conversations that clients synchronise. domain/project/model.go is in
--   Project/Model.antt, adapter/out/db/project_repository.go and conversation_repository.go in
--   Project/Tables.antt, application/project/service.go in Project/Service.antt, and the calls as
--   data with the cap of conversations in Project/Caps.antt.
--
-- Common is shared: tests and strings, lists as sets, Go maps, and the calls. A call is a function
-- from a state to a result or an error and the next state. The state holds tables and a schedule
-- of driver failures: each statement takes the next entry of the schedule, and where that is true
-- the statement fails and has no effect; after the schedule no statement fails. So every theorem
-- on a call covers each pattern of failures. A transaction of the source is one statement.
--
-- Correspondence. A function keeps its name, in snake_case; the clock and fresh ids are arguments,
-- in front; the context and the log are left out. Numbers are natural, times unix seconds (the
-- clock of the typing cache, of the quotas and of the registry: nanoseconds; a call reads it once).
-- Counts of tokens and durations are taken to stay below 2^63. A nil slice and an empty one are one
-- list, and a NULL text in a column and "" are one text. Where a use case depends on how the
-- database counts the rows of an update, the quotas, the registry and the providers take the driver
-- as an argument; Auth and ToolPolicy count as SQLite does. Requests are served one at a time; where the source meets
-- a race, in CreateDirect, what other requests commit in between is an argument. Functions are by
-- recursion on their data, but for two: the search for the month of a day has the day as fuel,
-- which is enough as no month is empty, and the digits of a number have the number, as a tenth is
-- less.
--
-- Arguments of the calls: the password hasher (bcrypt), the signer and the hasher of tokens, the
-- gates of the tool policy, the service accounts, the quotas and the registry, the directory of
-- names, the ciphers, the broker's signer, the call of a provider,
-- gzip, the store of contents, the cut of a long name, the limit of conversations, LIKE,
-- url.Parse, ToLower and Go's tables of scripts.
--
-- Not modelled: the handlers, pages and templates; queries for lists, pages and counts; the bytes
-- of attachments; the Redis broadcaster, which gets what the outbox holds here; the
-- sessions, transcripts and client versions; the lists of projects; the share in percent of a
-- quota's status.
pub mod Common
pub mod Auth
pub mod ToolPolicy
pub mod ServiceAccount
pub mod Messaging
pub mod Quota
pub mod AgentRegistry
pub mod Provider
pub mod Project
