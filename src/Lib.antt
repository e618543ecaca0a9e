-- ===== src/Lib.antt =====
-- RustBase: the policy hierarchy of the three scopes, the guards of the principals, the lockout of
-- logins, the tables of tokens and codes, and the collections of an app with their filters, access
-- rules and records.
--
-- The program keeps one database for the system, one for each workspace and one for each app. A
-- policy bounds what the scopes below may store for a field. The endpoints of the policies ask the
-- guards, validate the chain of scopes, write the database of their scope, and let the engine clamp
-- what is stored below. Logins go through the lockout, one-time codes and one-shot tokens, and end in
-- refresh tokens. An app keeps its collections in tables of its own. A request for records passes the
-- guards or the access rule of the collection, whose template is filled in, parsed and conjoined with
-- the filter of the request; the filter is translated to SQL, and evaluated in memory for realtime.
--
-- Files and the code that they model, all under crates/:
--   Base            notation, lists, texts as code points, tables, integers
--   Error           rustbase-core/src/error.rs, and the status of rustbase-api/src/error.rs
--   Policy          rustbase-core/src/config.rs: PolicySpec::allows is `allows`, and so on
--   Auth            rustbase-auth/src/token.rs and rustbase-api/src/auth/extract.rs
--   Tenancy         the tables of rustbase-db/src/{policies,audit,workspaces,apps}.rs
--   PolicyEngine    rustbase-db/src/policy_engine.rs
--   PolicyApi       rustbase-api/src/policies.rs, with the sequences of requests in Requests
--   Lockout         rustbase-api/src/security.rs
--   Revocations     rustbase-auth/src/revocation.rs
--   OneShot         rustbase-db/src/{password_resets,email_verifications,mfa_challenges}.rs; Race has
--                   the statements of several calls in any order
--   EmailOtps       rustbase-db/src/email_otps.rs
--   RefreshTokens   rustbase-db/src/tokens.rs
--   Sessions        rustbase-api/src/auth/{refresh,logout}.rs over RefreshTokens
--   Accounts        rustbase-db/src/users.rs, and the confirm handlers of
--                   rustbase-api/src/auth/{password_reset,verify_email}.rs
--   LoginState      the tables and the tracker that the login handlers of rustbase-api/src/auth share
--   Login           rustbase-api/src/auth: Passwords has login.rs, Totp totp.rs with
--                   rustbase-db/src/user_totp.rs, and Otp email_otp.rs
--   OauthStates     rustbase-db/src/oauth_states.rs and secret_at_rest.rs
--   Filter          rustbase-core/src/filter.rs; Like and Substring have what patterns stand for
--   FilterSql       rustbase-db/src/filter_sql.rs
--   RuleTemplate    rustbase-core/src/rule_template.rs
--   Schema          rustbase-core/src/schema.rs, and the checks in rustbase-db/src/collections.rs
--   Collections     rustbase-db/src/collections.rs, with patch_collection in Patch, and in
--                   Api the handlers of rustbase-api/src/collections.rs
--   AppData         the databases of the apps, as the handlers open them
--   AccessRules     rustbase-db/src/access_rules.rs, and in Api rustbase-api/src/access_rules.rs
--   Records         rustbase-db/src/records.rs and rustbase-api/src/records.rs: the authorisation, list
--                   and get; Stored has the statements that write, Writes create, update and delete
--                   with their hooks and events
--   Examples        the theorems at concrete inputs
--
-- State is passed explicitly: a handler takes the state of all databases and returns the new one or
-- an error; in Accounts, Collections, Records.Writes, Sessions and Login it returns both, since
-- there an error may come after a write. A call of an operation that is not in Race runs without
-- others between its statements. Loops are structural recursion over lists, but for the loop of
-- RuleTemplate, which runs on fuel: one more than the characters of the template, which
-- RuleTemplate.Ends shows to be enough. An `i64` is compared, and in EmailOtps counts to five; the
-- one conversion to `u32` is written out. Times are numbers since the epoch; in Lockout they count
-- nanoseconds. Parameters stand for the SHA-256 of a token, for the signature of an access token,
-- for the hash of a password, for the derived Debug of a specification, for messages of SQLite, for
-- the numbers, arrays and objects of serde_json and its encoder, for the parser of filters and for
-- what SQLite refuses of a DDL statement. The theorems ask nothing of them, but where a hypothesis
-- says that SQLite refuses to add a UNIQUE column, that an order only permutes rows, that a
-- conjunction selects what both of its parts do, that `id = x` selects rows of the id x, that the
-- key of a table is unique, or that hooks write nothing.
--
-- Not modelled: the HTTP layer and the extraction of headers, signatures, password hashing, mail,
-- the JavaScript runtime, storage, migrations, the pools of connections, the grammar of filters,
-- what hooks do, the broker behind the events of records, the lists of collections, realtime, and
-- the endpoints that list policies. The columns of a table are their names and types; what their
-- constraints refuse of a write of records is a parameter. A deletion may drop the tables
-- `_collections` and `_access_rules` with their rows; the other operations take these two tables to
-- be there.
pub mod Base
pub mod Error
pub mod Policy
pub mod Auth
pub mod Tenancy
pub mod PolicyEngine
pub mod PolicyApi
pub mod Filter
pub mod FilterSql
pub mod RuleTemplate
pub mod Schema
pub mod Collections
pub mod AppData
pub mod AccessRules
pub mod Records
pub mod Lockout
pub mod LoginState
pub mod Login
pub mod OneShot
pub mod RefreshTokens
pub mod Sessions
pub mod EmailOtps
pub mod Revocations
pub mod OauthStates
pub mod Accounts
pub mod Examples
