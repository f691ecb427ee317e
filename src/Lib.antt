-- ===== src/Lib.antt =====
-- Verification of server_components: text, JSON and calendar helpers, row operations, tenant-editable values, themes,
-- sign-in limits, sessions, request guards, tenancy, migrations and the job scheduler.
--
-- Parts and files. All paths are from the root of the repository.
--   Common: shared helpers. Common.Tests has the Boolean tests on the native numbers and the conditional,
--     Common.Lists the list functions, Common.ByteText strings as lists of bytes, Common.Trim the two loops of
--     a trim, Common.Int signed integers.
--   Data.ForeignKeys: components/data/sql_util/schema/foreign_key_manager.cpp. A manager is a handle on a list of
--     references in a heap, so that copies share it and clones do not.
--   Data.ConnectionPool: components/data/sql_util/database_access/pooled_transaction_provider.cpp, as steps that
--     threads take in any order.
--   Data.Metadata: the columns of a table (database_metadata.cpp) and the escaping of names (database_helper.cpp), in
--     components/data/sql_util/database_access.
--   Data.Crud: components/data/sql_util/database_access/database_crud_helpers.cpp. Data.Crud.Params has the parameters
--     of a statement (transaction.h) and the clauses that refer to them, Data.Crud.Statements and Data.Crud.Queries
--     the statements of PrivateSql, Data.Crud.Operations the operations, which build a statement and run it,
--     Data.Crud.Templates the display templates. Each statement is a text with its parameters, or an exception.
--   Foundation.Text, Foundation.Numbers: components/foundation/util/types.cpp.
--   Foundation.Json: components/foundation/util/json_value.h. Foundation.Json.Reading is a reader by the grammar of
--     JSON, to which the writer is compared. It takes what the grammar allows of the forms that are written.
--   Foundation.ICal: components/foundation/util/ical_generator.cpp. The document is built as text, then folded.
--   Foundation.LogThrottle: components/foundation/util/log_throttle.cpp.
--   Branding.SiteValues: components/platform/business_logic/branding/site_value_validation.cpp.
--   Branding.BundleAssets, Branding.Fonts, Branding.ThemeTokens: theme_bundle_assets.cpp, site_font_inventory.cpp and
--     site_theme_tokens.cpp of the same directory. Branding.Bundle is a theme bundle with the tests on its settings
--     (theme_bundle.h, theme_bundle_import.cpp), Branding.Bundle.Fatal what refuses it, Branding.Bundle.Pruning what
--     is dropped from it, and Branding.Bundle.Applying the settings that an import writes. Branding.Bundle.Kinds
--     and Branding.Bundle.Names describe the files and their names independently of the code.
--   Auth: components/platform/business_logic/auth. Auth.LoginAttempts is the table of attempts
--     (components/platform/sql_util/table_helpers/login_attempts.cpp), Auth.LoginGate the check before a
--     password is verified (login_gate.cpp), Auth.Lockout what a login does to the account (person.cpp,
--     LoginPerson). The gate reads what the other two write. Auth.Tokens has the tables of sessions and device
--     tokens (sessions.cpp and device_tokens.cpp of table_helpers), Auth.Sessions what PersonHelper does with them
--     (person.cpp): one function per statement or method, over the list of rows.
--   Endpoints: components/platform/endpoints. The guards csrf_guard.cpp, cloudfront_origin_guard.cpp and
--     tenant_resolution_guard.cpp are functions from a request and a response to a response; Endpoints.ProxyTrust
--     is components/platform/business_logic/auth/proxy_trust.cpp.
--   Tenancy: components/platform/business_logic/tenancy. Tenancy.Resolver has the interface that the tenant guard
--     uses, and both resolvers; Tenancy.Registry is the registry of tenant_resources.cpp.
--   Migration.Runner: components/platform/business_logic/migration. Exceptions are values.
--   Scheduler: components/scheduler/scheduler. Scheduler.Jobs is job_scheduler.cpp, Scheduler.Refreshing is
--     scheduler.cpp; the handler of a timer is a function of how its wait completed.
--
-- Conventions. A string is the list of its bytes. A 64-bit integer is an unbounded integer; theorems that read
-- numbers back from text, or whose conclusion depends on a sum of times or on a count, assume that they fit. The source
-- adds int64_t, where an overflow is undefined, and bigint, where PostgreSQL raises an error: a sum that does not fit is
-- not modelled. An SQL table is the list of its rows and a statement a function
-- of it; the times that a statement reads from the clock are arguments. State is passed explicitly.
--
-- Fuel. The loops that walk a string by positions run on fuel, one unit a round: FoldLine gets the length of
-- its line and takes a byte or more a round; the folding loop of the document gets one more than the length and
-- passes two bytes or more; ParseTemplateColumns gets the length of the template and passes two bytes or
-- more; GetCookieValue gets one more than the length of the header and passes a semicolon.
-- The theorems on these functions have no hypothesis on the fuel. The reader of JSON, which is a description and no code
-- of the program, gets a unit for each value, entry and closing bracket.
--
-- Parameters, for code that is not in the repository: the calendar of the date library, the digits that a stream
-- prints for a double, sodium_memcmp, Argon2id, the hash and the Base64 of libsodium, the quoting of names and
-- the running of statements by libpqxx, equality on CITEXT columns, the equality of a UUID with a text, the
-- environment, Crow's look-up of headers. The client of the scheduler is an interface.
--
-- Not modelled: the event loop and signal handling of the scheduler, its HTTP client, logging other than its
-- throttle, the endpoints' JSON plumbing, the JSON form and the archives of theme bundles, mail, unique constraints, and
-- what PostgreSQL does with a statement.
pub mod Common
pub mod Data
pub mod Foundation
pub mod Branding
pub mod Auth
pub mod Tenancy
pub mod Migration
pub mod Scheduler
pub mod Endpoints
