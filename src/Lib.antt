-- ===== src/Lib.antt =====
-- The judge worker: a Celery task takes a submission, one of three modes runs it in a sandbox, and a
-- result goes back. Beside it stands a small web application for operators, with login sessions and
-- permissions. This library models the judge module, app/modules/judge (Judge), the loading of the
-- application's modules, app/platform/module (Platform), most of app/core/security (Security), the
-- address of a client, app/core/network/client_ip.py (Network/ClientIp), and the checks in front of
-- a request, app/deps/auth.py (Web/Auth) and app/middleware/rate_limit.py (Web/RateLimit).
--
-- tasks.py `execute_judge` and orchestrator.py `judge` pick a mode and turn what it raises into a
-- failed result (Judge/Orchestrator). The modes are modes/standard.py (Judge/Standard: Batch has the
-- loop over the results and the report, Run the sandbox calls), modes/spj.py (Judge/Spj) and
-- modes/interactive.py (Judge/Interactive: Race has the two waits and the descriptors, Run the loop).
-- Each mode is a block over a state: it returns or raises, and the state outlives an exception
-- (Common/Exec). The sandbox library is a record of calls, the `Host` of each mode, and so are
-- `shlex.split`, the UTF-8 decoder, SHA-256, the remote storage and Pydantic's check of a result.
--
-- The modes share scoring.py (Judge/Scoring), result_mapper.py (Judge/Mapper), metrics.py
-- (Judge/Metrics), checker.py (Judge/Checker), case_builder.py (Judge/CaseBuilder), data_loader.py
-- (Judge/DataLoader), language_config.py (Judge/LanguageConfig) and sandbox_config.py
-- (Judge/SandboxConfig); Judge/Tally has the variables that two of them carry from case to case, and
-- Judge/Entries the reading of the payload. data_loader.py asks file_cache.py (Judge/FileCache), whose
-- state is the data files, the meta files and the files of the direct download, by their keys; the
-- purge and the eviction take the key from the name of a meta file.
-- schemas.py is Judge/Types, config.py Judge/Settings and the callback of pool_metrics.py
-- Judge/PoolMetrics.
--
-- discovery.py (Platform/Discovery) decides which modules are loaded and sorts them; its `visit` is
-- recursive on the depth of the path, for which the number of modules is enough, since a path repeats
-- no name. loader.py, hooks.py and router.py are Platform/Loader: what is imported, run and
-- included, in which order.
--
-- session.py (Security/Session: Services has what is used of Redis, json and datetime with the
-- documented behaviour of each, Store the operations, Steps the states that they lead to) keeps a
-- string for each token and a set of tokens for each account. Each operation runs to its end before
-- the next; what two of them do between each other's commands is not modelled. permission_registry.py
-- is Security/PermissionRegistry, data_scope.py Security/DataScope, masking.py Security/Masking,
-- password_policy.py Security/PasswordPolicy, permission.py and account_type.py Security/Permission,
-- and transport.py is in two parts: Security/OneTime has what Redis keeps of a captcha and of a password
-- key, Security/Captcha the bitmap of a captcha, where the loop that draws a line is given as many
-- turns as its two points are apart in both directions together. Web/Auth reads a session from the
-- store, compares it with the client's address, and tests the permission; Web/RateLimit counts the
-- requests of a key.
--
-- A `dict` is an association list in insertion order (Common/Assoc), a missing key an `Option`. The
-- points are of a type with a sum, a quotient and a test (Judge/Float); where a theorem needs that
-- the sum is associative, as it is for whole numbers and not for all floats, it says so. Times,
-- sizes and exit codes are natural numbers, coordinates are integers (Common/Int). Loops are
-- recursive on a list; the loop over the chunks of two files is recursive on its number of rounds,
-- which is that of Python's `range`.
--
-- The clock is read once in an operation, the locks that other threads hold are a predicate, and
-- files are replaced at once. Log lines are left out, but for the two warnings of sandbox_config.py.
-- Not modelled: the hashing and the encryption of passwords and the encoding of pictures, which call
-- libraries; settings, logging and exception handlers; the rest of app/platform, app/api and
-- app/worker, which are storage, mail, metrics and process layers over libraries; and the set-up of
-- Celery.
pub mod Common
pub mod Judge
pub mod Network
pub mod Platform
pub mod Security
pub mod Web
pub mod Tests
