-- ===== src/Lib.antt =====
-- Verification of the zaraamad portal backend, a FastAPI service over SQLAlchemy (app/).
--
-- A request reaches a controller, which resolves the caller (a CurrentUser) and calls one
-- method of a service with a database session. The method checks, changes rows and commits
-- once. It returns a value or raises; the session is then closed, so what was not committed is
-- lost. The models follow that: an operation is an `Action`, a function from a session
-- (committed rows and current rows) to a result and a session, written with do blocks in the
-- order of the code.
--
-- - Base with its child modules: shared names, Boolean tests on the native numbers, integers,
--   lists, the rows of a table by their key, buckets and queries.
-- - Text: Python texts as lists of code points. Json: JSON values. Http: the exceptions and the
--   names of the messages in app/common/messages.py.
-- - Database: the rows of app/modules/*/schemas.py and the enumerations of app/common/enums.py.
--   Session: app/common/database.py, with commit and rollback; Session/Ends has the rules for
--   what a call ends with. Identity: CurrentUser of app/common/dtos.py.
-- - Tickets: app/modules/tickets/service.py, with the policies of access and of status.
--   Tickets/Effects has the outcome of each operation, Tickets/Steps the step relation that the
--   operations refine, Tickets/Invariant what any sequence of requests keeps, Tickets/Closing
--   how a ticket is closed, Tickets/Query the list with its filters, Tickets/Tests the runs.
-- - Pagination: app/common/pagination.py. Pagination/Cover has the theorems on pages.
-- - Calendar: app/common/formatters/jalali_datetime.py. Calendar/Gregorian, Calendar/Months and
--   Calendar/Jalali relate the counts of days to calendars that are described independently of
--   the code, Calendar/RoundTrip composes the conversions. Calendar/Validator:
--   app/common/validators/jalali_datetime.py, with Calendar/Accepts and Calendar/Canonical.
-- - Password: app/common/security/password_service.py. Password/Verify has its theorem.
-- - Auth: app/modules/auth/service.py and app/common/services/otp_provider.py. Auth/Outcome has
--   the branches of the calls, Auth/Otp the single use of codes, Auth/Login the login by
--   password.
-- - Users: app/modules/users/service.py. Users/Roles has the profiles that the roles allow,
--   Users/Outcome the branches of the operations, Users/Invariant what they keep, public sign
--   up included, Users/Query the list, Users/Listing what its pages show.
-- - Feedback: app/modules/feedback/dtos.py and service.py, without its list. Feedback/Options
--   has the normal form of the options, Feedback/Outcome what is made of a submission.
-- - Security: app/common/security/jwt_service.py and app/common/security/dependencies.py.
--   Security/Caller says whom a token stands for.
-- - Access, Catalog: app/modules/service_catalog/service.py. Catalog/Projects, Catalog/Groups
--   and Catalog/Services keep the catalog, Catalog/Configs what each customer is offered,
--   Catalog/Selection and Catalog/Purchases what they buy, Catalog/Snapshots what they
--   selected; Catalog/Tree and Catalog/Summary add the prices up. Catalog/Selects,
--   Catalog/Outcome and Catalog/Writes have the branches of the purchase calls, Catalog/Totals
--   and Catalog/Requests the stored totals, Catalog/Offers the configurations as a map,
--   Catalog/AddsUp and Catalog/Prices the sums, Catalog/Selecting the snapshots.
-- - Forms: app/modules/forms/service.py. Forms/Parents has the check of the parent of a field
--   and the move of a field below it, and Forms/Schemas the forms; the loop over the parents
--   runs for as many rounds as there are fields. Forms/Acyclic has what the loop finds and why
--   the rounds are enough, Forms/Outcome the branches, Forms/Placing and Forms/Trees the fields
--   as trees, Forms/Resolve the search for the form of a municipality.
-- - Customers: app/modules/customers/service.py. Customers/Income has the checks of an income
--   request, Customers/Upsert the calls, Customers/Service the customers,
--   Customers/BridgeConfig their bridges; Customers/Sound has what the checks let through,
--   Customers/Stored and Customers/Replaced the income tables as maps by customer,
--   Customers/Refines the outcome of a bulk upsert.
-- - Mobile: app/common/validators/mobile_validator.py. Mobile/Normal describes what it returns.
--
-- Numbers are native natural numbers: keys, seconds, days. The loop over the twelve months is
-- structural in the number of months left, so it needs no more fuel than 12. Constraints of the
-- database are a parameter `violation`, the text of the error with which a commit is refused.
-- The clock, drawn keys, salts and codes are arguments. The encoding of tokens, the key
-- derivation, the parsing of digits beyond ASCII, the SMS gateway and the order of rows that
-- have equal sort keys are parameters of the definitions that use them. Requests of one
-- sequence follow one another; transactions that overlap are not modelled.
--
-- Not modelled: the list of feedback, the synchroniser of form fields, the service of metadata,
-- the clients of the SMS gateway and of the portal bridge, the batch commands, the controllers
-- and mappers, configuration and migrations.
pub mod Base
pub mod Text
pub mod Http
pub mod Json
pub mod Database
pub mod Session
pub mod Identity
pub mod Password
pub mod Auth
pub mod Pagination
pub mod Calendar
pub mod Tickets
pub mod Users
pub mod Feedback
pub mod Forms
pub mod Security
pub mod Access
pub mod Catalog
pub mod Customers
pub mod Mobile
