-- ===== src/Lib.antt =====
-- A verification library for the backend of a marketplace of small jobs: employers post jobs, workers
-- take them, and money moves between wallets. The program is a Django project; the model takes its
-- services, the rows that they read and write, and what they send out.
--
-- How the parts interact. A login (apps/accounts/services.py) makes a user, and a signal makes the
-- wallet (apps/accounts/signals.py). A deposit request is made and later confirmed by a callback
-- of a payment provider (apps/payments). A new job (apps/jobs/services.py) moves its price from the
-- available to the held balance of the employer; an acceptance opens a chat room
-- (apps/chat/signals.py); a completion pays the worker; a cancellation gives the price back.
--
-- Which file models which part:
--   Core/Errors: the classes of apps/core/exceptions.py. Core/Envelope: its handler, with
--     apps/core/renderers.py and apps/core/views.py. Core/Commission, Core/Floats:
--     calculate_commission of apps/core/utils.py and the true division that it uses. Core/Text: the
--     texts that f-strings make.
--   Data/*: the models.py of accounts, payments, jobs and chat, one record for a table.
--   World: the database, the cache and the queue as one record, with transaction.atomic.
--   Payments/Wallets, Payments/Deposits: WalletService and DepositService of apps/payments/services.py.
--     Payments/Providers: apps/payments/providers/payment_providers.py. Payments/Webhooks: the two
--     callbacks of apps/payments/views.py. Ledger, Posting, Books and Confirmation are about these.
--   Jobs/Service: JobService of apps/jobs/services.py. The other files of Jobs are about it.
--   Accounts/Auth, Accounts/Otp, Accounts/Users: the services of apps/accounts/services.py.
--     Accounts/Telegram: apps/accounts/telegram_gateway.py. Tokens: the tokens there, and UserManager
--     of apps/accounts/models.py. Tasks: apps/accounts/tasks.py. The other files of Accounts are about
--     these.
--   Chat/Signals: apps/chat/signals.py. Chat/Rooms: apps/chat/consumers.py and the unread count of
--     apps/chat/serializers.py; Frame and Reading are about these.
--     Chat/History: the room list and the history of apps/chat/views.py.
--   Notifications/Inbox: apps/notifications/models.py and the views over it; Reading is about it.
--     Service: apps/notifications/services.py, which does not parse and is modelled as it is meant, and
--     the monthly cleanup of tasks.py; Push: push.py; Sms: sms.py, all beside it;
--     Delivered and SmsRetry are about these.
--   Core/Pages, Core/Ceiling: paginate_queryset of apps/core/utils.py, and Core/Phone:
--     normalize_phone_number there. Core/SoftDelete: apps/core/models.py.
--   Jobs/Discovery: JobDiscoveryService of apps/jobs/services.py and its query; Listing is about it,
--     and Mine is my_jobs of apps/jobs/views.py. Jobs/Categories: the category list there. Core/Geo:
--     the two geo functions of apps/core/utils.py. Core/Sorting, Core/Strip: list.sort, str.strip and
--     str.isdigit, as the code uses them.
--   Market: all services together. Sessions: requests that overlap, step by step, with the row locks
--     of apps/jobs/services.py; Roles: who posts and who takes jobs. Jobs/Finish: the calls that a job takes, one after the other.
--   Api/Access, Api/Objects: apps/core/permissions.py. Api/Accounts: apps/accounts/views.py and its
--     serializers. Api/Requests: the requests that change the database, with the views of jobs,
--     payments, chat and notifications behind their permissions; the files below it are about these.
--   Scripts: scripts/seed_data.py. Seed has the categories, users and wallets, SeedTables and
--     SeedJobs the jobs, the reset and the command; SeedMoney and SeedSurplus are about the money in
--     it.
--   Examples: runs at concrete inputs.
--
-- How state corresponds. A table is a list of keys and rows, and all tables take their keys, which
-- are integers counted for each table in the program, from one counter. A wallet is known by its
-- owner. Amounts are natural numbers in tiyin; that a column refuses a value below 0 or above 2^63 - 1
-- is part of a save. A service method is a function from the world to a result or an
-- exception and the next world, and runs alone; Market/Sessions is about calls that overlap. That
-- another transaction holds a lock is a part of the environment, and so is whether the chat receiver,
-- which Django holds by a weak reference, still exists, and whether the database can lock the nullable
-- side of a join: completion and cancellation join the worker under a lock, which PostgreSQL, the
-- database that is configured, refuses, so that there these two calls always raise. Times are whole seconds. A double that
-- comes from a division is a fraction with the error bound that the language documents. A send of
-- a text message that is refused calls itself again; its fuel is the call depth that the
-- interpreter allows, and no fuel is the exception that the interpreter raises. Digits are printed
-- with as much fuel as the number itself plus one, which exceeds the number of its digits.
-- Arithmetic on doubles, which places need, is a parameter. A request gives a status and the next
-- world; the user whom the authentication finds is part of the request, and an inactive one is refused.
--
-- Not modelled: what the rows put into the bodies of answers, serializers other than
-- those named here, the admin pages, the refresh of JWT tokens, and the requests to the gateways
-- themselves. Texts for display (description, meta, data) and updated_at are left out, since nothing
-- reads them back. The tasks that notify are left out, since the module that they import does not
-- parse. The paging of the views is the REST framework's.
pub mod Prelude
pub mod Core
pub mod Data
pub mod World
pub mod Payments
pub mod Chat
pub mod Jobs
pub mod Accounts
pub mod Notifications
pub mod Market
pub mod Scripts
pub mod Api
pub mod Examples
