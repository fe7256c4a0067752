-- ===== src/Lib.antt =====
-- Verification library of Quorfix, the bug tracker: the Django backend (backend/apps), in Python.
--
-- The program. Clients call REST endpoints (views), which find the row in the organization of the
-- caller and call a service. A service opens a transaction, locks the row, checks the version that
-- the client sent, whether anything is archived, and the role policy, writes the rows, adds to the
-- activity trail, and hands an event to the notification queue. Roles, invitations and removals are
-- the business of the organizations app, which reaches into bugs and projects when a member leaves.
--
-- How it is modelled. A service is a function from the database (Models.Db, one table for each
-- Django model) to a result or an exception beside the database after it (Exec): what was written
-- before an exception stays written until `atomic`, which stands for `transaction.atomic`, puts it
-- back. One call of a service runs as a whole, as the row lock makes it; interleavings are sequences
-- of calls. The clock, the keys drawn by `uuid4`, `str.lower`, the text of a date and the hash of a
-- token are parameters (Env); draws of one call are numbered in the order of the code.
--
-- Which file models what:
--   Prelude, Prelude/*      shared names, tests, lists, and Python's `str` as a list of code points
--   Exec, Exec/Ensures      service calls, and the rules by which a block is reasoned about
--   Table, Table/*, Links   tables under primary keys, their queries, many-to-many tables
--   Models, Models/*        the models.py of every app: choices and rows
--   Registry                backend/apps/core/registries.py
--   Activities              backend/apps/activities/services.py
--   Notifications/Notify    `notify` of backend/apps/notifications/services.py
--   Notifications/Recipients, Notifications/Tasks
--                           backend/apps/notifications/resolvers.py, and the task of tasks.py that
--                           creates the notifications of an event
--   Notifications/Inbox     the read marks of selectors.py, services.py and views.py
--   Notifications/Preferences
--                           the e-mail preferences of services.py
--   Notifications/Emails    the task that sends an e-mail; the mail server and Celery are arguments
--   Bugs/Workflow           backend/apps/bugs/workflow.py
--   Bugs/Policies           backend/apps/bugs/policies.py
--   Bugs/Monad              the exceptions and shared steps of backend/apps/bugs/services.py
--   Bugs/Services/*         its services: Create, Update, Transition, Assign, Archive, Tags,
--                           Relationships, Duplicates (the chain of duplicates), Removal
--   Bugs/Services/Duplicates/Links
--                           what the chain says of the rows, all of them
--   Bugs/Views              the mutating endpoints of backend/apps/bugs/views.py
--   Bugs/Versions/*         what each service does to the version of its row
--   Bugs/Views/Conflicts    concurrent requests and tenants
--   Bugs/Transitions, Bugs/Outcome, Bugs/Numbers
--                           what a transition and a creation leave behind
--   Bugs/Selectors, Bugs/Selectors/Ordering
--                           the list of bugs in backend/apps/bugs/selectors.py, and ordering.py
--   Bugs/Serializers        what backend/apps/bugs/serializers.py offers and takes
--   Projects                backend/apps/projects/services.py
--   Organizations/Services  roles and removal in backend/apps/organizations/services.py, and the
--                           demo accounts of backend/apps/accounts/services.py
--   Organizations/Invitations, Organizations/Administrators
--                           invitations, and the administrator that stays
--   Organizations/Setup, Organizations/Slugs
--                           the first-run setup, and the slug that it gives
--   Comments/*              backend/apps/comments: mentions.py, policies.py and services.py, and the
--                           life of a comment
--   Attachments/Filenames, Attachments/Validators, Attachments/Storage
--                           backend/apps/attachments/validators.py, and the protocol of providers.py
--   Attachments/Services    its policies.py, services.py and tasks.py
--   Attachments/Steps, Attachments/Lifecycle, Attachments/Removal
--                           the life of an attachment
--   Core/Environ            backend/apps/core/env.py
--   Core/TarSafety          backend/apps/core/tar_safety.py; Core/TarSafety/Walk and Extraction
--                           what its checks let through
--   Core/Checks, Core/Urls  backend/apps/core/checks.py, with what it needs of `urlparse`; what
--                           that refuses beyond unmatched brackets is an argument
--   Tests/*                 the theorems at concrete inputs, and runs of the definitions
--
-- Bounds and fuel. The walk along duplicate links runs for the 25 rounds of the source and ends as
-- unverifiable after them, as the source does. The search for a free slug runs for one round more
-- than there are organizations, which is proved to be enough. Every other loop is structural
-- recursion over the rows or the text. Keys and instants are natural numbers (128-bit keys keep their
-- order); versions and counters are natural numbers too, the database's range for them is not
-- modelled. The settings
-- COMMENT_EDIT_WINDOW_MINUTES, INVITATION_EXPIRY_DAYS and MAX_ATTACHMENT_SIZE_BYTES have the values
-- of backend/config/settings/base.py, the last one that outside the demo mode.
--
-- Not modelled. Pages of a list, most serializers, throttles and permissions of the REST
-- framework; passwords and sessions; a broker that loses events; the scanner of attachments;
-- the local store of attachments, for which the services take any store with its operations;
-- analytics; the frontend. Foreign keys to rows that are missing are answered like `DoesNotExist`. The row of a project or of an
-- invitation that a view reads and hands to a service is read at the start of that service.
pub mod Prelude
pub mod Exec
pub mod Table
pub mod Links
pub mod Env
pub mod Core
pub mod Attachments
pub mod Models
pub mod Activities
pub mod Registry
pub mod Notifications
pub mod Bugs
pub mod Projects
pub mod Organizations
pub mod Comments
pub mod Tests
