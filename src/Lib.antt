-- ===== src/Lib.antt =====
-- The backend of a customer management system for schools (NestJS, TypeORM), modelled where it
-- decides: who may log in and for how long, what a payment goes through, what a role may do, and
-- what becomes of submissions, messages, notifications and groups.
--
-- The services share one database. `Database` takes TypeORM and Postgres as a parameter: a record of
-- operations on the rows of a table with the laws that the services rely on, for which
-- Database/InMemory gives an instance. A service method is a function of the state into a result and
-- the next state (`Action` of Base/Action); an exception keeps what was written before it. The clock,
-- new identifiers, random codes and salts are arguments. Each method is one sequence of steps, so
-- requests that interleave are not modelled.
--
--   Base            tests on numbers and texts, lists, integers, results and actions
--   Text            texts as lists of character codes, decimal numerals
--   Shared/Enums    src/shared/enums/index.ts
--   Payments        src/modules/payments: Create (create, createInvoice, getInvoice), Settle (pay,
--                   refund, update), Discount (applyDiscount), Overdue (getDebtSummary, and
--                   processOverduePayments of src/modules/scheduler/scheduler.service.ts)
--   Access          src/common/guards and src/common/utils/permissions.util.ts
--   Common          src/common/utils: Pagination (paginate, paginateArray, paginateCursor,
--                   getPaginationParams), Slug (generateSlug, generateUniqueSlug)
--   Exams           src/modules/exams: Manage (findOne, publish, addQuestion, remove), Attempt
--                   (startAttempt, submitAttempt)
--   Users           src/modules/users: Entity (entities/user.entity.ts), Service (users.service.ts, on
--                   the store of Auth)
--   Auth            src/modules/auth/auth.service.ts: Tokens (generateTokens, buildUserPayload), Login
--                   (validateUser, login), Session (refreshToken, logout, register), Reset
--                   (forgotPassword, verifyOtp, resetPassword, changePassword), Account (the second
--                   factor and invitations)
--
--   Chat            src/modules/chat/chat.service.ts: Rooms, Messages, Conversations
--   Homework        src/modules/homework/homework.service.ts: Assignments (create, findOne, update,
--                   remove), Submissions (submit, grade, getSubmissions), Detail (getDetail)
--   Notifications   src/modules/notifications/notifications.service.ts: Send (create, send and the
--                   event handlers), Inbox (markRead, markAllRead, remove, deleteById), Templates;
--                   Transport is sms.service.ts beside it and sendPlainEmail of
--                   src/mail/mail.service.ts
--   Roles           src/modules/roles: Service (roles.service.ts over roles.repository.ts)
--   Groups          src/modules/groups/groups.service.ts; the join table of groups and students is
--                   a parameter too, `JoinTable` of Groups/Entities, with an instance in
--                   Groups/InMemory
--   Tenants         src/modules/tenants: Service (tenants.service.ts)
--   Courses         src/modules/courses/courses.service.ts: Lessons, Enrolment (enrollStudent)
--
-- `pay` of the payments and the nightly job write the same rows: the job makes pending payments
-- overdue, and `pay` settles both; Payments/History lets them and `refund` follow one another, and
-- Payments/Balance counts what succeeds. `login` builds on `validateUser`, whose lockout counts on the
-- row of the user, and on the tokens, of which `logout` clears the stored one. A notification is
-- written before it is delivered and updated afterwards; the conversations of the chat are its rooms,
-- behind a check of the participants. Whoever is in which group is told by Groups/Replay as a relation
-- that the granted requests build.
--
-- Amounts are natural numbers of cents and percentages of hundredths, totals are integers; the
-- source computes with floating-point numbers, so shares of a cent are cut off here. Identifiers and
-- instants are natural numbers. Every loop but one runs over a list. The loop of `generateUniqueSlug`
-- has fuel, one round more than there are slugs in use, which is enough.
--
-- Of the columns that every entity inherits (src/shared/entities/abstract.entity.ts) `updated_at`,
-- `created_by` and `updated_by` are kept where the code shows or writes them, and `updated_at` for
-- payments too; the other records leave them out.
--
-- Not modelled: the controllers, DTO validation and database migrations; the listings, reports and
-- searches that only query, which are most of the modules admin, analytics, owner, search, students
-- and teachers; mail layouts, PDF generation, file storage, sockets and health probes; and, so far,
-- the modules attendance, schedules, certificates and audit.
pub mod Base
pub mod Database
pub mod Text
pub mod Common
pub mod Shared
pub mod Payments
pub mod Access
pub mod Users
pub mod Auth
pub mod Exams
pub mod Chat
pub mod Homework
pub mod Notifications
pub mod Roles
pub mod Groups
pub mod Tenants
pub mod Courses
