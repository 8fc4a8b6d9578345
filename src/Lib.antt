-- ===== src/Lib.antt =====
-- The server of Prism: a NestJS application over PostgreSQL. This library models eight parts of it.
--
-- Workspaces: their members and roles, the one owner, invitations, deletion and restoration. The
-- limiter and the guard of the administration: a guard on each admin route compares the header
-- `x-admin-password` with the configured password and counts failures for each client in memory.
-- Embedding jobs: a queue in a table. Users and services create jobs, workers claim due jobs and
-- report how these ended. Sprints: users and services create, change and delete the sprints of a
-- workspace and put work items in them, in transactions followed by an event. Work item codes: texts
-- such as TASK-346, which pull requests name. The trash of work items: items go to the trash and come
-- back with their descendants. The deletion of stored objects: a queue in a table,
-- with leases, retries and an end to these. Passwords and sessions: reset tokens sent by e-mail, and
-- refresh tokens that a new password ends.
--
-- Files and what they model:
-- - Admin/Limiter.antt: src/modules/admin/services/admin-password-attempt-limiter.service.ts.
--   `get_retry_after_seconds`, `record_failure` and `record_success` are its methods on the record
--   `Limiter`, its two fields.
-- - Admin/Guard.antt: src/modules/admin/guards/admin-authentication.guard.ts (`can_activate`).
-- - Embedding.antt, Embedding/Repository.antt: src/modules/embedding/types and
--   src/modules/embedding/repository; one function for each query, on the record `Db` of the tables.
-- - Embedding/UseCase.antt: src/modules/embedding/usecases. A request is an `Action` on `Db`.
-- - Sprint.antt, Sprint/Repository.antt: src/modules/sprint/types and src/modules/sprint/repository.
-- - Sprint/UseCase.antt: the private methods of src/modules/sprint/usecases/sprint.usecase.ts;
--   Sprint/UseCase/Handlers.antt: its public ones, each as a transaction behind a gate.
-- - ObjectStorage/Deletion.antt: src/core/object-storage/object-storage-deletion.service.ts.
-- - Workspace.antt, Workspace/Repository.antt: src/modules/workspace/types and
--   src/modules/workspace/repository; Workspace/Members.antt and Workspace/Invitations.antt: the
--   requests of src/modules/workspace/usecases/workspace.usecase.ts. `remove_member_in` and the like
--   are the transactions of these, Workspace/Requests.antt takes the requests together as `serve`.
-- - Auth.antt: src/modules/auth/repository on the tables of credentials and tokens; Auth/Password.antt:
--   src/modules/auth/services/password-reset.service.ts and the requests of
--   src/modules/auth/usecases/auth.usecase.ts on passwords and refresh tokens.
-- - WorkItem/Trash.antt: the queries of src/modules/project/repository/work-item.repository.ts that
--   move work items with their descendants; WorkItem/Trash/UseCase.antt: the requests of
--   src/modules/project/usecases/work-item.usecase.ts that use them; WorkItem/Trash/Purge.antt: the
--   permanent deletion, with the documents and the queue of ObjectStorage/Deletion.antt, and
--   WorkItem/Trash/Purge/UseCase.antt its requests and the listing of the trash.
-- - WorkItem/Code.antt, WorkItem/Search.antt: src/modules/project/utils/work-item-code.ts.
-- - Prelude/Action.antt: errors over a state, and src/core/database/unit-of-work.ts as `run`.
-- - Tables.antt: the workspaces and members that the queries of several parts read.
-- The other files of each folder hold what is proved of these, and Examples.antt in each the runs at
-- concrete inputs. Prelude holds lists, text, decimals, maps and JSON fields.
--
-- The database is a record of lists of rows. A statement that breaks a constraint of .sql/ddl_v2.sql
-- is refused and changes nothing. NOW(), gen_random_uuid() and the rows that other transactions hold
-- locked are arguments, so a statement is atomic and sees one time. Ids are natural numbers, times are
-- milliseconds. What `query` resolves to for an UPDATE or a DELETE is a parameter, the `Driver` of
-- Prelude/Driver.antt: the rows alone, as the calls declare, or the rows and their count, as
-- src/core/object-storage/object-storage-deletion.service.ts says. PostgreSQL's INTEGER is bounded by
-- `int_max` where the code casts to it. Reading `new Date(text)`, SHA-256, the hashes of passwords and
-- tokens, `toUpperCase`, SQL's LOWER and the store of objects are parameters. A failed query
-- that the code does not catch is the error `query_failed`. The order of events of one time, which
-- ORDER BY created_at leaves open, is the field `leads` of the tables of Workspace.antt.
--
-- Fuel bounds the decimal digits in Prelude/Decimal.antt, where a number has at most as many digits as
-- its successor counts (`read-show` there shows that this is enough), and the rounds of a recursive
-- query in WorkItem/Trash.antt, where each round but the last adds a row
-- (`subtree_iff` in WorkItem/Trash/Subtree.antt).
--
-- Not modelled: validation of requests by class-validator, controllers and modules, the search of a
-- sprint's work items (a read), the sockets behind published events, and the other modules under
-- src/modules and src/core.
pub mod Prelude
pub mod Tables
pub mod Admin
pub mod Embedding
pub mod ObjectStorage
pub mod Sprint
pub mod WorkItem
pub mod Workspace
pub mod Auth
