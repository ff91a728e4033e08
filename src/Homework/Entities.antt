-- ===== src/Homework/Entities.antt =====
-- modules/homework/entities/homework.entity.ts, with the columns that its queries read of other
-- tables. Scores are natural numbers of hundredths. The state of the service is its tables and the
-- events.
use edu_crm_backend.Base.{String, List, Option, Bool, true, ◌∷◌, ℕ}
use edu_crm_backend.Database.{Instant, Repository, is_live, Uuid}
use edu_crm_backend.Users.Entity.{User}
use edu_crm_backend.Base.Action.{modify, Action}
use edu_crm_backend.Shared.Enums.{HomeworkStatus}

pub record Attachment : Type 0 where
  pub name : String
  pub url : String

pub record Homework : Type 0 where
  pub id : Uuid
  pub created_at : Instant
  pub updated_at : Instant
  pub deleted_at : Option Instant
  pub created_by : Option Uuid
  pub tenant_id : Uuid
  pub title : String
  pub description : String
  pub teacher_id : Uuid
  pub group_id : Option Uuid
  pub lesson_id : Option Uuid
  pub due_date : Instant
  pub max_score : ℕ
  pub attachments : List Attachment
  pub is_graded : Bool

pub record HomeworkSubmission : Type 0 where
  pub id : Uuid
  pub deleted_at : Option Instant
  pub tenant_id : Uuid
  pub homework_id : Uuid
  pub student_id : Uuid
  pub content : Option String
  pub attachments : List Attachment
  pub status : HomeworkStatus
  pub submitted_at : Option Instant
  pub score : Option ℕ
  pub feedback : Option String
  pub graded_by : Option Uuid
  pub graded_at : Option Instant
  pub is_late : Bool

abbrev pub homework_live : Homework → Bool
homework_live h = is_live h.deleted_at

abbrev pub submission_live : HomeworkSubmission → Bool
submission_live x = is_live x.deleted_at

-- A row of `students` or `teachers`.
pub record Profile : Type 0 where
  pub id : Uuid
  pub user_id : Uuid
  pub tenant_id : Uuid

pub record GroupRow : Type 0 where
  pub id : Uuid
  pub name : String
  pub course_id : Option Uuid

pub record CourseRow : Type 0 where
  pub id : Uuid
  pub title : String

pub data HomeworkEvent : Type 0 where
  homework_created : Homework → HomeworkEvent
  homework_submitted : HomeworkSubmission → HomeworkEvent
  homework_graded : HomeworkSubmission → HomeworkEvent

pub record HomeworkStore : Type 0 where
  pub homeworks : List Homework
  pub submissions : List HomeworkSubmission
  pub teachers : List Profile
  pub students : List Profile
  pub users : List User
  pub groups : List GroupRow
  pub courses : List CourseRow
  pub events : List HomeworkEvent

-- Queries written in SQL see the rows that are deleted softly, unless they say otherwise.
abbrev pub every : {Row : Type 0} → Row → Bool
every {Row} r = true

-- The tables, through TypeORM and through SQL, and `trim`.
pub record HomeworkDb : Type 0 where
  pub homeworks : Repository homework_live
  pub submissions : Repository submission_live
  pub sql_homeworks : Repository {Row = Homework} every
  pub sql_submissions : Repository {Row = HomeworkSubmission} every
  pub profiles : Repository {Row = Profile} every
  pub users : Repository {Row = User} every
  pub groups : Repository {Row = GroupRow} every
  pub courses : Repository {Row = CourseRow} every
  pub trim : String → String

abbrev pub emit : HomeworkEvent → Action HomeworkStore (Unit {0})
emit e = modify (λ s. record s { events = e ∷ s.events })
