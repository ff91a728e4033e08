-- ===== src/Courses/Entities.antt =====
-- modules/courses/entities: lessons and enrolments, and of courses, students and groups the columns
-- that these parts of the service read. Percentages and amounts are hundredths.
use edu_crm_backend.Shared.Enums.{LessonType, CourseStatus}
use edu_crm_backend.Base.{ℕ, true, Option, List, Bool, String}
use edu_crm_backend.Database.{is_live, Instant, Repository, Uuid}
use edu_crm_backend.Text.{Text}

pub record Lesson : Type 0 where
  pub id : Uuid
  pub created_at : Instant
  pub updated_at : Instant
  pub deleted_at : Option Instant
  pub tenant_id : Uuid
  pub course_id : Uuid
  pub title : String
  pub content : Option String
  pub type : LessonType
  pub video_url : Option String
  pub video_duration : Option ℕ
  pub file_url : Option Text
  pub sort_order : ℕ
  pub module_number : ℕ
  pub is_free : Bool
  pub is_published : Bool
  pub duration_minutes : ℕ

pub record Enrollment : Type 0 where
  pub id : Uuid
  pub deleted_at : Option Instant
  pub tenant_id : Uuid
  pub student_id : Uuid
  pub course_id : Uuid
  pub enrolled_at : Instant
  pub completed_at : Option Instant
  pub progress_percent : ℕ
  pub completed_lessons : ℕ
  pub total_lessons : ℕ
  pub final_grade : Option ℕ
  pub certificate_issued : Bool
  pub certificate_url : Option String
  pub is_active : Bool
  pub payment_status : String
  pub discount_percent : ℕ
  pub paid_amount : ℕ

pub record CourseColumns : Type 0 where
  pub id : Uuid
  pub deleted_at : Option Instant
  pub tenant_id : Uuid
  pub status : CourseStatus

pub record StudentColumns : Type 0 where
  pub id : Uuid
  pub tenant_id : Uuid

pub record GroupColumns : Type 0 where
  pub id : Uuid
  pub deleted_at : Option Instant
  pub tenant_id : Uuid
  pub name : String
  pub course_id : Option Uuid

abbrev pub lesson_live : Lesson → Bool
lesson_live l = is_live l.deleted_at

abbrev pub enrollment_live : Enrollment → Bool
enrollment_live e = is_live e.deleted_at

abbrev pub columns_live : CourseColumns → Bool
columns_live c = is_live c.deleted_at

abbrev pub any_row : {Row : Type 0} → Row → Bool
any_row {Row} r = true

pub record CourseStore : Type 0 where
  pub courses : List CourseColumns
  pub lessons : List Lesson
  pub enrollments : List Enrollment
  pub students : List StudentColumns
  pub groups : List GroupColumns

-- The tables; `students`, `groups` and `sql_lessons` through SQL.
pub record CourseDb : Type 0 where
  pub courses : Repository columns_live
  pub lessons : Repository lesson_live
  pub sql_lessons : Repository {Row = Lesson} any_row
  pub enrollments : Repository enrollment_live
  pub students : Repository {Row = StudentColumns} any_row
  pub groups : Repository {Row = GroupColumns} any_row
