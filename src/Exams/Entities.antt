-- ===== src/Exams/Entities.antt =====
-- modules/exams/entities/exam.entity.ts: exams, questions and attempts, without the relations to
-- courses, groups and teachers. Marks are natural numbers of hundredths. The state of the service
-- is its three tables and the events.
use edu_crm_backend.Base.{◌∷◌, ℕ, String, List, Option, Bool}
use edu_crm_backend.Database.{is_live, Instant, Repository, Uuid}
use edu_crm_backend.Base.Action.{modify, Action}
use edu_crm_backend.Shared.Enums.{ExamType, QuestionType}

pub record Exam : Type 0 where
  pub id : Uuid
  pub deleted_at : Option Instant
  pub created_by : Option Uuid
  pub tenant_id : Uuid
  pub title : String
  pub description : Option String
  pub type : ExamType
  pub course_id : Option Uuid
  pub group_id : Option Uuid
  pub teacher_id : Uuid
  pub start_at : Option Instant
  pub end_at : Option Instant
  pub duration_minutes : ℕ
  pub total_marks : ℕ
  pub passing_marks : ℕ
  pub is_randomized : Bool
  pub show_result_immediately : Bool
  pub max_attempts : ℕ
  pub is_published : Bool
  pub instructions : Option String

pub record Choice : Type 0 where
  pub id : String
  pub text : String
  pub is_correct : Bool

pub record ExamQuestion : Type 0 where
  pub id : Uuid
  pub deleted_at : Option Instant
  pub exam_id : Uuid
  pub question : String
  pub type : QuestionType
  pub options : List Choice
  pub correct_answer : Option String
  pub marks : ℕ
  pub explanation : Option String
  pub sort_order : ℕ

-- An element of `answers`, before and after grading.
pub record Answer : Type 0 where
  pub question_id : Uuid
  pub answer : String

pub record GradedAnswer : Type 0 where
  pub question_id : Uuid
  pub answer : String
  pub is_correct : Bool
  pub marks : ℕ

pub record ExamAttempt : Type 0 where
  pub id : Uuid
  pub deleted_at : Option Instant
  pub exam_id : Uuid
  pub student_id : Uuid
  pub started_at : Instant
  pub submitted_at : Option Instant
  pub score : Option ℕ
  pub is_passed : Option Bool
  pub attempt_number : ℕ
  pub time_taken_minutes : Option ℕ
  pub answers : List GradedAnswer

abbrev pub exam_live : Exam → Bool
exam_live e = is_live e.deleted_at

abbrev pub question_live : ExamQuestion → Bool
question_live q = is_live q.deleted_at

abbrev pub attempt_live : ExamAttempt → Bool
attempt_live a = is_live a.deleted_at

pub data Event : Type 0 where
  exam_started : Uuid → Exam → Event
  exam_completed : ExamAttempt → Bool → Event

pub record Store : Type 0 where
  pub exams : List Exam
  pub questions : List ExamQuestion
  pub attempts : List ExamAttempt
  pub events : List Event

-- The tables, and `toLowerCase().trim()` on texts.
pub record Libraries : Type 0 where
  pub exams : Repository exam_live
  pub questions : Repository question_live
  pub attempts : Repository attempt_live
  pub normalise : String → String

abbrev pub emit : Event → Action Store (Unit {0})
emit e = modify (λ s. record s { events = e ∷ s.events })
