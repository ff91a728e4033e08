-- ===== src/Courses/Enrolment.antt =====
-- `enrollStudent` of modules/courses/courses.service.ts.
use edu_crm_backend.Courses.Entities.{Enrollment, CourseStore, CourseDb}
use edu_crm_backend.Base.{
  is_some, not, true, false, ◌&&◌, none, ◌==◌, ℕ, Bool, if◌then◌else◌, Option, String,
}
use edu_crm_backend.Courses.Lessons.{find_course}
use edu_crm_backend.Database.{Instant, Uuid}
use edu_crm_backend.Base.Action.{
  pure, modify, conflict, not_found, throw_if, gets, ◌>>=◌, ◌>>◌, Action,
}

pub record EnrollmentResponseDto : Type 0 where
  pub id : Uuid
  pub student_id : Uuid
  pub course_id : Uuid
  pub enrolled_at : Instant
  pub status : String
  pub group_id : Option Uuid

-- `where: { courseId, studentId }`
abbrev pub enrollment_of : Uuid → Uuid → Enrollment → Bool
enrollment_of course_id student_id e = e.course_id == course_id && e.student_id == student_id

unfoldable pub new_enrollment : Uuid → Uuid → Uuid → Uuid → ℕ → Instant → Enrollment
new_enrollment new_id course_id student_id tenant_id total_lessons now = record {
  id = new_id;
  deleted_at = none;
  tenant_id = tenant_id;
  student_id = student_id;
  course_id = course_id;
  enrolled_at = now;
  completed_at = none;
  progress_percent = 0;
  completed_lessons = 0;
  total_lessons = total_lessons;
  final_grade = none;
  certificate_issued = false;
  certificate_url = none;
  is_active = true;
  payment_status = "pending";
  discount_percent = 0;
  paid_amount = 0;
}

unfoldable pub enrollment_response : Option Uuid → Enrollment → EnrollmentResponseDto
enrollment_response group_id e = record {
  id = e.id;
  student_id = e.student_id;
  course_id = e.course_id;
  enrolled_at = e.enrolled_at;
  status = if e.is_active then "active" else "dropped";
  group_id = group_id;
}

module _ (db : CourseDb) where
  -- `SELECT COUNT(*) FROM lessons WHERE course_id = $1 AND is_published = true`
  unfoldable pub published_lessons : Uuid → CourseStore → ℕ
  published_lessons course_id s =
      db.sql_lessons.count (λ l. l.course_id == course_id && l.is_published) s.lessons

  unfoldable pub enroll_student :
      Uuid → Uuid → Option Uuid → Uuid → Uuid → Instant → Action CourseStore EnrollmentResponseDto
  unfolding find_course published_lessons new_enrollment enrollment_response
  enroll_student course_id student_id group_id tenant_id new_id now = do
    find_course db course_id tenant_id
    student ←
        gets (λ s.
          db.students.find_one (λ x. x.id == student_id && x.tenant_id == tenant_id) s.students)
    throw_if (not (is_some student)) (not_found "Student not found")
    existing ←
        gets (λ s. db.enrollments.find_one (enrollment_of course_id student_id) s.enrollments)
    throw_if (is_some existing) (conflict "Student already enrolled in this course")
    total_lessons ← gets (published_lessons course_id)
    let e = new_enrollment new_id course_id student_id tenant_id total_lessons now
    modify (λ s. record s { enrollments = db.enrollments.insert e s.enrollments })
    pure (enrollment_response group_id e)
