-- ===== src/Courses/Enrolled.antt =====
-- `enrollStudent`: when it succeeds and what it writes.
use edu_crm_backend.Courses.Entities.{
  enrollment_live, CourseColumns, StudentColumns, Enrollment, CourseStore, CourseDb,
}
use edu_crm_backend.Courses.Enrolment.{
  published_lessons, enrollment_of, enroll_student, new_enrollment, EnrollmentResponseDto,
}
use edu_crm_backend.Base.{
  inr, ==_refl, inl, arith, Option-cases, ◌+◌, none, ◌∷◌, some, length, ◌&&◌, ◌≡◌, select, ◌==◌, ℕ,
  Bool, List, Option,
}
use edu_crm_backend.Database.{Instant, Uuid}
use edu_crm_backend.Courses.Lessons.{course_in_tenant, find_course}
use edu_crm_backend.Base.Action.{conflict, err, ok}

-- The enrolments of a student in a course that the service can see.
abbrev pub enrollments_of : Uuid → Uuid → CourseStore → List Enrollment
enrollments_of course_id student_id s =
    select (λ e. enrollment_live e && enrollment_of course_id student_id e) s.enrollments

module _ (db : CourseDb) where
  abbrev student_row : Uuid → Uuid → StudentColumns → Bool
  student_row student_id tenant_id x = x.id == student_id && x.tenant_id == tenant_id

  pub let_in :
      (course_id student_id tenant_id new_id : Uuid) (group_id : Option Uuid) (now : Instant)
      (s : CourseStore) (r : EnrollmentResponseDto)
      → (enroll_student db course_id student_id group_id tenant_id new_id now s).0 ≡ ok r
      → (c : CourseColumns) × (x : StudentColumns) × (db.courses.find_one
            (course_in_tenant course_id tenant_id)
            s.courses
          ≡ some c)
        × (db.students.find_one (student_row student_id tenant_id) s.students ≡ some x)
        × (db.enrollments.find_one (enrollment_of course_id student_id) s.enrollments ≡ none)
  unfolding enroll_student find_course
  let_in course_id student_id tenant_id new_id group_id now s r h =
      elim (Option-cases (db.courses.find_one (course_in_tenant course_id tenant_id) s.courses)) [
        | inl missed ↦ absurd (ground arith)
        | inr (c, found) ↦
            elim (Option-cases
              (db.students.find_one (student_row student_id tenant_id) s.students)) [
                | inl nobody ↦ absurd (ground arith)
                | inr (x, there) ↦
                    elim (Option-cases (
                      db.enrollments.find_one (enrollment_of course_id student_id) s.enrollments)) [
                        | inl free ↦ (c, x, found, there, free)
                        | inr (e, old) ↦ absurd (ground arith)
                      ]
              ]
      ]

  pub enrolled_rows :
      (course_id student_id tenant_id new_id : Uuid) (group_id : Option Uuid) (now : Instant)
      (s : CourseStore) (c : CourseColumns) (x : StudentColumns)
      → db.courses.find_one (course_in_tenant course_id tenant_id) s.courses ≡ some c
      → db.students.find_one (student_row student_id tenant_id) s.students ≡ some x
      → db.enrollments.find_one (enrollment_of course_id student_id) s.enrollments ≡ none
      → let s' = (enroll_student db course_id student_id group_id tenant_id new_id now s).1 in
        (s'.enrollments
          ≡ new_enrollment new_id course_id student_id tenant_id
              (published_lessons db course_id s)
              now
            ∷ s.enrollments)
        × (s'.courses ≡ s.courses)
        × (s'.students ≡ s.students)
  unfolding enroll_student find_course
  enrolled_rows course_id student_id tenant_id new_id group_id now s c x found there free = (
    ground (
      arith,
      db.enrollments.insert_lem
          (new_enrollment new_id course_id student_id tenant_id (published_lessons db course_id s)
            now)
          s.enrollments,
    ),
    ground arith,
    ground arith,
  )

  pub refused :
      (course_id student_id tenant_id new_id : Uuid) (group_id : Option Uuid) (now : Instant)
      (s : CourseStore) (c : CourseColumns) (x : StudentColumns) (e : Enrollment)
      → db.courses.find_one (course_in_tenant course_id tenant_id) s.courses ≡ some c
      → db.students.find_one (student_row student_id tenant_id) s.students ≡ some x
      → db.enrollments.find_one (enrollment_of course_id student_id) s.enrollments ≡ some e
      → enroll_student db course_id student_id group_id tenant_id new_id now s
        ≡ (err (conflict "Student already enrolled in this course"), s)
  unfolding enroll_student find_course
  refused course_id student_id tenant_id new_id group_id now s c x e found there old = ground arith

  pub new_counted :
      (course_id student_id tenant_id new_id n : ℕ) (now : Instant) (rows : List Enrollment)
      → length (
          select
            (λ e. enrollment_live e && enrollment_of course_id student_id e)
            (new_enrollment new_id course_id student_id tenant_id n now ∷ rows))
        ≡ length (select (λ e. enrollment_live e && enrollment_of course_id student_id e) rows) + 1
  unfolding new_enrollment
  new_counted course_id student_id tenant_id new_id n now rows =
      rw (==_refl course_id, ==_refl student_id) (omega arith)
