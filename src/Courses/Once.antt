-- ===== src/Courses/Once.antt =====
-- A student is enrolled in a course once, whatever requests to enrol follow.
use edu_crm_backend.Courses.Entities.{enrollment_live, Enrollment, CourseStore, CourseDb}
use edu_crm_backend.Courses.Enrolment.{
  published_lessons, enrollment_of, enroll_student, new_enrollment, EnrollmentResponseDto,
}
use edu_crm_backend.Base.{
  and_right, and_left, ==_iff, Bool-cases, [], true, false, refl, ◌∙◌, inr, inl, arith,
  Option-cases, ◌∷◌, length, ◌&&◌, ◌≡◌, select, ◌==◌, List, Option,
}
use edu_crm_backend.Database.{Instant, Uuid}
use edu_crm_backend.Courses.Lessons.{find_course}
use edu_crm_backend.Base.Action.{Error, Result-cases, conflict, err, ok}
use edu_crm_backend.Database.Lookup.{find_one-uncounted}
use edu_crm_backend.Courses.Enrolled.{let_in, enrolled_rows, refused, new_counted, enrollments_of}

pub record EnrolRequest : Type 0 where
  pub course_id : Uuid
  pub student_id : Uuid
  pub group_id : Option Uuid
  pub tenant_id : Uuid
  pub new_id : Uuid
  pub now : Instant

module _ (db : CourseDb) where
  other_counted :
      (course_id student_id c st tenant_id new_id n : Uuid) (now : Instant) (rows : List Enrollment)
      → enrollment_of course_id student_id (new_enrollment new_id c st tenant_id n now) ≡ false
      → length (
          select
            (λ e. enrollment_live e && enrollment_of course_id student_id e)
            (new_enrollment new_id c st tenant_id n now ∷ rows))
        ≡ length (select (λ e. enrollment_live e && enrollment_of course_id student_id e) rows)
  unfolding new_enrollment
  other_counted course_id student_id c st tenant_id new_id n now rows miss = rw miss refl

  same_pair :
      (course_id student_id c st tenant_id new_id n : Uuid) (now : Instant)
      → enrollment_of course_id student_id (new_enrollment new_id c st tenant_id n now) ≡ true
      → (c ≡ course_id) × (st ≡ student_id)
  unfolding new_enrollment
  same_pair course_id student_id c st tenant_id new_id n now hit =
      ((==_iff _ _).0 (and_left _ _ hit), (==_iff _ _).0 (and_right (c == course_id) _ hit))

  enroll_atomic :
      (course_id student_id tenant_id new_id : Uuid) (group_id : Option Uuid) (now : Instant)
      (s : CourseStore) (e : Error)
      → (enroll_student db course_id student_id group_id tenant_id new_id now s).0 ≡ err e
      → (enroll_student db course_id student_id group_id tenant_id new_id now s).1 ≡ s
  unfolding enroll_student find_course
  enroll_atomic course_id student_id tenant_id new_id group_id now s e h = ground arith

  -- Requests to enrol, one after another, whatever each of them answers.
  pub enroll_all : List EnrolRequest → CourseStore → CourseStore
  enroll_all [] s = s
  enroll_all (q ∷ qs) s =
      enroll_all qs
        (enroll_student db q.course_id q.student_id q.group_id q.tenant_id q.new_id q.now s).1

  -- The student stays enrolled once, and courses and students stay as they were.
  abbrev StillOne : Uuid → Uuid → CourseStore → CourseStore → Type 0
  StillOne course_id student_id s s' =
      (length (enrollments_of course_id student_id s') ≡ 1)
      × (s'.courses ≡ s.courses)
      × (s'.students ≡ s.students)

  step_one :
      (course_id student_id : Uuid) (q : EnrolRequest) (s : CourseStore)
      → length (enrollments_of course_id student_id s) ≡ 1
      → StillOne course_id student_id s
          (enroll_student db q.course_id q.student_id q.group_id q.tenant_id q.new_id q.now s).1
  step_one course_id student_id q s one =
      elim (Result-cases
        (enroll_student db q.course_id q.student_id q.group_id q.tenant_id q.new_id q.now s).0) [
          | inl (e, failed) ↦
              rw
                (enroll_atomic q.course_id q.student_id q.tenant_id q.new_id q.group_id q.now s e
                  failed)
                (one, refl, refl)
          | inr (r, done) ↦
              let (c, x, found, there, free) =
                let_in db q.course_id q.student_id q.tenant_id q.new_id q.group_id q.now s r done in
              let (rows, courses, students) =
                enrolled_rows db q.course_id q.student_id q.tenant_id q.new_id q.group_id q.now s c
                  x found there free in
              let n = published_lessons db q.course_id s in
              let e = new_enrollment q.new_id q.course_id q.student_id q.tenant_id n q.now in
              elim (Bool-cases (enrollment_of course_id student_id e)) [
                | inl hit ↦
                    let (same_course, same_student) =
                      same_pair course_id student_id q.course_id q.student_id q.tenant_id q.new_id n
                        q.now hit in
                    let zero_ =
                      find_one-uncounted db.enrollments (enrollment_of course_id student_id)
                        s.enrollments (rw (same_course, same_student) at free) in
                    absurd (omega (arith, zero_, one))
                | inr miss ↦ (
                  rw rows (
                      other_counted course_id student_id q.course_id q.student_id q.tenant_id
                        q.new_id n q.now s.enrollments miss
                      ∙ one),
                  courses,
                  students,
                )
              ]
        ]

  still_one :
      (course_id student_id : Uuid) (qs : List EnrolRequest) (s : CourseStore)
      → length (enrollments_of course_id student_id s) ≡ 1
      → StillOne course_id student_id s (enroll_all qs s)
  unfolding enroll_all
  still_one course_id student_id [] s one = (one, refl, refl)
  still_one course_id student_id (q ∷ qs) s one =
      let (one', courses, students) = step_one course_id student_id q s one in
      let (last, courses', students') =
        still_one course_id student_id qs
          (enroll_student db q.course_id q.student_id q.group_id q.tenant_id q.new_id q.now s).1
          one' in
      (last, courses' ∙ courses, students' ∙ students)

  first_one :
      (course_id student_id tenant_id new_id : Uuid) (group_id : Option Uuid) (now : Instant)
      (s : CourseStore) (r : EnrollmentResponseDto)
      → (enroll_student db course_id student_id group_id tenant_id new_id now s).0 ≡ ok r
      → (length (enrollments_of course_id student_id s) ≡ 0)
        × StillOne course_id student_id s
            (enroll_student db course_id student_id group_id tenant_id new_id now s).1
  first_one course_id student_id tenant_id new_id group_id now s r h =
      let (c, x, found, there, free) =
        let_in db course_id student_id tenant_id new_id group_id now s r h in
      let (rows, courses, students) =
        enrolled_rows db course_id student_id tenant_id new_id group_id now s c x found there
          free in
      let zero_ =
        find_one-uncounted db.enrollments (enrollment_of course_id student_id) s.enrollments free in
      let n = published_lessons db course_id s in
      (
        zero_,
        (
          rw rows (
              new_counted db course_id student_id tenant_id new_id n now s.enrollments
              ∙ omega (arith, zero_)),
          courses,
          students,
        ),
      )

  -- An enrolment that succeeds is the first of the student in the course. Whatever requests to enrol
  -- any students in any courses follow, the student has exactly one enrolment in the course, and a
  -- further request for it, for any group, is refused as a conflict with nothing changed.
  pub enroll_student_once :
      (course_id student_id tenant_id new_id other_id : Uuid) (group_id other_group : Option Uuid)
      (now later : Instant) (qs : List EnrolRequest) (s : CourseStore) (r : EnrollmentResponseDto)
      → (enroll_student db course_id student_id group_id tenant_id new_id now s).0 ≡ ok r
      → let s' =
          enroll_all qs
            (enroll_student db course_id student_id group_id tenant_id new_id now s).1 in
        (length (enrollments_of course_id student_id s) ≡ 0)
        × (length (enrollments_of course_id student_id s') ≡ 1)
        × (enroll_student db course_id student_id other_group tenant_id other_id later s'
            ≡ (err (conflict "Student already enrolled in this course"), s'))
  enroll_student_once course_id student_id tenant_id new_id other_id group_id other_group now later
        qs s r h =
      let (c, x, found, there, free) =
        let_in db course_id student_id tenant_id new_id group_id now s r h in
      let (zero_, (one, courses, students)) =
        first_one course_id student_id tenant_id new_id group_id now s r h in
      let s1 : CourseStore =
        (enroll_student db course_id student_id group_id tenant_id new_id now s).1 in
      let s' : CourseStore = enroll_all qs s1 in
      let (last, courses', students') = still_one course_id student_id qs s1 one in
      (
        zero_,
        last,
        elim (Option-cases
            (db.enrollments.find_one (enrollment_of course_id student_id) s'.enrollments)) [
              | inl gone ↦ absurd (
                  omega (
                    arith,
                    last,
                    find_one-uncounted db.enrollments (enrollment_of course_id student_id)
                        s'.enrollments gone,
                  ))
              | inr (e, old) ↦
                  refused db course_id student_id tenant_id other_id other_group later s' c x e
                    (rw (courses' ∙ courses) found) (rw (students' ∙ students) there) old
            ],
      )
