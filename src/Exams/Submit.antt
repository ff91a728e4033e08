-- ===== src/Exams/Submit.antt =====
-- What `submitAttempt` writes, and when it refuses.
use edu_crm_backend.Exams.Entities.{Exam, ExamAttempt, Answer, Store, Libraries}
use edu_crm_backend.Exams.Attempt.{
  has_attempt_id, minutes_between, set_submitted, grade_all, own_attempt, submit_attempt,
}
use edu_crm_backend.Database.{Instant, Uuid}
use edu_crm_backend.Base.{==_refl, refl, leb, ◌==◌, inr, arith, inl, some, Option-cases, ◌≡◌, List}
use edu_crm_backend.Base.Action.{ok, err, Error}
use edu_crm_backend.Database.Lookup.{find_one-update_only, OnlyMatch}
use edu_crm_backend.Exams.Manage.{has_exam_id}
use edu_crm_backend.Database.Rows.{update_rows}

module _ (lib : Libraries) where
  -- A submission that is refused changes nothing.
  pub submit_attempt_atomic :
      (attempt_id student_id : Uuid) (answers : List Answer) (now : Instant) (s : Store) (e : Error)
      → (submit_attempt lib attempt_id student_id answers now s).0 ≡ err e
      → (submit_attempt lib attempt_id student_id answers now s).1 ≡ s
  unfolding submit_attempt
  submit_attempt_atomic attempt_id student_id answers now s e h =
      elim (Option-cases (lib.attempts.find_one (own_attempt attempt_id student_id) s.attempts)) [
        | inl missed ↦ ground arith
        | inr (a, found) ↦ ground arith
      ]

  submitted :
      (attempt_id student_id : Uuid) (answers : List Answer) (now : Instant) (s : Store)
      (a : ExamAttempt) (x : Exam)
      → lib.attempts.find_one (own_attempt attempt_id student_id) s.attempts ≡ some a
      → lib.exams.find_one (has_exam_id a.exam_id) s.exams ≡ some x
      → let (graded, score) =
          grade_all lib (lib.questions.find (λ q. q.exam_id == x.id) s.questions) 0 answers in
        let set =
          set_submitted graded score
            (leb x.passing_marks score)
            now
            (minutes_between a.started_at now) in
        ((submit_attempt lib attempt_id student_id answers now s).0 ≡ ok (set a))
        × ((submit_attempt lib attempt_id student_id answers now s).1.attempts
            ≡ update_rows (has_attempt_id a.id) set s.attempts)
        × ((submit_attempt lib attempt_id student_id answers now s).1.exams ≡ s.exams)
  unfolding submit_attempt
  submitted attempt_id student_id answers now s a x fa fx =
      rw (fa, fx) (refl, lib.attempts.update_lem _ _ _, refl)

  -- After the submission of an attempt that is the only one with its id and student, and whose
  -- exam is there, the same student can submit the attempt again, with other answers.
  pub submit-submit :
      (attempt_id student_id : Uuid) (answers answers' : List Answer) (now later : Instant)
      (s : Store) (a : ExamAttempt) (x : Exam)
      → lib.attempts.find_one (own_attempt attempt_id student_id) s.attempts ≡ some a
      → OnlyMatch (own_attempt attempt_id student_id) s.attempts a
      → lib.exams.find_one (has_exam_id a.exam_id) s.exams ≡ some x
      → let s' = (submit_attempt lib attempt_id student_id answers now s).1 in
        (b : ExamAttempt) × ((submit_attempt lib attempt_id student_id answers' later s').0 ≡ ok b)
        × (b.submitted_at ≡ some later)
        × (b.attempt_number ≡ a.attempt_number)
  submit-submit attempt_id student_id answers answers' now later s a x fa only fx =
      let (done, rows, exams) = submitted attempt_id student_id answers now s a x fa fx in
      let kept =
        find_one-update_only lib.attempts (own_attempt attempt_id student_id) (has_attempt_id a.id)
          _ s.attempts a fa only (λ r. refl) (λ r. refl) (==_refl a.id) in
      let (graded, score) =
        grade_all lib (lib.questions.find (λ q. q.exam_id == x.id) s.questions) 0 answers in
      let set =
        set_submitted graded score (leb x.passing_marks score) now
          (minutes_between a.started_at now) in
      let (again, _, _) =
        submitted attempt_id student_id answers' later
          (submit_attempt lib attempt_id student_id answers now s).1 (set a) x (rw rows kept)
          (rw exams fx) in
      (_, again, refl, refl)
