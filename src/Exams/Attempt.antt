-- ===== src/Exams/Attempt.antt =====
-- `startAttempt` and `submitAttempt` of modules/exams/exams.service.ts.
use edu_crm_backend.Exams.Entities.{
  exam_started, exam_completed, GradedAnswer, ExamAttempt, Answer, ExamQuestion, Choice, Store,
  Libraries, emit,
}
use edu_crm_backend.Database.{Uuid, Instant}
use edu_crm_backend.Exams.Manage.{has_exam_id, find_exam}
use edu_crm_backend.Base.{
  leb, not, ◌/◌, str_eq, [], false, ◌&&◌, ◌+◌, ◌*◌, ◌∷◌, find_first, true, none, ◌-◌, ◌==◌,
  if◌then◌else◌, some, String, ℕ, Bool, List,
}
use edu_crm_backend.Shared.Enums.{QuestionType}
use edu_crm_backend.Base.Action.{
  pure, modify, bad_request, not_found, throw_if, or_throw, gets, ◌>>◌, ◌>>=◌, Action,
}

-- `where: { examId, studentId }`
abbrev pub attempt_of : Uuid → Uuid → ExamAttempt → Bool
attempt_of exam_id student_id a = a.exam_id == exam_id && a.student_id == student_id

-- `where: { id: attemptId, studentId }`
abbrev pub own_attempt : Uuid → Uuid → ExamAttempt → Bool
own_attempt id student_id a = a.id == id && a.student_id == student_id

abbrev pub has_attempt_id : Uuid → ExamAttempt → Bool
has_attempt_id id a = a.id == id

-- `exam.questions.find((q) => q.id === a.questionId)`
abbrev pub asks : Answer → ExamQuestion → Bool
asks a q = q.id == a.question_id

unfoldable pub new_attempt : Uuid → Uuid → Uuid → ℕ → Instant → ExamAttempt
new_attempt id exam_id student_id number now = record {
  id = id;
  deleted_at = none;
  exam_id = exam_id;
  student_id = student_id;
  started_at = now;
  submitted_at = none;
  score = none;
  is_passed = none;
  attempt_number = number;
  time_taken_minutes = none;
  answers = [];
}

abbrev pub choice_correct : Choice → Bool
choice_correct c = c.is_correct

-- `question.type === 'multiple_choice' || question.type === 'true_false'`
pub is_choice : QuestionType → Bool
is_choice QuestionType.multiple_choice = true
is_choice QuestionType.true_false = true
is_choice _ = false

-- Math.round((now - startedAt) / 60000), for a clock that does not go back.
pub minutes_between : Instant → Instant → ℕ
minutes_between start now = ((now - start) * 2 + 60000) / 120000

abbrev pub set_submitted : List GradedAnswer → ℕ → Bool → Instant → ℕ → ExamAttempt → ExamAttempt
set_submitted answers score passed now minutes a = record a {
  answers = answers;
  score = some score;
  is_passed = some passed;
  submitted_at = some now;
  time_taken_minutes = some minutes;
}

module _ (lib : Libraries) where
  unfoldable pub start_attempt : Uuid → Uuid → Uuid → Uuid → Instant → Action Store ExamAttempt
  unfolding find_exam new_attempt
  start_attempt exam_id student_id tenant_id new_id now = do
    exam ← find_exam lib exam_id tenant_id
    throw_if (not exam.is_published) (bad_request "Exam is not published")
    count ← gets (λ s. lib.attempts.count (attempt_of exam_id student_id) s.attempts)
    throw_if (leb exam.max_attempts count) (bad_request "Maximum attempt(s) reached")
    let attempt = new_attempt new_id exam_id student_id (count + 1) now
    modify (λ s. record s { attempts = lib.attempts.insert attempt s.attempts })
    emit (exam_started student_id exam)
    pure attempt

  -- Whether the answer to a question is right. An empty expected answer counts as none.
  pub is_right : ExamQuestion → String → Bool
  unfolding is_choice
  is_right q answer =
      if is_choice q.type
      then elim (find_first choice_correct q.options) [ none ↦ false | some c ↦ str_eq c.id answer ]
      else (elim q.correct_answer [
        | none ↦ false
        | some c ↦ not (str_eq c "") && str_eq (lib.normalise c) (lib.normalise answer)
      ])

  unfoldable pub grade : List ExamQuestion → Answer → GradedAnswer
  unfolding is_right
  grade questions a = elim (find_first (asks a) questions) [
    | none ↦ record {
      question_id = a.question_id;
      answer = a.answer;
      is_correct = false;
      marks = 0;
    }
    | some q ↦
        let right = is_right q a.answer in
        record {
          question_id = a.question_id;
          answer = a.answer;
          is_correct = right;
          marks = if right then q.marks else 0;
        }
  ]

  -- The `map` over the answers, which adds the marks up as it goes.
  unfoldable pub grade_all : List ExamQuestion → ℕ → List Answer → List GradedAnswer × ℕ
  unfolding grade
  grade_all questions total [] = ([], total)
  grade_all questions total (a ∷ more) =
      let g = grade questions a in
      let (gs, t) = grade_all questions (total + g.marks) more in (g ∷ gs, t)

  unfoldable pub submit_attempt : Uuid → Uuid → List Answer → Instant → Action Store ExamAttempt
  unfolding grade_all minutes_between
  submit_attempt attempt_id student_id answers now = do
    found ← gets (λ s. lib.attempts.find_one (own_attempt attempt_id student_id) s.attempts)
    attempt ← or_throw found (not_found "Attempt not found")
    found_exam ← gets (λ s. lib.exams.find_one (has_exam_id attempt.exam_id) s.exams)
    exam ← or_throw found_exam (not_found "Exam not found")
    questions ← gets (λ s. lib.questions.find (λ q. q.exam_id == exam.id) s.questions)
    let (graded, score) = grade_all questions 0 answers
    let passed = leb exam.passing_marks score
    let set = set_submitted graded score passed now (minutes_between attempt.started_at now)
    modify (λ s. record s {
      attempts = lib.attempts.update (has_attempt_id attempt.id) set s.attempts;
    })
    emit (exam_completed (set attempt) passed)
    pure (set attempt)
