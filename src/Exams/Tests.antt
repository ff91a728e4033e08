-- ===== src/Exams/Tests.antt =====
-- Runs of the exams module: one exam of two questions, one student.
use edu_crm_backend.Exams.Entities.{
  attempt_live, question_live, exam_live, ExamAttempt, Answer, Exam, ExamQuestion, Store, Libraries,
}
use edu_crm_backend.Database.InMemory.{in_memory}
use edu_crm_backend.Database.Lookup.{OnlyMatch}
use edu_crm_backend.Database.{Uuid}
use edu_crm_backend.Exams.Attempt.{
  grade, own_attempt, new_attempt, start_attempt, submit_attempt, grade_all,
}
use edu_crm_backend.Base.{
  refl, length, true, ◌*◌, false, some, arith, ◌≤◌, ◌≡◌, Memᴰ, [], none, ◌∷◌,
}
use edu_crm_backend.Exams.Score.{
  grade_all-repeated, grade_all_bound, sum_questions, repeated, times,
}
use edu_crm_backend.Exams.Manage.{exam_in_tenant, find_exam}
use edu_crm_backend.Shared.Enums.{QuestionType, quiz}
use edu_crm_backend.Exams.Submit.{submit-submit}
use edu_crm_backend.Base.Action.{ok}
use edu_crm_backend.Exams.Limit.{start_attempt_limit, attempts_of}

abbrev plain : Libraries
plain = record {
  exams = in_memory exam_live;
  questions = in_memory question_live;
  attempts = in_memory attempt_live;
  normalise = λ s. s;
}

abbrev algebra : Exam
algebra = record {
  id = 3;
  deleted_at = none;
  created_by = none;
  tenant_id = 1;
  title = "Algebra";
  description = none;
  type = quiz;
  course_id = none;
  group_id = none;
  teacher_id = 8;
  start_at = none;
  end_at = none;
  duration_minutes = 60;
  total_marks = 10000;
  passing_marks = 500;
  is_randomized = false;
  show_result_immediately = true;
  max_attempts = 1;
  is_published = true;
  instructions = none;
}

abbrev sum : ExamQuestion
sum = record {
  id = 11;
  deleted_at = none;
  exam_id = 3;
  question = "1 + 1";
  type = QuestionType.short_answer;
  options = [];
  correct_answer = some "2";
  marks = 500;
  explanation = none;
  sort_order = 0;
}

abbrev school : Store
school = record { exams = algebra ∷ []; questions = sum ∷ []; attempts = []; events = [] }

abbrev two : Answer
two = record { question_id = 11; answer = "2" }

start_attempt_limit_example :
    let s' = (start_attempt plain 3 7 1 20 100 school).1 in
    (x : Exam) × (plain.exams.find_one (exam_in_tenant 3 1) school.exams ≡ some x)
    × (x.is_published ≡ true)
    × (length (attempts_of 3 7 s') ≤ x.max_attempts)
    × (1 ≡ length (attempts_of 3 7 s'))
    × (s'.attempts ≡ new_attempt 20 3 7 1 100 ∷ school.attempts)
unfolding start_attempt find_exam new_attempt
start_attempt_limit_example =
    start_attempt_limit plain 3 7 1 20 100 school (new_attempt 20 3 7 1 100) refl

once : (id : Uuid) → times id (two ∷ []) ≤ 1
once id = ground arith

grade_all_bound_example : (grade_all plain (sum ∷ []) 0 (two ∷ [])).1 ≤ sum_questions (sum ∷ [])
grade_all_bound_example = grade_all_bound plain (sum ∷ []) (two ∷ []) once

grade_all-repeated_example :
    (grade_all plain (sum ∷ []) 0 (repeated 3 two)).1 ≡ (grade plain (sum ∷ []) two).marks * 3
grade_all-repeated_example = grade_all-repeated plain (sum ∷ []) two 3

abbrev begun : ExamAttempt
unfolding new_attempt
begun = new_attempt 20 3 7 1 100

abbrev room : Store
room = record school { attempts = begun ∷ [] }

only_begun : OnlyMatch (own_attempt 20 7) room.attempts begun
only_begun r (Memᴰ.head e) h = e
only_begun r (Memᴰ.tail m) h = elim m [ ]

submit-submit_example :
    let s' = (submit_attempt plain 20 7 [] 200 room).1 in
    (b : ExamAttempt) × ((submit_attempt plain 20 7 (two ∷ []) 300 s').0 ≡ ok b)
    × (b.submitted_at ≡ some 300)
    × (b.attempt_number ≡ begun.attempt_number)
unfolding new_attempt
submit-submit_example =
    submit-submit plain 20 7 [] (two ∷ []) 200 300 room begun algebra refl only_begun refl
