-- ===== src/Exams/Score.antt =====
-- The score of an attempt: what the answers earn, and what it is bounded by.
use native.Mathlib.Numerals.{unary_clauses}
use edu_crm_backend.Exams.Entities.{Answer, GradedAnswer, ExamQuestion, Libraries}
use edu_crm_backend.Exams.Attempt.{grade_all, grade}
use edu_crm_backend.Base.{
  zero, ◌==◌, length, arith, refl, suc, ◌*◌, ◌≡◌, [], ◌≤◌, if◌then◌else◌, ◌+◌, ◌∷◌, List, ℕ,
}
use edu_crm_backend.Database.{Uuid}

abbrev pub sum_marks : List GradedAnswer → ℕ
sum_marks [] = 0
sum_marks (g ∷ gs) = g.marks + sum_marks gs

abbrev pub sum_questions : List ExamQuestion → ℕ
sum_questions [] = 0
sum_questions (q ∷ qs) = q.marks + sum_questions qs

-- How often a question is answered.
abbrev pub times : Uuid → List Answer → ℕ
times id [] = 0
times id (a ∷ more) = (if id == a.question_id then 1 else 0) + times id more

abbrev pub repeated : ℕ → Answer → List Answer
repeated zero a = []
repeated (suc n) a = a ∷ repeated n a

-- What the answers to one question could earn.
credit : ExamQuestion → List Answer → ℕ
credit q [] = 0
credit q (a ∷ more) = (if q.id == a.question_id then q.marks else 0) + credit q more

credit_none :
    (q : ExamQuestion) (answers : List Answer) → times q.id answers ≡ 0 → credit q answers ≡ 0
unfolding credit
credit_none q [] h = refl
credit_none q (a ∷ more) h = ground (arith, credit_none q more)

credit_once :
    (q : ExamQuestion) (answers : List Answer) → times q.id answers ≤ 1 → credit q answers ≤ q.marks
unfolding credit
credit_once q [] h = ground arith
credit_once q (a ∷ more) h = ground (arith, credit_none q more, credit_once q more)

module _ (lib : Libraries) where
  earned : List ExamQuestion → List Answer → ℕ
  earned qs [] = 0
  earned qs (a ∷ more) = (grade lib qs a).marks + earned qs more

  earned_nothing : (answers : List Answer) → earned [] answers ≡ 0
  unfolding earned grade
  earned_nothing [] = refl
  earned_nothing (a ∷ more) = omega (arith, earned_nothing more)

  grade_more :
      (q : ExamQuestion) (qs : List ExamQuestion) (a : Answer)
      → (grade lib (q ∷ qs) a).marks
        ≤ (if q.id == a.question_id then q.marks else 0) + (grade lib qs a).marks
  unfolding grade
  grade_more q qs a = ground arith

  earned_more :
      (q : ExamQuestion) (qs : List ExamQuestion) (answers : List Answer)
      → earned (q ∷ qs) answers ≤ credit q answers + earned qs answers
  unfolding earned credit
  earned_more q qs [] = omega arith
  earned_more q qs (a ∷ more) = omega (arith, grade_more q qs a, earned_more q qs more)

  earned_bound :
      (qs : List ExamQuestion) (answers : List Answer)
      → ((id : Uuid) → times id answers ≤ 1)
      → earned qs answers ≤ sum_questions qs
  earned_bound [] answers h = omega (arith, earned_nothing answers)
  earned_bound (q ∷ qs) answers h =
      omega
        (arith, earned_more q qs answers, credit_once q answers (h q.id), earned_bound qs answers h)

  score_earned :
      (qs : List ExamQuestion) (total : ℕ) (answers : List Answer)
      → (grade_all lib qs total answers).1 ≡ total + earned qs answers
  unfolding grade_all earned
  score_earned qs total [] = omega arith
  score_earned qs total (a ∷ more) =
      omega (arith, score_earned qs (total + (grade lib qs a).marks) more)

  -- The score is the total before and the sum of the marks given to the graded answers, and there
  -- is one graded answer for each answer.
  pub grade_all_total :
      (qs : List ExamQuestion) (total : ℕ) (answers : List Answer)
      → ((grade_all lib qs total answers).1 ≡ total + sum_marks (grade_all lib qs total answers).0)
        × (length (grade_all lib qs total answers).0 ≡ length answers)
  unfolding grade_all
  grade_all_total qs total [] = (omega arith, refl)
  grade_all_total qs total (a ∷ more) =
      let (sum, len) = grade_all_total qs (total + (grade lib qs a).marks) more in
      (omega arith, omega arith)

  -- Where no question is answered twice, the score is at most the sum of the marks of the questions.
  pub grade_all_bound :
      (qs : List ExamQuestion) (answers : List Answer)
      → ((id : Uuid) → times id answers ≤ 1)
      → (grade_all lib qs 0 answers).1 ≤ sum_questions qs
  grade_all_bound qs answers h = omega (arith, score_earned qs 0 answers, earned_bound qs answers h)

  earned-repeated :
      (qs : List ExamQuestion) (a : Answer) (n : ℕ)
      → earned qs (repeated n a) ≡ (grade lib qs a).marks * n
  unfolding earned
  earned-repeated qs a zero = omega arith
  earned-repeated qs a (suc n) = simp unary_clauses (omega (arith, earned-repeated qs a n))

  -- An answer sent again is marked again: the same answer n times scores n times its marks.
  pub grade_all-repeated :
      (qs : List ExamQuestion) (a : Answer) (n : ℕ)
      → (grade_all lib qs 0 (repeated n a)).1 ≡ (grade lib qs a).marks * n
  grade_all-repeated qs a n =
      omega (arith, score_earned qs 0 (repeated n a), earned-repeated qs a n)
