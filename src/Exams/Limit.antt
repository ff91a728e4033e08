-- ===== src/Exams/Limit.antt =====
-- The limit on attempts that `startAttempt` keeps.
use edu_crm_backend.Exams.Entities.{Exam, attempt_live, ExamAttempt, Store, Libraries}
use edu_crm_backend.Database.{Instant, Uuid}
use edu_crm_backend.Exams.Attempt.{new_attempt, attempt_of, start_attempt}
use edu_crm_backend.Exams.Manage.{exam_in_tenant, find_exam}
use edu_crm_backend.Base.{
  ap, ◌∙◌, false, ==_refl, sym, leb, ℕ, inr, inl, Option-cases, ◌∷◌, ◌+◌, ◌≤◌, length, ◌<◌, true,
  some, arith, ◌&&◌, select, ◌≡◌, List,
}
use edu_crm_backend.Base.Action.{ok}

-- The attempts of a student at an exam that the service can see.
abbrev pub attempts_of : Uuid → Uuid → Store → List ExamAttempt
attempts_of exam_id student_id s =
    select (λ a. attempt_live a && attempt_of exam_id student_id a) s.attempts

leb-false : (a b : ℕ) → leb a b ≡ false → b < a
leb-false a b h = ground arith

module _ (lib : Libraries) where
  let_in :
      (exam_id student_id tenant_id new_id : Uuid) (now : Instant) (s : Store) (x : Exam)
      → lib.exams.find_one (exam_in_tenant exam_id tenant_id) s.exams ≡ some x
      → x.is_published ≡ true
      → leb x.max_attempts (lib.attempts.count (attempt_of exam_id student_id) s.attempts) ≡ false
      → let a =
          new_attempt new_id exam_id student_id
            (lib.attempts.count (attempt_of exam_id student_id) s.attempts + 1)
            now in
        ((start_attempt lib exam_id student_id tenant_id new_id now s).0 ≡ ok a)
        × ((start_attempt lib exam_id student_id tenant_id new_id now s).1.attempts
            ≡ a ∷ s.attempts)
  unfolding start_attempt find_exam
  let_in exam_id student_id tenant_id new_id now s x found open_ below = (
    ground arith,
    ground (
      arith,
      lib.attempts.insert_lem
          (new_attempt new_id exam_id student_id
            (lib.attempts.count (attempt_of exam_id student_id) s.attempts + 1) now)
          s.attempts,
    ),
  )

  started :
      (exam_id student_id tenant_id new_id : Uuid) (now : Instant) (s : Store) (a : ExamAttempt)
      → (start_attempt lib exam_id student_id tenant_id new_id now s).0 ≡ ok a
      → (x : Exam) × (lib.exams.find_one (exam_in_tenant exam_id tenant_id) s.exams ≡ some x)
        × (x.is_published ≡ true)
        × (leb x.max_attempts (lib.attempts.count (attempt_of exam_id student_id) s.attempts)
            ≡ false)
  unfolding start_attempt find_exam
  started exam_id student_id tenant_id new_id now s a h =
      elim (Option-cases (lib.exams.find_one (exam_in_tenant exam_id tenant_id) s.exams)) [
        | inl missed ↦ absurd (ground arith)
        | inr (x, found) ↦ (x, found, ground arith, ground arith)
      ]

  new_counted :
      (exam_id student_id new_id : Uuid) (now : Instant) (k : ℕ) (rows : List ExamAttempt)
      → length (
          select
            (λ a. attempt_live a && attempt_of exam_id student_id a)
            (new_attempt new_id exam_id student_id k now ∷ rows))
        ≡ length (select (λ a. attempt_live a && attempt_of exam_id student_id a) rows) + 1
  unfolding new_attempt
  new_counted exam_id student_id new_id now k rows =
      rw (==_refl exam_id, ==_refl student_id) (omega arith)

  -- A student who is let into an exam is let into a published one and has, the new attempt counted,
  -- no more attempts at it than the exam allows; the new attempt is the newest row, and its number
  -- is how many there are.
  pub start_attempt_limit :
      (exam_id student_id tenant_id new_id : Uuid) (now : Instant) (s : Store) (a : ExamAttempt)
      → (start_attempt lib exam_id student_id tenant_id new_id now s).0 ≡ ok a
      → let s' = (start_attempt lib exam_id student_id tenant_id new_id now s).1 in
        (x : Exam) × (lib.exams.find_one (exam_in_tenant exam_id tenant_id) s.exams ≡ some x)
        × (x.is_published ≡ true)
        × (length (attempts_of exam_id student_id s') ≤ x.max_attempts)
        × (a.attempt_number ≡ length (attempts_of exam_id student_id s'))
        × (s'.attempts ≡ a ∷ s.attempts)
  unfolding new_attempt
  start_attempt_limit exam_id student_id tenant_id new_id now s a h =
      let (x, found, open_, below) = started exam_id student_id tenant_id new_id now s a h in
      let (done, rows) = let_in exam_id student_id tenant_id new_id now s x found open_ below in
      let k : ℕ = lib.attempts.count (attempt_of exam_id student_id) s.attempts in
      let same : new_attempt new_id exam_id student_id (k + 1) now ≡ a = cc (sym done ∙ h) in
      let count = lib.attempts.count_lem (attempt_of exam_id student_id) s.attempts in
      let more = new_counted exam_id student_id new_id now (k + 1) s.attempts in
      (
        x,
        found,
        open_,
        rw rows (omega (arith, more, count, leb-false _ _ below)),
        rw (rows, ← same) (omega (arith, more, count)),
        rows ∙ ap (λ r. r ∷ s.attempts) same,
      )
