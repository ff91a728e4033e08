-- ===== src/Homework/Grading.antt =====
-- What `grade` shows and leaves, and what a later `submit` makes of it.
use edu_crm_backend.Homework.Entities.{
  homework_graded, HomeworkSubmission, HomeworkStore, HomeworkDb,
}
use edu_crm_backend.Homework.Submissions.{
  reread, author, grade_submission, set_graded, has_submission_id, shown_text, submission_in_tenant,
  ItemStatus, item_status_of, HomeworkSubmissionItemDto, map_submission_row, joined,
}
use edu_crm_backend.Database.{Instant, Uuid}
use edu_crm_backend.Base.{
  ap, ◌==◌, Bool-cases, sym, if◌then◌else◌, ◌∙◌, ◌∷◌, and_left, inr, ==_iff, inl, Option-cases,
  refl, arith, some, ◌≡◌, String, ℕ,
}
use edu_crm_backend.Database.Rows.{mem-update_rows_inv, update_rows}
use edu_crm_backend.Users.Entity.{User}
use edu_crm_backend.Base.Action.{ok}

module _ (db : HomeworkDb) where
  -- What a successful `grade` reads back.
  graded_row :
      (id tenant_id : Uuid) (score : ℕ) (feedback : String) (graded_by : Uuid) (now : Instant)
      (s : HomeworkStore) (i : HomeworkSubmissionItemDto)
      → (grade_submission db id tenant_id score feedback graded_by now s).0 ≡ ok i
      → (sub row : HomeworkSubmission) × (s' : HomeworkStore) × (db.submissions.find_one
            (submission_in_tenant id tenant_id)
            s.submissions
          ≡ some sub)
        × (db.sql_submissions.find_one (submission_in_tenant id tenant_id) (
              db.submissions.update
                (has_submission_id sub.id)
                (set_graded score feedback graded_by now)
                s.submissions)
            ≡ some row)
        × (joined db s' row ≡ some i)
  unfolding grade_submission reread
  graded_row id tenant_id score feedback graded_by now s i h =
      elim (Option-cases
        (db.submissions.find_one (submission_in_tenant id tenant_id) s.submissions)) [
          | inl missed ↦ absurd (ground arith)
          | inr (sub, found) ↦
              elim (Option-cases (
                db.sql_submissions.find_one (submission_in_tenant id tenant_id) (
                  db.submissions.update (has_submission_id sub.id)
                    (set_graded score feedback graded_by now) s.submissions))) [
                      | inl lost ↦ absurd (ground arith)
                      | inr (row, again) ↦ (
                        sub,
                        row,
                        record s {
                          submissions =
                              db.submissions.update (has_submission_id sub.id)
                                (set_graded score feedback graded_by now) s.submissions;
                          events =
                              homework_graded (set_graded score feedback graded_by now sub)
                              ∷ s.events;
                        },
                        found,
                        again,
                        ground arith,
                      )
                    ]
        ]

  item_of :
      (s : HomeworkStore) (x : HomeworkSubmission) (i : HomeworkSubmissionItemDto)
      → joined db s x ≡ some i
      → (u : User) × (i ≡ map_submission_row db u x)
  unfolding joined
  item_of s x i h = elim (Option-cases (author db s x)) [
    | inl missed ↦ absurd (ground arith)
    | inr (u, found) ↦ (u, ground arith)
  ]

  reached :
      (score : ℕ) (feedback : String) (graded_by : Uuid) (now : Instant) (id : Uuid)
      (row x : HomeworkSubmission)
      → row ≡ (if has_submission_id id x then set_graded score feedback graded_by now x else x)
      → row.id ≡ id
      → row ≡ set_graded score feedback graded_by now x
  reached score feedback graded_by now id row x from named = elim (Bool-cases (x.id == id)) [
    | inl hit ↦ rw hit at from
    | inr miss ↦
        let same : row ≡ x = rw miss at from in absurd (ground (arith, ap (λ r. r.id) same))
  ]

  -- A grade that is given shows, with its feedback, as the grade of the submission that was named,
  -- whatever its status was.
  pub grade_shown :
      (id tenant_id : Uuid) (score : ℕ) (feedback : String) (graded_by : Uuid) (now : Instant)
      (s : HomeworkStore) (i : HomeworkSubmissionItemDto)
      → (grade_submission db id tenant_id score feedback graded_by now s).0 ≡ ok i
      → (i.id ≡ id)
        × (i.grade ≡ some score)
        × (i.item_status ≡ ItemStatus.graded)
        × (i.teacher_feedback ≡ shown_text (some feedback))
        × (i.graded_at ≡ some now)
  unfolding map_submission_row item_status_of
  grade_shown id tenant_id score feedback graded_by now s i h =
      let (sub, row, s', found, again, shown) =
        graded_row id tenant_id score feedback graded_by now s i h in
      let (u, e) = item_of s' row i shown in
      let rows =
        db.submissions.update_lem (has_submission_id sub.id)
          (set_graded score feedback graded_by now) s.submissions in
      let again_ : db.sql_submissions.find_one (submission_in_tenant id tenant_id) (
            update_rows (has_submission_id sub.id) (set_graded score feedback graded_by now)
              s.submissions)
          ≡ some row =
        rw rows at again in
      let (x, m, from) =
        mem-update_rows_inv (has_submission_id sub.id) (set_graded score feedback graded_by now)
          s.submissions (db.sql_submissions.find_one_listed _ _ row again_) in
      let named : row.id ≡ id =
        (==_iff _ _).0 (and_left _ _ (db.sql_submissions.find_one_fits _ _ row again_)) in
      let own : sub.id ≡ id =
        (==_iff _ _).0 (and_left _ _ (db.submissions.find_one_fits _ _ sub found)) in
      let set = reached score feedback graded_by now sub.id row x from (named ∙ sym own) in
      let is : i ≡ map_submission_row db u (set_graded score feedback graded_by now x) =
        e ∙ ap (map_submission_row db u) set in
      rw is (sym (ap (λ r. r.id) set) ∙ named, refl, refl, refl, refl)
