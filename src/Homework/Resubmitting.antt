-- ===== src/Homework/Resubmitting.antt =====
-- What a `submit` makes of a submission that was graded, and what `getSubmissions` shows of it.
use edu_crm_backend.Homework.Entities.{every, Profile}
use edu_crm_backend.Base.{
  Bool, ==_refl, ltb, none, inr, arith, ◌&&◌, Option-cases, ◌==◌, refl, true, false, inl, Memᴰ, ◌≡◌,
  some, ◌∷◌, [], List, Option, String,
}
use edu_crm_backend.Database.{Instant, Uuid}
use edu_crm_backend.Homework.Entities.{Homework, HomeworkStore, HomeworkSubmission, HomeworkDb}
use edu_crm_backend.Homework.Submissions.{
  has_submission_id, shown_text, submit, set_resubmitted, has_profile_id, user_of_profile,
  item_status_of, HomeworkSubmissionItemDto, map_submission_row, author, submission_of,
  get_submissions, items, joined,
}
use edu_crm_backend.Homework.Detail.{is_graded_item}
use edu_crm_backend.Users.Entity.{has_user_id, User}
use edu_crm_backend.Homework.Assignments.{profile_of, homework_in_tenant}
use edu_crm_backend.Shared.Enums.{HomeworkStatus}
use edu_crm_backend.Base.Action.{ok}
use edu_crm_backend.Homework.Submitting.{submitted_again}
use edu_crm_backend.Database.Rows.{mem-select_of, mem-update_rows_hit}

listed_of :
    (homework_id student_id tenant_id : Uuid) (x : HomeworkSubmission)
    → submission_of homework_id student_id tenant_id x ≡ true
    → (x.homework_id == homework_id && x.tenant_id == tenant_id) ≡ true
listed_of homework_id student_id tenant_id x fits = ground arith

module _ (db : HomeworkDb) where
  items_hit :
      (s : HomeworkStore) (y : HomeworkSubmission) (ys : List HomeworkSubmission)
      (i : HomeworkSubmissionItemDto)
      → joined db s y ≡ some i
      → items db s (y ∷ ys) ≡ i ∷ items db s ys
  unfolding items joined
  items_hit s y ys i h = elim (Option-cases (author db s y)) [
    | inl lost ↦ absurd (ground arith)
    | inr (u, found) ↦ ground arith
  ]

  items_lost :
      (s : HomeworkStore) (y : HomeworkSubmission) (ys : List HomeworkSubmission)
      → joined db s y ≡ none
      → items db s (y ∷ ys) ≡ items db s ys
  unfolding items joined
  items_lost s y ys h = elim (Option-cases (author db s y)) [
    | inl lost ↦ ground arith
    | inr (u, found) ↦ absurd (ground arith)
  ]

  -- A row with a student and a user is among the items.
  mem-items :
      (s : HomeworkStore) (xs : List HomeworkSubmission) (x : HomeworkSubmission)
      (i : HomeworkSubmissionItemDto)
      → Memᴰ x xs
      → joined db s x ≡ some i
      → Memᴰ i (items db s xs)
  mem-items s [] x i m h = elim m [ ]
  mem-items s (y ∷ ys) x i (Memᴰ.head e) h = rw (items_hit s y ys i (rw e at h)) (Memᴰ.head refl)
  mem-items s (y ∷ ys) x i (Memᴰ.tail m) h = elim (Option-cases (joined db s y)) [
    | inl lost ↦ rw (items_lost s y ys lost) (mem-items s ys x i m h)
    | inr (j, shown) ↦ rw (items_hit s y ys j shown) (Memᴰ.tail (mem-items s ys x i m h))
  ]

  same_author :
      (s s' : HomeworkStore) (x y : HomeworkSubmission) (u : User)
      → s'.students ≡ s.students
      → s'.users ≡ s.users
      → y.student_id ≡ x.student_id
      → author db s x ≡ some u
      → joined db s' y ≡ some (map_submission_row db u y)
  unfolding joined author user_of_profile
  same_author s s' x y u students users same h =
      elim (Option-cases (db.profiles.find_one (has_profile_id x.student_id) s.students)) [
        | inl missed ↦ absurd (ground arith)
        | inr (p, there) ↦
            let there' : db.profiles.find_one (has_profile_id y.student_id) s'.students ≡ some p =
              rw (students, same) there in
            let found : db.users.find_one (has_user_id p.user_id) s'.users ≡ some u =
              rw users (ground arith) in
            ground arith
      ]

  -- Where the homework, the student's profile, a submission of that student for it and the user
  -- behind that submission are found, a `submit` of the student, whether it was graded or not, leaves
  -- a row with the submission's id that keeps the score, the feedback and the grader and has the
  -- status submitted, and `getSubmissions` then shows an item with that id that counts as ungraded,
  -- with the grade and the feedback from before.
  pub get_submissions-submit :
      (homework_id user_id tenant_id : Uuid) (content : Option String) (new_id : Uuid)
      (now : Instant) (s : HomeworkStore) (hw : Homework) (p : Profile) (x : HomeworkSubmission)
      (u : User)
      → db.homeworks.find_one (homework_in_tenant homework_id tenant_id) s.homeworks ≡ some hw
      → db.profiles.find_one (profile_of user_id tenant_id) s.students ≡ some p
      → db.submissions.find_one (submission_of homework_id p.id tenant_id) s.submissions ≡ some x
      → author db s x ≡ some u
      → let s' = (submit db homework_id user_id tenant_id content new_id now s).1 in
        ((y : HomeworkSubmission) × Memᴰ y s'.submissions
          × (y.id ≡ x.id)
          × (y.status ≡ HomeworkStatus.submitted)
          × (y.score ≡ x.score)
          × (y.feedback ≡ x.feedback)
          × (y.graded_by ≡ x.graded_by))
        × ((shown : List HomeworkSubmissionItemDto) × (i : HomeworkSubmissionItemDto)
            × ((get_submissions db homework_id tenant_id s').0 ≡ ok shown)
            × Memᴰ i shown
            × (i.id ≡ x.id)
            × (is_graded_item i ≡ false)
            × (i.grade ≡ x.score)
            × (i.teacher_feedback ≡ shown_text x.feedback))
  unfolding get_submissions map_submission_row item_status_of is_graded_item set_resubmitted
  get_submissions-submit homework_id user_id tenant_id content new_id now s hw p x u found there old
        by =
      let set = set_resubmitted content (ltb hw.due_date now) now in
      let s' : HomeworkStore = (submit db homework_id user_id tenant_id content new_id now s).1 in
      let (_, rows, students, users) =
        submitted_again db homework_id user_id tenant_id content new_id now s hw p x found there
          old in
      let m : Memᴰ (set x) s'.submissions = rw rows (
        mem-update_rows_hit (has_submission_id x.id) set s.submissions
          (db.submissions.find_one_listed _ _ x old) (==_refl x.id)) in
      let fits : submission_of homework_id p.id tenant_id x ≡ true =
        db.submissions.find_one_fits _ _ x old in
      let q : HomeworkSubmission → Bool =
        λ y. y.homework_id == homework_id && y.tenant_id == tenant_id in
      let wanted : q (set x) ≡ true = listed_of homework_id p.id tenant_id x fits in
      let k : Memᴰ (set x) (db.sql_submissions.find q s'.submissions) =
        (db.sql_submissions.find_iff q s'.submissions (set x)).1
          (mem-select_of (λ y. every y && q y) s'.submissions m wanted) in
      let joined_ = same_author s s' x (set x) u students users refl by in
      (
        (set x, m, refl, refl, refl, refl, refl),
        (
          items db s' (db.sql_submissions.find q s'.submissions),
          map_submission_row db u (set x),
          refl,
          mem-items s' _ (set x) _ k joined_,
          refl,
          ground arith,
          refl,
          refl,
        ),
      )
