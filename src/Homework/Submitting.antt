-- ===== src/Homework/Submitting.antt =====
-- `submit` keeps one submission for each student and homework.
use edu_crm_backend.Homework.Entities.{
  submission_live, Homework, HomeworkSubmission, Profile, HomeworkStore, HomeworkDb,
}
use edu_crm_backend.Base.{
  subst, true, and_right, and_left, ==_iff, ◌∙◌, sym, ap, ==_refl, ◌+◌, inr, arith, refl, false,
  ◌∷◌, inl, Option-cases, ltb, ◌==◌, ◌≤◌, ◌&&◌, none, some, length, ◌≡◌, Bool, select, List, Option,
  String,
}
use edu_crm_backend.Database.{Instant, Uuid}
use edu_crm_backend.Homework.Submissions.{
  save_submission, has_submission_id, new_submission, submission_of, submit, set_resubmitted,
}
use edu_crm_backend.Homework.Assignments.{profile_of, homework_in_tenant, find_homework}
use edu_crm_backend.Base.Action.{ok_injective, ok}
use edu_crm_backend.Database.Rows.{count-update_rows, update_rows}
use edu_crm_backend.Database.Lookup.{find_one-counted, find_one-uncounted}

-- The submissions of a student for a homework that the service can see.
abbrev pub submissions_of : Uuid → Uuid → Uuid → HomeworkStore → List HomeworkSubmission
submissions_of homework_id student_id tenant_id s =
    select (λ x. submission_live x && submission_of homework_id student_id tenant_id x)
      s.submissions

-- One submission of the student for the homework, and for the others as many as before.
abbrev pub OneFor : Uuid → Uuid → Uuid → HomeworkStore → HomeworkStore → Type 0
OneFor homework_id student_id tenant_id s s' =
    (length (submissions_of homework_id student_id tenant_id s') ≡ 1)
    × ((other h : Uuid)
        → (student_id == other) ≡ false
        → length (submissions_of h other tenant_id s')
          ≡ length (submissions_of h other tenant_id s))

module _ (db : HomeworkDb) where
  pub submitted :
      (homework_id user_id tenant_id : Uuid) (content : Option String) (new_id : Uuid)
      (now : Instant) (s : HomeworkStore) (x : HomeworkSubmission)
      → (submit db homework_id user_id tenant_id content new_id now s).0 ≡ ok x
      → (hw : Homework) × (p : Profile) × (db.homeworks.find_one
            (homework_in_tenant homework_id tenant_id)
            s.homeworks
          ≡ some hw)
        × (db.profiles.find_one (profile_of user_id tenant_id) s.students ≡ some p)
  unfolding submit find_homework save_submission
  submitted homework_id user_id tenant_id content new_id now s x h =
      elim (Option-cases
        (db.homeworks.find_one (homework_in_tenant homework_id tenant_id) s.homeworks)) [
          | inl missed ↦ absurd (ground arith)
          | inr (hw, found) ↦
              elim (Option-cases (db.profiles.find_one (profile_of user_id tenant_id) s.students)) [
                | inl none_ ↦ absurd (ground arith)
                | inr (p, there) ↦ (hw, p, found, there)
              ]
        ]

  pub submitted_new :
      (homework_id user_id tenant_id : Uuid) (content : Option String) (new_id : Uuid)
      (now : Instant) (s : HomeworkStore) (hw : Homework) (p : Profile)
      → db.homeworks.find_one (homework_in_tenant homework_id tenant_id) s.homeworks ≡ some hw
      → db.profiles.find_one (profile_of user_id tenant_id) s.students ≡ some p
      → db.submissions.find_one (submission_of homework_id p.id tenant_id) s.submissions ≡ none
      → let x =
          new_submission new_id content homework_id p.id tenant_id (ltb hw.due_date now) now in
        ((submit db homework_id user_id tenant_id content new_id now s).0 ≡ ok x)
        × ((submit db homework_id user_id tenant_id content new_id now s).1.submissions
            ≡ x ∷ s.submissions)
  unfolding submit find_homework save_submission
  submitted_new homework_id user_id tenant_id content new_id now s hw p found there fresh = (
    ground arith,
    ground (
      arith,
      db.submissions.insert_lem
          (new_submission new_id content homework_id p.id tenant_id (ltb hw.due_date now) now)
          s.submissions,
    ),
  )

  pub submitted_again :
      (homework_id user_id tenant_id : Uuid) (content : Option String) (new_id : Uuid)
      (now : Instant) (s : HomeworkStore) (hw : Homework) (p : Profile) (x : HomeworkSubmission)
      → db.homeworks.find_one (homework_in_tenant homework_id tenant_id) s.homeworks ≡ some hw
      → db.profiles.find_one (profile_of user_id tenant_id) s.students ≡ some p
      → db.submissions.find_one (submission_of homework_id p.id tenant_id) s.submissions ≡ some x
      → let set = set_resubmitted content (ltb hw.due_date now) now in
        ((submit db homework_id user_id tenant_id content new_id now s).0
          ≡ ok (record (set x) { content = content }))
        × ((submit db homework_id user_id tenant_id content new_id now s).1.submissions
            ≡ update_rows (has_submission_id x.id) set s.submissions)
        × ((submit db homework_id user_id tenant_id content new_id now s).1.students ≡ s.students)
        × ((submit db homework_id user_id tenant_id content new_id now s).1.users ≡ s.users)
  unfolding submit find_homework save_submission
  submitted_again homework_id user_id tenant_id content new_id now s hw p x found there old = (
    ground arith,
    ground (
      arith,
      db.submissions.update_lem (has_submission_id x.id)
          (set_resubmitted content (ltb hw.due_date now) now) s.submissions,
    ),
    ground arith,
    ground arith,
  )

  counted :
      (h st t : Uuid) (content : Option String) (is_late : Bool) (now : Instant) (id : Uuid)
      (rows : List HomeworkSubmission)
      → length (
          select
            (λ r. submission_live r && submission_of h st t r)
            (update_rows (has_submission_id id) (set_resubmitted content is_late now) rows))
        ≡ length (select (λ r. submission_live r && submission_of h st t r) rows)
  unfolding set_resubmitted
  counted h st t content is_late now id rows =
      count-update_rows (λ r. submission_live r && submission_of h st t r)
        (λ r. submission_live r && submission_of h st t r) (has_submission_id id)
        (set_resubmitted content is_late now) rows (λ r hit. refl) (λ r miss. refl)

  new_counted :
      (h st t new_id : Uuid) (content : Option String) (is_late : Bool) (now : Instant)
      (rows : List HomeworkSubmission)
      → length (
          select
            (λ r. submission_live r && submission_of h st t r)
            (new_submission new_id content h st t is_late now ∷ rows))
        ≡ length (select (λ r. submission_live r && submission_of h st t r) rows) + 1
  unfolding new_submission
  new_counted h st t new_id content is_late now rows =
      rw (==_refl h, ==_refl st, ==_refl t) (omega arith)

  other_counted :
      (h other h' st t new_id : Uuid) (content : Option String) (is_late : Bool) (now : Instant)
      (rows : List HomeworkSubmission)
      → (st == other) ≡ false
      → length (
          select
            (λ r. submission_live r && submission_of h other t r)
            (new_submission new_id content h' st t is_late now ∷ rows))
        ≡ length (select (λ r. submission_live r && submission_of h other t r) rows)
  unfolding new_submission
  other_counted h other h' st t new_id content is_late now rows apart = ground arith

  one_new :
      (homework_id user_id tenant_id : Uuid) (content : Option String) (new_id : Uuid)
      (now : Instant) (s : HomeworkStore) (hw : Homework) (p : Profile)
      → db.homeworks.find_one (homework_in_tenant homework_id tenant_id) s.homeworks ≡ some hw
      → db.profiles.find_one (profile_of user_id tenant_id) s.students ≡ some p
      → db.submissions.find_one (submission_of homework_id p.id tenant_id) s.submissions ≡ none
      → length (submissions_of homework_id p.id tenant_id s) ≤ 1
      → OneFor homework_id p.id tenant_id s
          (submit db homework_id user_id tenant_id content new_id now s).1
  one_new homework_id user_id tenant_id content new_id now s hw p found there fresh few =
      let (e, rows) =
        submitted_new homework_id user_id tenant_id content new_id now s hw p found there fresh in
      let late = ltb hw.due_date now in
      let zero_ = find_one-uncounted db.submissions _ s.submissions fresh in
      let more = new_counted homework_id p.id tenant_id new_id content late now s.submissions in
      (
        rw rows (more ∙ omega (arith, zero_)),
        λ other h apart. rw rows (
            other_counted h other homework_id p.id tenant_id new_id content late now s.submissions
              apart),
      )

  one_again :
      (homework_id user_id tenant_id : Uuid) (content : Option String) (new_id : Uuid)
      (now : Instant) (s : HomeworkStore) (hw : Homework) (p : Profile) (y : HomeworkSubmission)
      → db.homeworks.find_one (homework_in_tenant homework_id tenant_id) s.homeworks ≡ some hw
      → db.profiles.find_one (profile_of user_id tenant_id) s.students ≡ some p
      → db.submissions.find_one (submission_of homework_id p.id tenant_id) s.submissions ≡ some y
      → length (submissions_of homework_id p.id tenant_id s) ≤ 1
      → OneFor homework_id p.id tenant_id s
          (submit db homework_id user_id tenant_id content new_id now s).1
  one_again homework_id user_id tenant_id content new_id now s hw p y found there old few =
      let (e, rows, _, _) =
        submitted_again homework_id user_id tenant_id content new_id now s hw p y found there old in
      let late = ltb hw.due_date now in
      let there_ = find_one-counted db.submissions _ s.submissions y old in
      let kept = counted homework_id p.id tenant_id content late now y.id s.submissions in
      (
        rw rows (kept ∙ omega (arith, there_, few)),
        λ other h apart. rw rows (counted h other tenant_id content late now y.id s.submissions),
      )

  student_new :
      (homework_id tenant_id : Uuid) (content : Option String) (new_id : Uuid) (late : Bool)
      (now : Instant) (p : Profile)
      → (new_submission new_id content homework_id p.id tenant_id late now).student_id ≡ p.id
  unfolding new_submission
  student_new homework_id tenant_id content new_id late now p = refl

  student_again :
      (homework_id tenant_id : Uuid) (content : Option String) (late : Bool) (now : Instant)
      (p : Profile) (y : HomeworkSubmission)
      → submission_of homework_id p.id tenant_id y ≡ true
      → (set_resubmitted content late now y).student_id ≡ p.id
  unfolding set_resubmitted
  student_again homework_id tenant_id content late now p y fits =
      (==_iff _ _).0 (and_left _ _ (and_right (y.homework_id == homework_id) _ fits))

  -- After a submission that succeeds, the student has exactly one submission for the homework,
  -- where there was at most one, and every other student has as many for each homework as before.
  pub submit_one :
      (homework_id user_id tenant_id : Uuid) (content : Option String) (new_id : Uuid)
      (now : Instant) (s : HomeworkStore) (x : HomeworkSubmission)
      → (submit db homework_id user_id tenant_id content new_id now s).0 ≡ ok x
      → length (submissions_of homework_id x.student_id tenant_id s) ≤ 1
      → OneFor homework_id x.student_id tenant_id s
          (submit db homework_id user_id tenant_id content new_id now s).1
  submit_one homework_id user_id tenant_id content new_id now s x done few =
      let (hw, p, found, there) =
        submitted homework_id user_id tenant_id content new_id now s x done in
      let late = ltb hw.due_date now in
      let goal : Uuid → Type 0 = λ st.
        length (submissions_of homework_id st tenant_id s) ≤ 1
        → OneFor homework_id st tenant_id s
            (submit db homework_id user_id tenant_id content new_id now s).1 in
      let moved : x.student_id ≡ p.id → goal p.id → goal x.student_id =
        λ same h. subst goal (sym same) h in
      elim (Option-cases
        (db.submissions.find_one (submission_of homework_id p.id tenant_id) s.submissions)) [
          | inl fresh ↦
              let made =
                (submitted_new homework_id user_id tenant_id content new_id now s hw p found there
                  fresh).0 in
              moved
                (ap (λ r. r.student_id) (ok_injective x _ (sym done ∙ made))
                  ∙ student_new homework_id tenant_id content new_id late now p)
                (one_new homework_id user_id tenant_id content new_id now s hw p found there fresh)
                few
          | inr (y, old) ↦
              let made =
                (submitted_again homework_id user_id tenant_id content new_id now s hw p y found
                  there old).0 in
              moved
                (ap (λ r. r.student_id) (ok_injective x _ (sym done ∙ made))
                  ∙ student_again homework_id tenant_id content late now p y
                      (db.submissions.find_one_fits _ s.submissions y old))
                (one_again homework_id user_id tenant_id content new_id now s hw p y found there
                  old)
                few
        ]
