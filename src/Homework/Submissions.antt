-- ===== src/Homework/Submissions.antt =====
-- `mapSubmissionRow`, `submit`, `grade`, `getSubmissions` and `getStudentSubmissions` of
-- modules/homework/homework.service.ts.
use edu_crm_backend.Homework.Entities.{
  homework_submitted, homework_graded, emit, Attachment, HomeworkSubmission, Profile, HomeworkStore,
  HomeworkDb,
}
use edu_crm_backend.Shared.Enums.{HomeworkStatus}
use edu_crm_backend.Database.{Instant, Uuid}
use edu_crm_backend.Users.Entity.{has_user_id, truthy, User}
use edu_crm_backend.Base.{
  ltb, [], ◌&&◌, map, some, String, concat, if◌then◌else◌, ◌∷◌, ◌==◌, none, List, Bool, ℕ, Option,
}
use edu_crm_backend.Homework.Assignments.{profile_of, find_homework}
use edu_crm_backend.Base.Action.{
  internal, not_found, pure, modify, or_throw, ◌>>=◌, ◌>>◌, gets, Action,
}

-- The `status` of an item.
pub data ItemStatus : Type 0 where
  pending graded late : ItemStatus

pub record HomeworkSubmissionItemDto : Type 0 where
  pub id : Uuid
  pub homework_id : Uuid
  pub student_id : Uuid
  pub student_name : String
  pub student_avatar_url : Option String
  pub text_answer : Option String
  pub attached_file_keys : Option (List String)
  pub grade : Option ℕ
  pub teacher_feedback : Option String
  pub submitted_at : Option Instant
  pub graded_at : Option Instant
  pub item_status : ItemStatus

-- `...(x ? { key: x } : {})` on a text
abbrev pub shown_text : Option String → Option String
shown_text o = if truthy o then o else none

-- `...(xs?.length ? { key: xs.map((a) => a.url) } : {})`
abbrev pub shown_urls : List Attachment → Option (List String)
shown_urls [] = none
shown_urls (a ∷ rest) = some (map (λ x. x.url) (a ∷ rest))

unfoldable pub item_status_of : HomeworkStatus → Bool → ItemStatus
item_status_of HomeworkStatus.graded is_late = ItemStatus.graded
item_status_of status is_late = if is_late then ItemStatus.late else ItemStatus.pending

-- `where: { homeworkId, studentId, tenantId }`
abbrev pub submission_of : Uuid → Uuid → Uuid → HomeworkSubmission → Bool
submission_of homework_id student_id tenant_id x =
    x.homework_id == homework_id && (x.student_id == student_id && x.tenant_id == tenant_id)

abbrev pub has_submission_id : Uuid → HomeworkSubmission → Bool
has_submission_id id x = x.id == id

abbrev pub submission_in_tenant : Uuid → Uuid → HomeworkSubmission → Bool
submission_in_tenant id tenant_id x = x.id == id && x.tenant_id == tenant_id

-- The columns that are written: a content that is undefined leaves the stored one.
unfoldable pub set_resubmitted :
    Option String → Bool → Instant → HomeworkSubmission → HomeworkSubmission
set_resubmitted content is_late now x = record x {
  content = elim content [ none ↦ x.content | some c ↦ some c ];
  is_late = is_late;
  status = HomeworkStatus.submitted;
  submitted_at = some now;
}

unfoldable pub new_submission :
    Uuid → Option String → Uuid → Uuid → Uuid → Bool → Instant → HomeworkSubmission
new_submission new_id content homework_id student_id tenant_id is_late now = record {
  id = new_id;
  deleted_at = none;
  tenant_id = tenant_id;
  homework_id = homework_id;
  student_id = student_id;
  content = content;
  attachments = [];
  status = HomeworkStatus.submitted;
  submitted_at = some now;
  score = none;
  feedback = none;
  graded_by = none;
  graded_at = none;
  is_late = is_late;
}

abbrev pub set_graded : ℕ → String → Uuid → Instant → HomeworkSubmission → HomeworkSubmission
set_graded score feedback graded_by now x = record x {
  score = some score;
  feedback = some feedback;
  graded_by = some graded_by;
  status = HomeworkStatus.graded;
  graded_at = some now;
}

abbrev pub has_profile_id : Uuid → Profile → Bool
has_profile_id id p = p.id == id

module _ (db : HomeworkDb) where
  unfoldable pub map_submission_row : User → HomeworkSubmission → HomeworkSubmissionItemDto
  unfolding item_status_of
  map_submission_row u x = record {
    id = x.id;
    homework_id = x.homework_id;
    student_id = x.student_id;
    student_name = db.trim (concat u.first_name (concat " " u.last_name));
    student_avatar_url = shown_text u.avatar_url;
    text_answer = shown_text x.content;
    attached_file_keys = shown_urls x.attachments;
    grade = x.score;
    teacher_feedback = shown_text x.feedback;
    submitted_at = x.submitted_at;
    graded_at = x.graded_at;
    item_status = item_status_of x.status x.is_late;
  }

  -- `JOIN students s ON … JOIN users u ON …`
  unfoldable pub user_of_profile : HomeworkStore → Option Profile → Option User
  user_of_profile s none = none
  user_of_profile s (some p) = db.users.find_one (has_user_id p.user_id) s.users

  unfoldable pub author : HomeworkStore → HomeworkSubmission → Option User
  unfolding user_of_profile
  author s x = user_of_profile s (db.profiles.find_one (has_profile_id x.student_id) s.students)

  unfoldable pub joined : HomeworkStore → HomeworkSubmission → Option HomeworkSubmissionItemDto
  unfolding author map_submission_row
  joined s x = elim (author s x) [ none ↦ none | some u ↦ some (map_submission_row u x) ]

  unfoldable pub items : HomeworkStore → List HomeworkSubmission → List HomeworkSubmissionItemDto
  unfolding joined
  items s [] = []
  items s (x ∷ xs) = let rest = items s xs in elim (joined s x) [ none ↦ rest | some i ↦ i ∷ rest ]

  -- The rows come in the order of the database, the last submission first.
  unfoldable pub get_submissions :
      Uuid → Uuid → Action HomeworkStore (List HomeworkSubmissionItemDto)
  unfolding items
  get_submissions homework_id tenant_id = gets (λ s. items s (
      db.sql_submissions.find (λ x. x.homework_id == homework_id && x.tenant_id == tenant_id)
        s.submissions))

  pub get_student_submissions : Uuid → Uuid → Action HomeworkStore (List HomeworkSubmission)
  get_student_submissions student_id tenant_id = gets (λ s.
      db.submissions.find (λ x. x.student_id == student_id && x.tenant_id == tenant_id)
        s.submissions)

  -- `if (sub) … else …`, and `save`, which returns the entity with the content that was assigned,
  -- undefined too.
  unfoldable pub save_submission :
      Option HomeworkSubmission
      → Option String
      → Uuid
      → Uuid
      → Uuid
      → Bool
      → Uuid
      → Instant
      → Action HomeworkStore HomeworkSubmission
  unfolding set_resubmitted new_submission
  save_submission (some sub) content homework_id student_id tenant_id is_late new_id now = do
    let set = set_resubmitted content is_late now
    modify (λ s. record s {
      submissions = db.submissions.update (has_submission_id sub.id) set s.submissions;
    })
    pure (record (set sub) { content = content })
  save_submission none content homework_id student_id tenant_id is_late new_id now = do
    let sub = new_submission new_id content homework_id student_id tenant_id is_late now
    modify (λ s. record s { submissions = db.submissions.insert sub s.submissions })
    pure sub

  unfoldable pub submit :
      Uuid → Uuid → Uuid → Option String → Uuid → Instant → Action HomeworkStore HomeworkSubmission
  unfolding save_submission find_homework
  submit homework_id user_id tenant_id content new_id now = do
    hw ← find_homework db homework_id tenant_id
    let is_late : Bool = ltb hw.due_date now
    profile ← gets (λ s. db.profiles.find_one (profile_of user_id tenant_id) s.students)
    student ← or_throw profile (not_found "Student profile not found for current user")
    found ← gets (λ s.
        db.submissions.find_one (submission_of homework_id student.id tenant_id) s.submissions)
    saved ← save_submission found content homework_id student.id tenant_id is_late new_id now
    emit (homework_submitted saved)
    pure saved

  -- The row that is read back; without its student or user, reading it throws.
  unfoldable pub reread :
      HomeworkStore → Option HomeworkSubmission → Option HomeworkSubmissionItemDto
  unfolding joined
  reread s none = none
  reread s (some x) = joined s x

  unfoldable pub grade_submission :
      Uuid → Uuid → ℕ → String → Uuid → Instant → Action HomeworkStore HomeworkSubmissionItemDto
  unfolding reread
  grade_submission submission_id tenant_id score feedback graded_by now = do
    found ←
        gets (λ s.
          db.submissions.find_one (submission_in_tenant submission_id tenant_id) s.submissions)
    sub ← or_throw found (not_found "Submission not found")
    let set : HomeworkSubmission → HomeworkSubmission = set_graded score feedback graded_by now
    modify (λ s. record s {
      submissions = db.submissions.update (has_submission_id sub.id) set s.submissions;
    })
    emit (homework_graded (set sub))
    item ← gets (λ s.
        reread s (
          db.sql_submissions.find_one (submission_in_tenant submission_id tenant_id) s.submissions))
    or_throw item (internal "Cannot read properties of undefined")
