-- ===== src/Homework/Tests.antt =====
-- Runs of the homework module: one assignment, one student, one submission.
use edu_crm_backend.Homework.Entities.{
  every, submission_live, homework_live, Homework, HomeworkSubmission, Profile, HomeworkStore,
  HomeworkDb,
}
use edu_crm_backend.Shared.Enums.{HomeworkStatus, UserRole, UserStatus, Language}
use edu_crm_backend.Database.InMemory.{in_memory}
use edu_crm_backend.Base.{List, Memᴰ, true, refl, arith, false, some, ◌≡◌, [], none, ◌∷◌}
use edu_crm_backend.Homework.Submissions.{
  get_submissions, ItemStatus, user_of_profile, shown_text, new_submission, author, set_graded,
  HomeworkSubmissionItemDto, joined, save_submission, item_status_of, reread, map_submission_row,
  grade_submission, submit,
}
use edu_crm_backend.Users.Entity.{User}
use edu_crm_backend.Homework.Assignments.{find_homework}
use edu_crm_backend.Base.Action.{ok}
use edu_crm_backend.Homework.Detail.{is_graded_item}
use edu_crm_backend.Homework.Submitting.{submit_one, OneFor}
use edu_crm_backend.Homework.Grading.{grade_shown}
use edu_crm_backend.Homework.Resubmitting.{get_submissions-submit}

abbrev memory : HomeworkDb
memory = record {
  homeworks = in_memory homework_live;
  submissions = in_memory submission_live;
  sql_homeworks = in_memory every;
  sql_submissions = in_memory every;
  profiles = in_memory every;
  users = in_memory every;
  groups = in_memory every;
  courses = in_memory every;
  trim = λ t. t;
}

abbrev exercises : Homework
exercises = record {
  id = 30;
  created_at = 10;
  updated_at = 10;
  deleted_at = none;
  created_by = none;
  tenant_id = 1;
  title = "Chapter 5";
  description = "Exercises 1 to 9";
  teacher_id = 8;
  group_id = none;
  lesson_id = none;
  due_date = 500;
  max_score = 10000;
  attachments = [];
  is_graded = false;
}

abbrev dana : User
dana = record {
  id = 3;
  created_at = 1;
  deleted_at = none;
  tenant_id = 1;
  first_name = "Dana";
  last_name = "Lee";
  middle_name = none;
  email = "dana@school.example";
  phone = none;
  password = "";
  role = UserRole.student;
  status = UserStatus.active;
  gender = none;
  language = Language.english;
  avatar_url = none;
  date_of_birth = none;
  address = none;
  city = none;
  timezone = none;
  is_email_verified = true;
  is_phone_verified = false;
  two_fa_enabled = false;
  two_fa_secret = none;
  refresh_token = none;
  last_login_at = none;
  last_login_ip = none;
  otp_code = none;
  otp_expires_at = none;
  custom_role_id = none;
  branch = none;
  invite_token = none;
  login_attempts = 0;
  locked_until = none;
  created_by = none;
}

abbrev learner : Profile
learner = record { id = 7; user_id = 3; tenant_id = 1 }

abbrev handed_in : HomeworkSubmission
handed_in = record {
  id = 40;
  deleted_at = none;
  tenant_id = 1;
  homework_id = 30;
  student_id = 7;
  content = some "42";
  attachments = [];
  status = HomeworkStatus.graded;
  submitted_at = some 200;
  score = some 9000;
  feedback = some "Good";
  graded_by = some 4;
  graded_at = some 300;
  is_late = false;
}

abbrev assigned : HomeworkStore
assigned = record {
  homeworks = exercises ∷ [];
  submissions = [];
  teachers = [];
  students = learner ∷ [];
  users = dana ∷ [];
  groups = [];
  courses = [];
  events = [];
}

abbrev marked : HomeworkStore
marked = record assigned { submissions = handed_in ∷ [] }

submit_one_example : OneFor 30 7 1 assigned (submit memory 30 3 1 (some "42") 40 200 assigned).1
unfolding submit find_homework save_submission new_submission
submit_one_example =
    submit_one memory 30 3 1 (some "42") 40 200 assigned
      (new_submission 40 (some "42") 30 7 1 false 200) refl (omega arith)

abbrev shown_item : HomeworkSubmissionItemDto
unfolding map_submission_row item_status_of
shown_item = map_submission_row memory dana (set_graded 5000 "Redo" 4 900 handed_in)

grade_shown_example :
    (shown_item.id ≡ 40)
    × (shown_item.grade ≡ some 5000)
    × (shown_item.item_status ≡ ItemStatus.graded)
    × (shown_item.teacher_feedback ≡ shown_text (some "Redo"))
    × (shown_item.graded_at ≡ some 900)
unfolding grade_submission reread joined author user_of_profile map_submission_row item_status_of
grade_shown_example = grade_shown memory 40 1 5000 "Redo" 4 900 marked shown_item refl

get_submissions-submit_example :
    let s' = (submit memory 30 3 1 none 41 400 marked).1 in
    ((y : HomeworkSubmission) × Memᴰ y s'.submissions
      × (y.id ≡ 40)
      × (y.status ≡ HomeworkStatus.submitted)
      × (y.score ≡ some 9000)
      × (y.feedback ≡ some "Good")
      × (y.graded_by ≡ some 4))
    × ((shown : List HomeworkSubmissionItemDto) × (i : HomeworkSubmissionItemDto)
        × ((get_submissions memory 30 1 s').0 ≡ ok shown)
        × Memᴰ i shown
        × (i.id ≡ 40)
        × (is_graded_item i ≡ false)
        × (i.grade ≡ some 9000)
        × (i.teacher_feedback ≡ shown_text (some "Good")))
unfolding author user_of_profile
get_submissions-submit_example =
    get_submissions-submit memory 30 3 1 none 41 400 marked exercises learner handed_in dana refl
      refl refl refl
