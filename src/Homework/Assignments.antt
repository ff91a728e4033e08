-- ===== src/Homework/Assignments.antt =====
-- `create`, `findOne`, `update` and `remove` of modules/homework/homework.service.ts.
use edu_crm_backend.Homework.Entities.{
  homework_created, emit, Homework, Profile, HomeworkStore, HomeworkDb,
}
use edu_crm_backend.Base.{false, ◌&&◌, [], some, ◌==◌, Bool, or_else, none, Option, ℕ, String}
use edu_crm_backend.Database.{Instant, Uuid}
use edu_crm_backend.Base.Action.{
  internal, not_found, pure, or_throw, gets, ◌>>◌, modify, ◌>>=◌, Action,
}

pub record CreateHomeworkDto : Type 0 where
  pub title : String
  pub description : Option String
  pub group_id : Uuid
  pub lesson_id : Option Uuid
  pub due_date : Option Instant
  pub max_score : Option ℕ

pub record UpdateHomeworkDto : Type 0 where
  pub title : Option String
  pub description : Option String
  pub due_date : Option Instant
  pub max_score : Option ℕ

-- `WHERE user_id = $1 AND tenant_id = $2`
abbrev pub profile_of : Uuid → Uuid → Profile → Bool
profile_of user_id tenant_id p = p.user_id == user_id && p.tenant_id == tenant_id

abbrev pub homework_in_tenant : Uuid → Uuid → Homework → Bool
homework_in_tenant id tenant_id h = h.id == id && h.tenant_id == tenant_id

abbrev pub has_homework_id : Uuid → Homework → Bool
has_homework_id id h = h.id == id

pub new_homework :
    Uuid → CreateHomeworkDto → String → Instant → Uuid → Uuid → Uuid → Instant → Homework
new_homework new_id dto description due_date tenant_id created_by teacher_id now = record {
  id = new_id;
  created_at = now;
  updated_at = now;
  deleted_at = none;
  created_by = some created_by;
  tenant_id = tenant_id;
  title = dto.title;
  description = description;
  teacher_id = teacher_id;
  group_id = some dto.group_id;
  lesson_id = dto.lesson_id;
  due_date = due_date;
  max_score = or_else dto.max_score 10000;
  attachments = [];
  is_graded = false;
}

-- Fields that are undefined stay as they are.
pub set_homework : UpdateHomeworkDto → Instant → Homework → Homework
set_homework dto now h = record h {
  title = or_else dto.title h.title;
  description = or_else dto.description h.description;
  due_date = or_else dto.due_date h.due_date;
  max_score = or_else dto.max_score h.max_score;
  updated_at = now;
}

module _ (db : HomeworkDb) where
  -- The columns `description` and `due_date` are not nullable: without them the insert fails.
  pub create_homework :
      CreateHomeworkDto → Uuid → Uuid → Uuid → Instant → Action HomeworkStore Homework
  unfolding new_homework
  create_homework dto tenant_id created_by new_id now = do
    found ← gets (λ s. db.profiles.find_one (profile_of created_by tenant_id) s.teachers)
    teacher ← or_throw found (not_found "Teacher profile not found for current user")
    description ← or_throw dto.description (internal "null value in column \"description\"")
    due_date ← or_throw dto.due_date (internal "null value in column \"due_date\"")
    let hw = new_homework new_id dto description due_date tenant_id created_by teacher.id now
    modify (λ s. record s { homeworks = db.homeworks.insert hw s.homeworks })
    emit (homework_created hw)
    pure hw

  unfoldable pub find_homework : Uuid → Uuid → Action HomeworkStore Homework
  find_homework id tenant_id = do
    found ← gets (λ s. db.homeworks.find_one (homework_in_tenant id tenant_id) s.homeworks)
    or_throw found (not_found "Homework not found")

  pub update_homework : Uuid → UpdateHomeworkDto → Uuid → Instant → Action HomeworkStore Homework
  unfolding find_homework set_homework
  update_homework id dto tenant_id now = do
    hw ← find_homework id tenant_id
    modify (λ s. record s {
      homeworks = db.homeworks.update (has_homework_id hw.id) (set_homework dto now) s.homeworks;
    })
    pure (set_homework dto now hw)

  pub remove_homework : Uuid → Uuid → Instant → Action HomeworkStore (Unit {0})
  unfolding find_homework
  remove_homework id tenant_id now = do
    hw ← find_homework id tenant_id
    modify (λ s. record s {
      homeworks =
          db.homeworks.update (has_homework_id hw.id) (λ h. record h { deleted_at = some now })
            s.homeworks;
    })
