-- ===== src/Groups/Service.antt =====
-- `create`, `findOne`, `update`, `addStudent`, `removeStudent` and `remove` of
-- modules/groups/groups.service.ts.
use edu_crm_backend.Groups.Entities.{Group, Student, GroupStore, GroupDb}
use edu_crm_backend.Base.{
  [], ◌∷◌, ◌++◌, not, select, map, length, ◌&&◌, ◌==◌, concat, true, or_else, Bool, some, ℕ, Option,
  List, none, String,
}
use edu_crm_backend.Database.{Instant, Uuid}
use edu_crm_backend.Users.Entity.{has_user_id, User}
use edu_crm_backend.Base.Action.{not_found, or_throw, gets, pure, ◌>>=◌, ◌>>◌, modify, Action}

pub record CreateGroupDto : Type 0 where
  pub name : String
  pub description : Option String
  pub course_id : Uuid
  pub teacher_id : Uuid
  pub max_students : Option ℕ
  pub branch : Option String
  pub start_date : Option Instant
  pub end_date : Option Instant

-- `PartialType(CreateGroupDto)`
pub record UpdateGroupDto : Type 0 where
  pub name : Option String
  pub description : Option String
  pub course_id : Option Uuid
  pub teacher_id : Option Uuid
  pub max_students : Option ℕ
  pub branch : Option String
  pub start_date : Option Instant
  pub end_date : Option Instant

pub record GroupStudentDto : Type 0 where
  pub id : Uuid
  pub first_name : String
  pub last_name : String
  pub email : String
  pub profile_picture_url : Option String
  pub student_code : String

pub record GroupResponseDto : Type 0 where
  pub id : Uuid
  pub name : String
  pub description : Option String
  pub course_id : Option Uuid
  pub course_name : Option String
  pub teacher_id : Option Uuid
  pub teacher_name : Option String
  pub max_students : ℕ
  pub current_students : ℕ
  pub start_date : Option Instant
  pub end_date : Option Instant
  pub is_active : Bool
  pub branch : Option String
  pub room : Option String
  pub tenant_id : Uuid
  pub created_at : Instant
  pub students : List GroupStudentDto

abbrev pub group_in_tenant : Uuid → Uuid → Group → Bool
group_in_tenant id tenant_id g = g.id == id && g.tenant_id == tenant_id

abbrev pub student_in_tenant : Uuid → Uuid → Student → Bool
student_in_tenant id tenant_id x = x.id == id && x.tenant_id == tenant_id

abbrev pub has_group_id : Uuid → Group → Bool
has_group_id id g = g.id == id

pub new_group : Uuid → CreateGroupDto → Uuid → Uuid → Instant → Group
new_group new_id dto tenant_id created_by now = record {
  id = new_id;
  created_at = now;
  deleted_at = none;
  created_by = some created_by;
  updated_by = none;
  tenant_id = tenant_id;
  name = dto.name;
  description = dto.description;
  course_id = some dto.course_id;
  teacher_id = some dto.teacher_id;
  max_students = or_else dto.max_students 20;
  current_students = 0;
  start_date = dto.start_date;
  end_date = dto.end_date;
  is_active = true;
  branch = dto.branch;
  room = none;
}

-- A key that the request gives, or what is stored.
abbrev pub kept_or : {A : Type 0} → Option A → Option A → Option A
kept_or none old = old
kept_or (some a) old = some a

-- `Object.assign(group, { ...dto, updatedBy })`
pub assign_group : UpdateGroupDto → Uuid → Group → Group
assign_group dto updated_by g = record g {
  name = or_else dto.name g.name;
  description = kept_or dto.description g.description;
  course_id = kept_or dto.course_id g.course_id;
  teacher_id = kept_or dto.teacher_id g.teacher_id;
  max_students = or_else dto.max_students g.max_students;
  branch = kept_or dto.branch g.branch;
  start_date = kept_or dto.start_date g.start_date;
  end_date = kept_or dto.end_date g.end_date;
  updated_by = some updated_by;
}

-- `student.user?.…`
pub student_dto : Student → Option User → GroupStudentDto
student_dto x none = record {
  id = x.id;
  first_name = "";
  last_name = "";
  email = "";
  profile_picture_url = none;
  student_code = or_else x.student_code "";
}
student_dto x (some u) = record {
  id = x.id;
  first_name = u.first_name;
  last_name = u.last_name;
  email = u.email;
  profile_picture_url = u.avatar_url;
  student_code = or_else x.student_code "";
}

abbrev pub set_current : ℕ → Group → Group
set_current n g = record g { current_students = n }

module _ (db : GroupDb) where
  pub create_group : CreateGroupDto → Uuid → Uuid → Uuid → Instant → Action GroupStore Group
  unfolding new_group
  create_group dto tenant_id created_by new_id now = do
    let group = new_group new_id dto tenant_id created_by now
    modify (λ s. record s { groups = db.groups.insert group s.groups })
    pure group

  unfoldable pub find_group : Uuid → Uuid → Action GroupStore Group
  find_group id tenant_id = do
    found ← gets (λ s. db.groups.find_one (group_in_tenant id tenant_id) s.groups)
    or_throw found (not_found "Group not found")

  -- The relation `teacher.user`, by `teacherId`.
  teacher_user : GroupStore → Option Uuid → Option User
  teacher_user s none = none
  teacher_user s (some id) = elim (db.teachers.find_one (λ t. t.id == id) s.teachers) [
    | none ↦ none
    | some t ↦ db.users.find_one (has_user_id t.user_id) s.users
  ]

  course_title : GroupStore → Option Uuid → Option String
  course_title s none = none
  course_title s (some id) = elim (db.courses.find_one (λ c. c.id == id) s.courses) [
    | none ↦ none
    | some c ↦ some c.title
  ]

  pub group_response : GroupStore → Group → GroupResponseDto
  unfolding teacher_user course_title student_dto
  group_response s g =
      let students = db.members.students_of s.students g.id s.members in
      record {
        id = g.id;
        name = g.name;
        description = g.description;
        course_id = g.course_id;
        course_name = course_title s g.course_id;
        teacher_id = g.teacher_id;
        teacher_name = elim (teacher_user s g.teacher_id) [
          | none ↦ none
          | some u ↦ some (concat u.first_name (concat " " u.last_name))
        ];
        max_students = g.max_students;
        current_students = length students;
        start_date = g.start_date;
        end_date = g.end_date;
        is_active = g.is_active;
        branch = g.branch;
        room = g.room;
        tenant_id = g.tenant_id;
        created_at = g.created_at;
        students =
            map (λ x. student_dto x (db.users.find_one (has_user_id x.user_id) s.users)) students;
      }

  unfoldable pub get_group : Uuid → Uuid → Action GroupStore GroupResponseDto
  unfolding find_group group_response
  get_group id tenant_id = do g ← find_group id tenant_id; gets (λ s. group_response s g)

  pub update_group : Uuid → Uuid → UpdateGroupDto → Uuid → Action GroupStore Group
  unfolding find_group assign_group
  update_group id tenant_id dto updated_by = do
    group ← find_group id tenant_id
    modify (λ s. record s {
      groups = db.groups.update (has_group_id group.id) (assign_group dto updated_by) s.groups;
    })
    pure (assign_group dto updated_by group)

  -- `group.currentStudents = group.students.length`, and `save` with the relation
  unfoldable pub save_students : Group → List Student → Action GroupStore (Unit {0})
  save_students group students = modify (λ s. record s {
    groups = db.groups.update (has_group_id group.id) (set_current (length students)) s.groups;
    members = db.members.set_students group.id students s.members;
  })

  unfoldable pub add_student : Uuid → Uuid → Uuid → Action GroupStore GroupResponseDto
  unfolding find_group save_students get_group
  add_student group_id student_id tenant_id = do
    group ← find_group group_id tenant_id
    loaded ← gets (λ s. db.members.students_of s.students group.id s.members)
    found ← gets (λ s. db.students.find_one (student_in_tenant student_id tenant_id) s.students)
    student ← or_throw found (not_found "Student not found")
    save_students group (loaded ++ (student ∷ []))
    get_group group_id tenant_id

  unfoldable pub remove_student : Uuid → Uuid → Uuid → Action GroupStore GroupResponseDto
  unfolding find_group save_students get_group
  remove_student group_id student_id tenant_id = do
    group ← find_group group_id tenant_id
    loaded ← gets (λ s. db.members.students_of s.students group.id s.members)
    save_students group (select (λ x. not (x.id == student_id)) loaded)
    get_group group_id tenant_id

  pub remove_group : Uuid → Uuid → Instant → Action GroupStore (Unit {0})
  unfolding find_group
  remove_group id tenant_id now = do
    group ← find_group id tenant_id
    modify (λ s. record s {
      groups =
          db.groups.update (has_group_id group.id) (λ g. record g { deleted_at = some now })
            s.groups;
    })
