-- ===== src/Groups/Tests.antt =====
-- Runs of the groups module: one group and one student.
use edu_crm_backend.Groups.Entities.{
  Group, Student, GroupStore, GroupDb, group_live, student_live, teacher_live, course_live,
}
use edu_crm_backend.Groups.Replay.{requests-replay, granted_of, replay, requests, GroupCommand}
use edu_crm_backend.Database.InMemory.{in_memory}
use edu_crm_backend.Users.Entity.{user_live}
use edu_crm_backend.Groups.Membership.{visible}
use edu_crm_backend.Groups.Service.{group_in_tenant, add_student}
use edu_crm_backend.Base.{refl, ◌+◌, length, some, Memᴰ, ◌≡◌, true, [], none, ◌∷◌, List}
use edu_crm_backend.Database.Lookup.{OnlyMatch}
use edu_crm_backend.Groups.InMemory.{in_memory_members}
use edu_crm_backend.Database.{Uuid}
use edu_crm_backend.Groups.Drift.{add_student_again}

abbrev memory : GroupDb
memory = record {
  groups = in_memory group_live;
  students = in_memory student_live;
  teachers = in_memory teacher_live;
  courses = in_memory course_live;
  users = in_memory user_live;
  members = in_memory_members;
}

-- A group for one student.
abbrev morning : Group
morning = record {
  id = 90;
  created_at = 1;
  deleted_at = none;
  created_by = none;
  updated_by = none;
  tenant_id = 1;
  name = "Morning";
  description = none;
  course_id = none;
  teacher_id = none;
  max_students = 1;
  current_students = 1;
  start_date = none;
  end_date = none;
  is_active = true;
  branch = none;
  room = none;
}

abbrev dana : Student
dana = record { id = 7; deleted_at = none; user_id = 3; tenant_id = 1; student_code = none }

abbrev school : GroupStore
school = record {
  groups = morning ∷ [];
  students = dana ∷ [];
  members = record { group_id = 90; student_id = 7 } ∷ [];
  teachers = [];
  courses = [];
  users = [];
}

only_morning : OnlyMatch (group_in_tenant 90 1) school.groups morning
only_morning r (Memᴰ.head e) h = e
only_morning r (Memᴰ.tail m) h = elim m [ ]

add_student_again_example :
    let s' = (add_student memory 90 7 1 school).1 in
    ((g x : Uuid) → visible s' g x ≡ visible school g x)
    × ((y : Group) × (memory.groups.find_one (group_in_tenant 90 1) s'.groups ≡ some y)
        × (y.current_students
            ≡ length (memory.members.students_of school.students 90 school.members) + 1))
add_student_again_example =
    add_student_again memory 90 7 1 school morning dana refl only_morning refl refl

abbrev moves : List GroupCommand
moves = GroupCommand.remove 90 7 1 ∷ GroupCommand.add 90 7 1 ∷ GroupCommand.add 91 7 1 ∷ []

requests-replay_example :
    visible (requests memory moves school) 90 7
    ≡ replay (granted_of memory moves school) (visible school) 90 7
requests-replay_example = requests-replay memory moves school 90 7
