-- ===== src/Groups/Entities.antt =====
-- modules/groups/entities/group.entity.ts, with the columns that the service reads of other tables.
-- The students of a group are the rows of the join table `group_students`, which TypeORM reads and
-- writes: a parameter, with the laws that the service relies on.
use edu_crm_backend.Base.{if◌then◌else◌, ◌≡◌, ◌==◌, ◌&&◌, any, String, List, Option, Bool, ℕ}
use edu_crm_backend.Users.Entity.{user_live, User}
use edu_crm_backend.Database.{Instant, Repository, is_live, Uuid}

pub record Group : Type 0 where
  pub id : Uuid
  pub created_at : Instant
  pub deleted_at : Option Instant
  pub created_by : Option Uuid
  pub updated_by : Option Uuid
  pub tenant_id : Uuid
  pub name : String
  pub description : Option String
  pub course_id : Option Uuid
  pub teacher_id : Option Uuid
  pub max_students : ℕ
  pub current_students : ℕ
  pub start_date : Option Instant
  pub end_date : Option Instant
  pub is_active : Bool
  pub branch : Option String
  pub room : Option String

pub record Student : Type 0 where
  pub id : Uuid
  pub deleted_at : Option Instant
  pub user_id : Uuid
  pub tenant_id : Uuid
  pub student_code : Option String

pub record Teacher : Type 0 where
  pub id : Uuid
  pub deleted_at : Option Instant
  pub user_id : Uuid

pub record Course : Type 0 where
  pub id : Uuid
  pub deleted_at : Option Instant
  pub title : String

abbrev pub group_live : Group → Bool
group_live g = is_live g.deleted_at

abbrev pub student_live : Student → Bool
student_live x = is_live x.deleted_at

abbrev pub teacher_live : Teacher → Bool
teacher_live t = is_live t.deleted_at

abbrev pub course_live : Course → Bool
course_live c = is_live c.deleted_at

-- A row of `group_students`.
pub record Membership : Type 0 where
  pub group_id : Uuid
  pub student_id : Uuid

abbrev pub member : Uuid → Uuid → List Membership → Bool
member group_id student_id rows =
    any (λ m. m.group_id == group_id && m.student_id == student_id) rows

-- A student with this id that is not deleted.
abbrev pub enrolled : Uuid → List Student → Bool
enrolled id students = any (λ x. student_live x && x.id == id) students

-- Loading the relation gives the students that are not deleted; saving an entity with it leaves
-- exactly the students of its array in the group, and other groups alone.
pub record JoinTable : Type 0 where
  pub students_of : List Student → Uuid → List Membership → List Student
  pub students_of_lem :
      (students : List Student) (group_id : Uuid) (rows : List Membership) (id : Uuid)
      → any (λ x. x.id == id) (students_of students group_id rows)
        ≡ (enrolled id students && member group_id id rows)
  pub set_students : Uuid → List Student → List Membership → List Membership
  pub set_students_lem :
      (group_id : Uuid) (students : List Student) (rows : List Membership) (g id : Uuid)
      → member g id (set_students group_id students rows)
        ≡ (if g == group_id then any (λ x. x.id == id) students else member g id rows)

pub record GroupStore : Type 0 where
  pub groups : List Group
  pub students : List Student
  pub members : List Membership
  pub teachers : List Teacher
  pub courses : List Course
  pub users : List User

pub record GroupDb : Type 0 where
  pub groups : Repository group_live
  pub students : Repository student_live
  pub teachers : Repository teacher_live
  pub courses : Repository course_live
  pub users : Repository user_live
  pub members : JoinTable
