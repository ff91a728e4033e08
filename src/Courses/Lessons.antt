-- ===== src/Courses/Lessons.antt =====
-- `findOne`, `publish`, `remove`, `addLessonFromGroup`, `getLessonDetail` and `attachFileToLesson` of
-- modules/courses/courses.service.ts.
use edu_crm_backend.Courses.Entities.{Lesson, CourseColumns, GroupColumns, CourseStore, CourseDb}
use edu_crm_backend.Shared.Enums.{LessonType, CourseStatus}
use edu_crm_backend.Base.{
  not, false, ◌&&◌, [], ◌∷◌, ◌==◌, Bool, ◌++◌, ℕ, some, if◌then◌else◌, none, Option, String,
}
use edu_crm_backend.Database.{is_live, Instant, Uuid}
use edu_crm_backend.Text.{codes, Text}
use edu_crm_backend.Base.Action.{
  throw_if, internal, not_found, pure, or_throw, gets, modify, ◌>>=◌, ◌>>◌, Action,
}
use edu_crm_backend.Users.Entity.{truthy}

pub record CreateLessonFromGroupDto : Type 0 where
  pub title : String
  pub description : Option String
  pub group_id : Uuid
  pub video_url : Option String
  pub file_key : Option Text

pub record TeacherLessonItemDto : Type 0 where
  pub id : Uuid
  pub title : String
  pub description : Option String
  pub course_id : Uuid
  pub group : Option (Uuid × String)
  pub type : LessonType
  pub video_url : Option String
  pub file_url : Option Text
  pub file_key : Option Text
  pub order : ℕ
  pub duration_minutes : ℕ
  pub is_published : Bool
  pub created_at : Instant
  pub updated_at : Instant

abbrev pub file_serve_prefix : Text
file_serve_prefix = codes "/api/v1/files/serve/"

-- What is left of a text that starts with the prefix.
unfoldable pub after_prefix : Text → Text → Option Text
after_prefix [] t = some t
after_prefix (p ∷ ps) [] = none
after_prefix (p ∷ ps) (c ∷ cs) = let rest = after_prefix ps cs in if c == p then rest else none

-- `x ? { key: x } : {}` on texts
abbrev pub non_empty : Option Text → Option Text
non_empty none = none
non_empty (some []) = none
non_empty (some (c ∷ cs)) = some (c ∷ cs)

abbrev pub non_empty_string : Option String → Option String
non_empty_string o = if truthy o then o else none

-- `lesson.fileUrl?.startsWith(FILE_SERVE_PREFIX) ? lesson.fileUrl.slice(…) : undefined`
unfoldable pub file_key_of : Option Text → Option Text
unfolding after_prefix
file_key_of none = none
file_key_of (some url) = after_prefix file_serve_prefix url

abbrev pub served : Text → Text
served key = file_serve_prefix ++ key

-- `...(dto.fileKey ? { fileUrl: … } : {})`
pub served_if : Option Text → Option Text
served_if none = none
served_if (some []) = none
served_if (some (c ∷ cs)) = some (served (c ∷ cs))

abbrev pub has_lesson_id : Uuid → Lesson → Bool
has_lesson_id id l = l.id == id

abbrev pub course_in_tenant : Uuid → Uuid → CourseColumns → Bool
course_in_tenant id tenant_id c = c.id == id && c.tenant_id == tenant_id

pub group_lesson : Uuid → CreateLessonFromGroupDto → Uuid → Uuid → Instant → Lesson
unfolding served_if
group_lesson new_id dto course_id tenant_id now = record {
  id = new_id;
  created_at = now;
  updated_at = now;
  deleted_at = none;
  tenant_id = tenant_id;
  course_id = course_id;
  title = dto.title;
  content = dto.description;
  type = if truthy dto.video_url then LessonType.video else LessonType.text;
  video_url = dto.video_url;
  video_duration = none;
  file_url = served_if dto.file_key;
  sort_order = 0;
  module_number = 1;
  is_free = false;
  is_published = false;
  duration_minutes = 0;
}

abbrev pub set_file : Text → Lesson → Lesson
set_file key l = record l { file_url = some (served key) }

unfoldable pub lesson_item : Option GroupColumns → Lesson → TeacherLessonItemDto
unfolding file_key_of
lesson_item group l = record {
  id = l.id;
  title = l.title;
  description = non_empty_string l.content;
  course_id = l.course_id;
  group = elim group [ none ↦ none | some g ↦ some (g.id, g.name) ];
  type = l.type;
  video_url = non_empty_string l.video_url;
  file_url = non_empty l.file_url;
  file_key = non_empty (file_key_of l.file_url);
  order = l.sort_order;
  duration_minutes = l.duration_minutes;
  is_published = l.is_published;
  created_at = l.created_at;
  updated_at = l.updated_at;
}

module _ (db : CourseDb) where
  unfoldable pub find_course : Uuid → Uuid → Action CourseStore CourseColumns
  find_course id tenant_id = do
    found ← gets (λ s. db.courses.find_one (course_in_tenant id tenant_id) s.courses)
    or_throw found (not_found "Course not found")

  pub publish_course : Uuid → Uuid → Action CourseStore String
  unfolding find_course
  publish_course id tenant_id = do
    find_course id tenant_id
    modify (λ s. record s {
      courses =
          db.courses.update (λ c. c.id == id) (λ c. record c { status = CourseStatus.published })
            s.courses;
    })
    pure "Course published"

  pub remove_course : Uuid → Uuid → Instant → Action CourseStore (Unit {0})
  unfolding find_course
  remove_course id tenant_id now = do
    find_course id tenant_id
    modify (λ s. record s {
      courses =
          db.courses.update (λ c. c.id == id) (λ c. record c { deleted_at = some now }) s.courses;
    })

  course_of_group : Option GroupColumns → Option Uuid
  course_of_group none = none
  course_of_group (some g) = g.course_id

  pub add_lesson_from_group :
      CreateLessonFromGroupDto → Uuid → Uuid → Instant → Action CourseStore Lesson
  unfolding group_lesson course_of_group
  add_lesson_from_group dto tenant_id new_id now = do
    group ← gets (λ s.
        db.groups.find_one
          (λ g. g.id == dto.group_id && (g.tenant_id == tenant_id && is_live g.deleted_at))
          s.groups)
    course_id ← or_throw (course_of_group group) (not_found "Group or its course not found")
    let lesson = group_lesson new_id dto course_id tenant_id now
    modify (λ s. record s { lessons = db.lessons.insert lesson s.lessons })
    pure lesson

  -- `!lesson || lesson.course.tenantId !== tenantId`; reading the tenant of a course that is deleted
  -- throws.
  unfoldable pub own_lesson : Uuid → Uuid → Action CourseStore Lesson
  own_lesson lesson_id tenant_id = do
    found ← gets (λ s. db.lessons.find_one (has_lesson_id lesson_id) s.lessons)
    lesson ← or_throw found (not_found "Lesson not found")
    joined ← gets (λ s. db.courses.find_one (λ c. c.id == lesson.course_id) s.courses)
    course ← or_throw joined (internal "Cannot read properties of null")
    throw_if (not (course.tenant_id == tenant_id)) (not_found "Lesson not found")
    pure lesson

  unfoldable pub get_lesson_detail : Uuid → Uuid → Action CourseStore TeacherLessonItemDto
  unfolding own_lesson lesson_item
  get_lesson_detail lesson_id tenant_id = do
    lesson ← own_lesson lesson_id tenant_id
    group ← gets (λ s.
        db.groups.find_one
          (λ g.
            (elim g.course_id [ none ↦ false | some c ↦ c == lesson.course_id ])
            && (g.tenant_id == tenant_id && is_live g.deleted_at))
          s.groups)
    pure (lesson_item group lesson)

  unfoldable pub attach_file_to_lesson : Uuid → Text → Uuid → Action CourseStore Lesson
  unfolding own_lesson
  attach_file_to_lesson lesson_id file_key tenant_id = do
    lesson ← own_lesson lesson_id tenant_id
    modify (λ s. record s {
      lessons = db.lessons.update (has_lesson_id lesson.id) (set_file file_key) s.lessons;
    })
    pure (set_file file_key lesson)
