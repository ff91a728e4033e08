-- ===== src/Courses/Tests.antt =====
-- Runs of the courses module: one course, one lesson, one student.
use edu_crm_backend.Courses.Entities.{
  Enrollment, Lesson, CourseColumns, CourseStore, CourseDb, any_row, lesson_live, enrollment_live,
  columns_live,
}
use edu_crm_backend.Courses.Lessons.{
  served, get_lesson_detail, has_lesson_id, find_course, attach_file_to_lesson,
  TeacherLessonItemDto,
}
use edu_crm_backend.Shared.Enums.{LessonType, CourseStatus}
use edu_crm_backend.Database.InMemory.{in_memory}
use edu_crm_backend.Database.Lookup.{OnlyMatch}
use edu_crm_backend.Courses.Enrolment.{
  enrollment_response, published_lessons, new_enrollment, enroll_student,
}
use edu_crm_backend.Base.{List, refl, some, length, ◌≡◌, Memᴰ, true, false, [], ◌∷◌, none}
use edu_crm_backend.Base.Action.{conflict, err, ok}
use edu_crm_backend.Courses.Files.{get_lesson_detail-attach_file}
use edu_crm_backend.Courses.Once.{enroll_student_once, enroll_all, EnrolRequest}
use edu_crm_backend.Courses.Enrolled.{enrollments_of}

abbrev memory : CourseDb
memory = record {
  courses = in_memory columns_live;
  lessons = in_memory lesson_live;
  sql_lessons = in_memory any_row;
  enrollments = in_memory enrollment_live;
  students = in_memory any_row;
  groups = in_memory any_row;
}

abbrev algebra : CourseColumns
algebra = record { id = 5; deleted_at = none; tenant_id = 1; status = CourseStatus.published }

abbrev fractions : Lesson
fractions = record {
  id = 20;
  created_at = 1;
  updated_at = 1;
  deleted_at = none;
  tenant_id = 1;
  course_id = 5;
  title = "Fractions";
  content = none;
  type = LessonType.text;
  video_url = none;
  video_duration = none;
  file_url = none;
  sort_order = 0;
  module_number = 1;
  is_free = false;
  is_published = true;
  duration_minutes = 45;
}

abbrev catalogue : CourseStore
catalogue = record {
  courses = algebra ∷ [];
  lessons = fractions ∷ [];
  enrollments = [];
  students = record { id = 7; tenant_id = 1 } ∷ [];
  groups = [];
}

only_fractions : OnlyMatch (has_lesson_id 20) catalogue.lessons fractions
only_fractions r (Memᴰ.head e) h = e
only_fractions r (Memᴰ.tail m) h = elim m [ ]

get_lesson_detail-attach_file_example :
    let s' = (attach_file_to_lesson memory 20 (97 ∷ []) 1 catalogue).1 in
    (i : TeacherLessonItemDto) × ((get_lesson_detail memory 20 1 s').0 ≡ ok i)
    × (i.file_key ≡ some (97 ∷ []))
    × (i.file_url ≡ some (served (97 ∷ [])))
get_lesson_detail-attach_file_example =
    get_lesson_detail-attach_file memory 20 1 97 [] catalogue fractions algebra refl only_fractions
      refl refl

abbrev enrolled_now : Enrollment
unfolding new_enrollment
enrolled_now = new_enrollment 30 5 7 1 1 100

-- The same student again, and one whom nobody knows.
abbrev more : List EnrolRequest
more =
    record {
      course_id = 5;
      student_id = 7;
      group_id = some 2;
      tenant_id = 1;
      new_id = 31;
      now = 150;
    }
    ∷ record {
      course_id = 5;
      student_id = 8;
      group_id = none;
      tenant_id = 1;
      new_id = 32;
      now = 160;
    }
    ∷ []

enroll_student_once_example :
    let s' = enroll_all memory more (enroll_student memory 5 7 none 1 30 100 catalogue).1 in
    (length (enrollments_of 5 7 catalogue) ≡ 0)
    × (length (enrollments_of 5 7 s') ≡ 1)
    × (enroll_student memory 5 7 (some 3) 1 33 200 s'
        ≡ (err (conflict "Student already enrolled in this course"), s'))
unfolding enroll_student find_course published_lessons new_enrollment enrollment_response
enroll_student_once_example =
    enroll_student_once memory 5 7 1 30 33 none (some 3) 100 200 more catalogue
      (enrollment_response none enrolled_now) refl
