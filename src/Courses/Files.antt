-- ===== src/Courses/Files.antt =====
-- The file of a lesson: what `attachFileToLesson` stores and `getLessonDetail` reads.
use edu_crm_backend.Courses.Entities.{Lesson, CourseColumns, CourseStore, CourseDb}
use edu_crm_backend.Courses.Lessons.{
  non_empty, set_file, file_serve_prefix, served, has_lesson_id, lesson_item, own_lesson,
  file_key_of, after_prefix, get_lesson_detail, attach_file_to_lesson, TeacherLessonItemDto,
}
use edu_crm_backend.Base.{
  ◌&&◌, false, none, ap, ◌∙◌, refl, arith, [], ==_refl, true, ◌==◌, ◌∷◌, ◌++◌, some, ◌≡◌, ℕ,
}
use edu_crm_backend.Database.{is_live, Uuid}
use edu_crm_backend.Text.{Text}
use edu_crm_backend.Database.Lookup.{find_one-update_only, OnlyMatch}
use edu_crm_backend.Base.Action.{ok}
use edu_crm_backend.Database.Rows.{update_rows}

after_prefix-append : (p k : Text) → after_prefix p (p ++ k) ≡ some k
unfolding after_prefix
after_prefix-append [] k = refl
after_prefix-append (c ∷ cs) k = rw (==_refl c) (after_prefix-append cs k)

file_key-served : (key : Text) → file_key_of (some (served key)) ≡ some key
unfolding file_key_of
file_key-served key = after_prefix-append file_serve_prefix key

module _ (db : CourseDb) where
  own :
      (id tenant_id : Uuid) (s : CourseStore) (l : Lesson) (c : CourseColumns)
      → db.lessons.find_one (has_lesson_id id) s.lessons ≡ some l
      → db.courses.find_one (λ x. x.id == l.course_id) s.courses ≡ some c
      → (c.tenant_id == tenant_id) ≡ true
      → own_lesson db id tenant_id s ≡ (ok l, s)
  unfolding own_lesson
  own id tenant_id s l c found of_course his = ground arith

  attached :
      (id tenant_id : Uuid) (key : Text) (s : CourseStore) (l : Lesson)
      → own_lesson db id tenant_id s ≡ (ok l, s)
      → ((attach_file_to_lesson db id key tenant_id s).1.lessons
          ≡ update_rows (has_lesson_id l.id) (set_file key) s.lessons)
        × ((attach_file_to_lesson db id key tenant_id s).1.courses ≡ s.courses)
  unfolding attach_file_to_lesson
  attached id tenant_id key s l mine = (
    ground (arith, db.lessons.update_lem (has_lesson_id l.id) (set_file key) s.lessons),
    ground arith,
  )

  detail :
      (id tenant_id : Uuid) (s : CourseStore) (l : Lesson)
      → own_lesson db id tenant_id s ≡ (ok l, s)
      → (i : TeacherLessonItemDto) × ((get_lesson_detail db id tenant_id s).0 ≡ ok i)
        × (i.file_key ≡ non_empty (file_key_of l.file_url))
        × (i.file_url ≡ non_empty l.file_url)
  unfolding get_lesson_detail lesson_item
  detail id tenant_id s l mine = (
    lesson_item
        (db.groups.find_one
          (λ g.
            (elim g.course_id [ none ↦ false | some c ↦ c == l.course_id ])
            && (g.tenant_id == tenant_id && is_live g.deleted_at))
          s.groups)
        l,
    ground (arith, mine),
    refl,
    refl,
  )

  -- After a file is attached to a lesson of the tenant, the detail of the lesson gives back the key
  -- of the file, which is not empty, and its address. The lesson is the only row with its id.
  pub get_lesson_detail-attach_file :
      (id tenant_id c : ℕ) (cs : Text) (s : CourseStore) (l : Lesson) (course : CourseColumns)
      → db.lessons.find_one (has_lesson_id id) s.lessons ≡ some l
      → OnlyMatch (has_lesson_id id) s.lessons l
      → db.courses.find_one (λ x. x.id == l.course_id) s.courses ≡ some course
      → (course.tenant_id == tenant_id) ≡ true
      → let s' = (attach_file_to_lesson db id (c ∷ cs) tenant_id s).1 in
        (i : TeacherLessonItemDto) × ((get_lesson_detail db id tenant_id s').0 ≡ ok i)
        × (i.file_key ≡ some (c ∷ cs))
        × (i.file_url ≡ some (served (c ∷ cs)))
  get_lesson_detail-attach_file id tenant_id c cs s l course found only of_course his =
      let key : Text = c ∷ cs in
      let (rows, courses) =
        attached id tenant_id key s l (own id tenant_id s l course found of_course his) in
      let s' : CourseStore = (attach_file_to_lesson db id key tenant_id s).1 in
      let again : db.lessons.find_one (has_lesson_id id) s'.lessons ≡ some (set_file key l) =
        rw rows (
          find_one-update_only db.lessons (has_lesson_id id) (has_lesson_id l.id) (set_file key)
            s.lessons l found only (λ r. refl) (λ r. refl) (==_refl l.id)) in
      let same : db.courses.find_one (λ x. x.id == l.course_id) s'.courses ≡ some course =
        rw courses of_course in
      let (i, e, k, u) =
        detail id tenant_id s' (set_file key l)
          (own id tenant_id s' (set_file key l) course again same his) in
      (i, e, k ∙ ap non_empty (file_key-served key), u)
