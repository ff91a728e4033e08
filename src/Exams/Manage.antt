-- ===== src/Exams/Manage.antt =====
-- `findOne`, `publish`, `addQuestion` and `remove` of modules/exams/exams.service.ts.
-- `where: { id, tenantId }`
use edu_crm_backend.Exams.Entities.{ExamQuestion, Exam, Store, Libraries}
use edu_crm_backend.Database.{Instant, Uuid}
use edu_crm_backend.Base.Action.{not_found, pure, or_throw, modify, gets, ◌>>◌, ◌>>=◌, Action}
use edu_crm_backend.Base.{◌&&◌, some, ◌==◌, true, Bool}

abbrev pub exam_in_tenant : Uuid → Uuid → Exam → Bool
exam_in_tenant id tenant_id e = e.id == id && e.tenant_id == tenant_id

abbrev pub has_exam_id : Uuid → Exam → Bool
has_exam_id id e = e.id == id

module _ (lib : Libraries) where
  unfoldable pub find_exam : Uuid → Uuid → Action Store Exam
  find_exam id tenant_id = do
    found ← gets (λ s. lib.exams.find_one (exam_in_tenant id tenant_id) s.exams)
    or_throw found (not_found "Exam not found")

  -- `update` with `{ isPublished: true }`
  pub publish : Uuid → Uuid → Action Store Exam
  unfolding find_exam
  publish id tenant_id = do
    exam ← find_exam id tenant_id
    let published : Exam = record exam { is_published = true }
    modify (λ s. record s {
      exams =
          lib.exams.update (has_exam_id exam.id) (λ e. record e { is_published = true }) s.exams;
    })
    pure published

  -- The question comes with its id and its columns; the exam's id is put in.
  pub add_question : Uuid → Uuid → ExamQuestion → Action Store ExamQuestion
  unfolding find_exam
  add_question exam_id tenant_id dto = do
    find_exam exam_id tenant_id
    let q : ExamQuestion = record dto { exam_id = exam_id }
    modify (λ s. record s { questions = lib.questions.insert q s.questions })
    pure q

  pub remove : Uuid → Uuid → Instant → Action Store (Unit {0})
  unfolding find_exam
  remove id tenant_id now = do
    exam ← find_exam id tenant_id
    modify (λ s. record s {
      exams =
          lib.exams.update (has_exam_id exam.id) (λ e. record e { deleted_at = some now }) s.exams;
    })
