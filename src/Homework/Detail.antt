-- ===== src/Homework/Detail.antt =====
-- `getDetail` of modules/homework/homework.service.ts.
use edu_crm_backend.Homework.Entities.{Homework, GroupRow, CourseRow, HomeworkStore, HomeworkDb}
use edu_crm_backend.Database.{is_live, Instant, Uuid}
use edu_crm_backend.Base.{
  ltb, if◌then◌else◌, select, length, ◌&&◌, false, true, ℕ, none, List, some, String, Bool, ◌==◌,
  Option,
}
use edu_crm_backend.Homework.Submissions.{
  shown_urls, shown_text, ItemStatus, get_submissions, HomeworkSubmissionItemDto,
}
use edu_crm_backend.Base.Action.{not_found, or_throw, gets, ◌>>=◌, Action}
use edu_crm_backend.Homework.Assignments.{homework_in_tenant}

pub data HomeworkState : Type 0 where
  closed published : HomeworkState

pub record HomeworkDetailDto : Type 0 where
  pub id : Uuid
  pub title : String
  pub description : Option String
  pub group_id : Option Uuid
  pub group_name : Option String
  pub course_id : Option Uuid
  pub course_name : Option String
  pub teacher_id : Uuid
  pub due_date : Instant
  pub max_points : ℕ
  pub max_score : ℕ
  pub allow_resubmit : Bool
  pub attached_file_keys : Option (List String)
  pub submissions_count : ℕ
  pub graded_count : ℕ
  pub homework_state : HomeworkState
  pub submissions : List HomeworkSubmissionItemDto
  pub created_at : Instant
  pub updated_at : Instant

-- `s.status === 'graded'`
unfoldable pub is_graded_item : HomeworkSubmissionItemDto → Bool
is_graded_item i = elim i.item_status [ ItemStatus.graded ↦ true | _ ↦ false ]

-- A left join on a nullable key.
abbrev pub join : {Row : Type 0} → (Uuid → Option Row) → Option Uuid → Option Row
join f none = none
join f (some id) = f id

module _ (db : HomeworkDb) where
  group_row : HomeworkStore → Option Uuid → Option GroupRow
  group_row s id = join (λ i. db.groups.find_one (λ g. g.id == i) s.groups) id

  course_row : HomeworkStore → Option GroupRow → Option CourseRow
  course_row s none = none
  course_row s (some g) = join (λ i. db.courses.find_one (λ c. c.id == i) s.courses) g.course_id

  pub detail_of :
      HomeworkStore → Instant → List HomeworkSubmissionItemDto → Homework → HomeworkDetailDto
  unfolding is_graded_item course_row group_row
  detail_of s now submissions hw =
      let group = group_row s hw.group_id in
      let course = course_row s group in
      record {
        id = hw.id;
        title = hw.title;
        description = shown_text (some hw.description);
        group_id = hw.group_id;
        group_name = shown_text (elim group [ none ↦ none | some g ↦ some g.name ]);
        course_id = elim group [ none ↦ none | some g ↦ g.course_id ];
        course_name = shown_text (elim course [ none ↦ none | some c ↦ some c.title ]);
        teacher_id = hw.teacher_id;
        due_date = hw.due_date;
        max_points = hw.max_score;
        max_score = hw.max_score;
        allow_resubmit = false;
        attached_file_keys = shown_urls hw.attachments;
        submissions_count = length submissions;
        graded_count = length (select is_graded_item submissions);
        homework_state = if ltb hw.due_date now then closed else published;
        submissions = submissions;
        created_at = hw.created_at;
        updated_at = hw.updated_at;
      }

  -- `WHERE hw.id = $1 AND hw.tenant_id = $2 AND hw.deleted_at IS NULL`
  pub get_detail : Uuid → Uuid → Instant → Action HomeworkStore HomeworkDetailDto
  unfolding detail_of get_submissions
  get_detail id tenant_id now = do
    found ← gets (λ s.
        db.sql_homeworks.find_one (λ h. homework_in_tenant id tenant_id h && is_live h.deleted_at)
          s.homeworks)
    row ← or_throw found (not_found "Homework not found")
    submissions ← get_submissions db id tenant_id
    gets (λ s. detail_of s now submissions row)
