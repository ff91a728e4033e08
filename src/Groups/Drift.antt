-- ===== src/Groups/Drift.antt =====
-- What `addStudent` does to the stored count of students.
use edu_crm_backend.Groups.Entities.{Group, Student, GroupStore, GroupDb}
use edu_crm_backend.Base.{
  inr, sym, and_right, and_left, ==_iff, inl, ◌&&◌, ◌==◌, Bool-cases, Bool, [], ◌∷◌, length-append,
  ◌∙◌, refl, ==_refl, ap, ◌+◌, length, true, some, ◌≡◌,
}
use edu_crm_backend.Database.{Uuid}
use edu_crm_backend.Groups.Service.{
  set_current, has_group_id, add_student, student_in_tenant, group_in_tenant, save_students,
}
use edu_crm_backend.Database.Lookup.{find_one-update_only, OnlyMatch}
use edu_crm_backend.Groups.Membership.{with_member, visible}
use edu_crm_backend.Database.Rows.{update_rows}
use edu_crm_backend.Groups.Replay.{added_shows, only_reads, added_as}

with_member_same :
    (h y : Uuid) (m : Uuid → Uuid → Bool) (g x : Uuid)
    → m h y ≡ true
    → with_member h y m g x ≡ m g x
with_member_same h y m g x is_in = elim (Bool-cases (g == h && x == y)) [
  | inl both ↦
      let same_g : g ≡ h = (==_iff _ _).0 (and_left _ _ both) in
      let same_x : x ≡ y = (==_iff _ _).0 (and_right (g == h) _ both) in
      rw both (sym (ap (λ i. m i x) same_g ∙ (ap (m h) same_x ∙ is_in)))
  | inr not_both ↦ rw not_both refl
]

module _ (db : GroupDb) where
  added_groups :
      (group_id student_id tenant_id : Uuid) (s : GroupStore) (group : Group) (student : Student)
      → db.groups.find_one (group_in_tenant group_id tenant_id) s.groups ≡ some group
      → db.students.find_one (student_in_tenant student_id tenant_id) s.students ≡ some student
      → (add_student db group_id student_id tenant_id s).1.groups
        ≡ update_rows
            (has_group_id group.id)
            (set_current (length (db.members.students_of s.students group.id s.members) + 1))
            s.groups
  unfolding save_students
  added_groups group_id student_id tenant_id s group student found there =
      let loaded = db.members.students_of s.students group.id s.members in
      ap (λ p. p.1.groups) (added_as db group_id student_id tenant_id s group student found there)
      ∙ (ap (λ t. t.groups) (only_reads db group_id tenant_id _)
          ∙ (db.groups.update_lem _ _ _
              ∙ ap (λ n. update_rows (has_group_id group.id) (set_current n) s.groups)
                  (length-append loaded (student ∷ []))))

  -- Adding a student who is in the group already leaves the members as they are and sets the stored
  -- count of students one higher than their number; the maximum of the group is not looked at.
  pub add_student_again :
      (group_id student_id tenant_id : Uuid) (s : GroupStore) (group : Group) (student : Student)
      → db.groups.find_one (group_in_tenant group_id tenant_id) s.groups ≡ some group
      → OnlyMatch (group_in_tenant group_id tenant_id) s.groups group
      → db.students.find_one (student_in_tenant student_id tenant_id) s.students ≡ some student
      → visible s group_id student_id ≡ true
      → let s' = (add_student db group_id student_id tenant_id s).1 in
        ((g x : Uuid) → visible s' g x ≡ visible s g x)
        × ((y : Group) × (db.groups.find_one (group_in_tenant group_id tenant_id) s'.groups
              ≡ some y)
            × (y.current_students
                ≡ length (db.members.students_of s.students group.id s.members) + 1))
  add_student_again group_id student_id tenant_id s group student found only there is_in = (
    λ g x.
        ap (λ p. visible p.1 g x)
          (added_as db group_id student_id tenant_id s group student found there)
        ∙ (ap (λ t. visible t g x) (only_reads db group_id tenant_id _)
            ∙ (added_shows db group_id student_id tenant_id s group student found there g x
                ∙ with_member_same group_id student_id (visible s) g x is_in)),
    (
      set_current (length (db.members.students_of s.students group.id s.members) + 1) group,
      rw (added_groups group_id student_id tenant_id s group student found there) (
          find_one-update_only db.groups (group_in_tenant group_id tenant_id)
            (has_group_id group.id)
            (set_current (length (db.members.students_of s.students group.id s.members) + 1))
            s.groups group found only (λ r. refl) (λ r. refl) (==_refl group.id)),
      refl,
    ),
  )
