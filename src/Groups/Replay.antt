-- ===== src/Groups/Replay.antt =====
-- The requests on the students of groups, one after another, against the relation that they are
-- meant to build.
use edu_crm_backend.Groups.Entities.{Group, Student, GroupStore, GroupDb}
use edu_crm_backend.Groups.Service.{
  get_group, save_students, student_in_tenant, group_in_tenant, find_group, remove_student,
  add_student, GroupResponseDto,
}
use edu_crm_backend.Base.Action.{not_found, err, ok, Result, Action, Error}
use edu_crm_backend.Base.{
  ◌==◌, not, sym, and_left, ◌++◌, ◌∙◌, select, ap, some, ==_iff, arith, refl, inr, inl,
  Option-cases, ◌⊎◌, [], ◌∷◌, Bool, ◌≡◌, List,
}
use edu_crm_backend.Database.{Uuid}
use edu_crm_backend.Groups.Membership.{
  enrolled_found, member_added, member_removed, saved, without_member, with_member, visible,
}

-- The group, the student and the tenant of a request.
pub data GroupCommand : Type 0 where
  add remove : Uuid → Uuid → Uuid → GroupCommand

abbrev pub meant : GroupCommand → (Uuid → Uuid → Bool) → Uuid → Uuid → Bool
meant (GroupCommand.add group_id student_id tenant_id) m = with_member group_id student_id m
meant (GroupCommand.remove group_id student_id tenant_id) m = without_member group_id student_id m

abbrev pub replay : List GroupCommand → (Uuid → Uuid → Bool) → Uuid → Uuid → Bool
replay [] m = m
replay (c ∷ cs) m = replay cs (meant c m)

meant-same :
    (c : GroupCommand) (m m' : Uuid → Uuid → Bool)
    → ((g x : Uuid) → m g x ≡ m' g x)
    → (g x : Uuid) → meant c m g x ≡ meant c m' g x
meant-same (GroupCommand.add h y t) m m' e g x = rw (e g x) refl
meant-same (GroupCommand.remove h y t) m m' e g x = rw (e g x) refl

replay-same :
    (cs : List GroupCommand) (m m' : Uuid → Uuid → Bool)
    → ((g x : Uuid) → m g x ≡ m' g x)
    → (g x : Uuid) → replay cs m g x ≡ replay cs m' g x
replay-same [] m m' e g x = e g x
replay-same (c ∷ cs) m m' e g x = replay-same cs (meant c m) (meant c m') (meant-same c m m' e) g x

module _ (db : GroupDb) where
  pub request : GroupCommand → Action GroupStore GroupResponseDto
  request (GroupCommand.add group_id student_id tenant_id) =
      add_student db group_id student_id tenant_id
  request (GroupCommand.remove group_id student_id tenant_id) =
      remove_student db group_id student_id tenant_id

  pub requests : List GroupCommand → GroupStore → GroupStore
  unfolding request
  requests [] s = s
  requests (c ∷ cs) s = requests cs (request c s).1

  abbrev pub kept_if :
      {A : Type 0} → Result A → GroupCommand → List GroupCommand → List GroupCommand
  kept_if (ok a) c cs = c ∷ cs
  kept_if (err e) c cs = cs

  -- The requests that are granted.
  pub granted_of : List GroupCommand → GroupStore → List GroupCommand
  unfolding request
  granted_of [] s = []
  granted_of (c ∷ cs) s = let rest = granted_of cs (request c s).1 in kept_if (request c s).0 c rest

  -- A request is refused with nothing changed, or it is granted and does what it means.
  abbrev pub Done : GroupCommand → GroupStore → Type 0
  unfolding request
  Done c s =
      ((e : Error) × (request c s ≡ (err e, s)))
      ⊎ ((r : GroupResponseDto) × ((request c s).0 ≡ ok r)
          × ((g x : Uuid) → visible (request c s).1 g x ≡ meant c (visible s) g x))

  pub added_as :
      (group_id student_id tenant_id : Uuid) (s : GroupStore) (group : Group) (student : Student)
      → db.groups.find_one (group_in_tenant group_id tenant_id) s.groups ≡ some group
      → db.students.find_one (student_in_tenant student_id tenant_id) s.students ≡ some student
      → add_student db group_id student_id tenant_id s
        ≡ get_group db group_id tenant_id
            (save_students db group
              (db.members.students_of s.students group.id s.members ++ (student ∷ []))
              s).1
  unfolding add_student find_group save_students
  added_as group_id student_id tenant_id s group student found there = ground arith

  removed_as :
      (group_id student_id tenant_id : Uuid) (s : GroupStore) (group : Group)
      → db.groups.find_one (group_in_tenant group_id tenant_id) s.groups ≡ some group
      → remove_student db group_id student_id tenant_id s
        ≡ get_group db group_id tenant_id
            (save_students db group
              (select
                (λ y. not (y.id == student_id))
                (db.members.students_of s.students group.id s.members))
              s).1
  unfolding remove_student find_group save_students
  removed_as group_id student_id tenant_id s group found = ground arith

  pub only_reads :
      (group_id tenant_id : Uuid) (s : GroupStore) → (get_group db group_id tenant_id s).1 ≡ s
  unfolding get_group find_group
  only_reads group_id tenant_id s =
      elim (Option-cases (db.groups.find_one (group_in_tenant group_id tenant_id) s.groups)) [
        | inl missed ↦ ground arith
        | inr (group, found) ↦ ground arith
      ]

  -- A request that ends by reading the group after its students were saved.
  by_saving :
      (c : GroupCommand) (group_id tenant_id : Uuid) (s : GroupStore) (group : Group)
      (students : List Student)
      → db.groups.find_one (group_in_tenant group_id tenant_id) s.groups ≡ some group
      → request c s ≡ get_group db group_id tenant_id (save_students db group students s).1
      → ((g x : Uuid) → visible (save_students db group students s).1 g x ≡ meant c (visible s) g x)
      → Done c s
  unfolding Done
  by_saving c group_id tenant_id s group students found as_ shows =
      let (r, e) = saved db group_id tenant_id group students s found in
      inr (
        r,
        ap (λ p. p.0) as_ ∙ e,
        λ g x.
            ap (λ p. visible p.1 g x) as_
            ∙ (ap (λ t. visible t g x) (only_reads group_id tenant_id _) ∙ shows g x),
      )

  pub added_shows :
      (group_id student_id tenant_id : Uuid) (s : GroupStore) (group : Group) (student : Student)
      → db.groups.find_one (group_in_tenant group_id tenant_id) s.groups ≡ some group
      → db.students.find_one (student_in_tenant student_id tenant_id) s.students ≡ some student
      → (g x : Uuid)
      → visible
          (save_students db group
            (db.members.students_of s.students group.id s.members ++ (student ∷ []))
            s).1
          g
          x
        ≡ with_member group_id student_id (visible s) g x
  added_shows group_id student_id tenant_id s group student found there g x =
      let listed = db.students.find_one_listed _ _ student there in
      let alive = db.students.find_one_live _ _ student there in
      let same : student.id ≡ student_id =
        (==_iff _ _).0 (and_left _ _ (db.students.find_one_fits _ _ student there)) in
      let named : group.id ≡ group_id =
        (==_iff _ _).0 (and_left _ _ (db.groups.find_one_fits _ _ group found)) in
      member_added db group_id group student s named
        (enrolled_found student.id s.students student listed alive refl) g x
      ∙ ap (λ i. with_member group_id i (visible s) g x) same

  pub added :
      (group_id student_id tenant_id : Uuid) (s : GroupStore)
      → Done (GroupCommand.add group_id student_id tenant_id) s
  unfolding Done request add_student find_group
  added group_id student_id tenant_id s =
      elim (Option-cases (db.groups.find_one (group_in_tenant group_id tenant_id) s.groups)) [
        | inl missed ↦ inl (not_found "Group not found", ground arith)
        | inr (group, found) ↦
            elim (Option-cases
              (db.students.find_one (student_in_tenant student_id tenant_id) s.students)) [
                | inl nobody ↦ inl (not_found "Student not found", ground arith)
                | inr (student, there) ↦
                    by_saving (GroupCommand.add group_id student_id tenant_id) group_id tenant_id s
                      group _ found
                      (added_as group_id student_id tenant_id s group student found there)
                      (added_shows group_id student_id tenant_id s group student found there)
              ]
      ]

  removed :
      (group_id student_id tenant_id : Uuid) (s : GroupStore)
      → Done (GroupCommand.remove group_id student_id tenant_id) s
  unfolding Done request remove_student find_group
  removed group_id student_id tenant_id s =
      elim (Option-cases (db.groups.find_one (group_in_tenant group_id tenant_id) s.groups)) [
        | inl missed ↦ inl (not_found "Group not found", ground arith)
        | inr (group, found) ↦
            let named : group.id ≡ group_id =
              (==_iff _ _).0 (and_left _ _ (db.groups.find_one_fits _ _ group found)) in
            by_saving (GroupCommand.remove group_id student_id tenant_id) group_id tenant_id s group
              _ found (removed_as group_id student_id tenant_id s group found)
              (λ g x. member_removed db group_id student_id group s named g x)
      ]

  done : (c : GroupCommand) (s : GroupStore) → Done c s
  done (GroupCommand.add group_id student_id tenant_id) s = added group_id student_id tenant_id s
  done (GroupCommand.remove group_id student_id tenant_id) s =
      removed group_id student_id tenant_id s

  -- After any sequence of requests to add students to groups and to remove them, the service shows
  -- the members that follow from those before by the requests that were granted, in their order:
  -- each makes one student a member, or not a member, of one group, and touches no other.
  pub requests-replay :
      (cs : List GroupCommand) (s : GroupStore) (g x : Uuid)
      → visible (requests cs s) g x ≡ replay (granted_of cs s) (visible s) g x
  unfolding requests granted_of Done
  requests-replay [] s g x = refl
  requests-replay (c ∷ cs) s g x = elim (done c s) [
    | inl (e, refused) ↦
        let same : (request c s).1 ≡ s = ap (λ p. p.1) refused in
        let none_ : kept_if (request c s).0 c (granted_of cs (request c s).1) ≡ granted_of cs s =
          ap (λ p. kept_if p.0 c (granted_of cs p.1)) refused in
        ap (λ t. visible (requests cs t) g x) same
        ∙ (requests-replay cs s g x ∙ ap (λ l. replay l (visible s) g x) (sym none_))
    | inr (r, fine, shows) ↦
        let kept : granted_of (c ∷ cs) s ≡ c ∷ granted_of cs (request c s).1 = rw fine refl in
        requests-replay cs (request c s).1 g x
        ∙ (replay-same (granted_of cs (request c s).1) (visible (request c s).1)
              (meant c (visible s)) shows g x
            ∙ ap (λ l. replay l (visible s) g x) (sym kept))
  ]
