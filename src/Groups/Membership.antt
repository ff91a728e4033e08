-- ===== src/Groups/Membership.antt =====
-- Who is in which group after `addStudent` and `removeStudent`.
use edu_crm_backend.Groups.Entities.{
  student_live, member, enrolled, Group, Student, GroupStore, GroupDb,
}
use edu_crm_backend.Groups.Service.{
  group_response, set_current, has_group_id, group_in_tenant, find_group, get_group, save_students,
  GroupResponseDto,
}
use edu_crm_backend.Base.Action.{ok}
use edu_crm_backend.Base.{
  ap, inr, length, ◌∙◌, ==_iff, inl, false, ℕ, Bool-cases, arith, refl, ◌||◌, ==_refl, [], some,
  ◌++◌, ◌∷◌, select, Memᴰ, true, any, ◌==◌, not, if◌then◌else◌, List, ◌&&◌, ◌≡◌, Bool,
}
use edu_crm_backend.Database.{Uuid}
use edu_crm_backend.Database.Lookup.{find_one-update_rows}

-- A student who is in the group and is not deleted: the members that the service shows.
abbrev pub visible : GroupStore → Uuid → Uuid → Bool
visible s group_id student_id =
    enrolled student_id s.students && member group_id student_id s.members

-- What adding and removing mean for the relation between groups and students.
abbrev pub with_member : Uuid → Uuid → (Uuid → Uuid → Bool) → Uuid → Uuid → Bool
with_member group_id student_id m g x = if g == group_id && x == student_id then true else m g x

abbrev pub without_member : Uuid → Uuid → (Uuid → Uuid → Bool) → Uuid → Uuid → Bool
without_member group_id student_id m g x = m g x && not (g == group_id && x == student_id)

any_append :
    (p : Student → Bool) (xs : List Student) (x : Student)
    → any p (xs ++ (x ∷ [])) ≡ (any p xs || p x)
any_append p [] x = ground arith
any_append p (y ∷ ys) x = let rest = any_append p ys x in ground arith

same_test : (a id y : ℕ) → (a == id) ≡ true → (a == y) ≡ (y == id)
same_test a id y h = ground arith

apart_test : (a id y : ℕ) → (a == id) ≡ false → ((a == y) && (y == id)) ≡ false
apart_test a id y h = ground arith

gone : (a b c : Bool) → a ≡ b → (c && not b) ≡ ((a || c) && not b)
gone a true c h = ground arith
gone a false c h = ground arith

stays : (a b c : Bool) → (a && b) ≡ false → (a || (c && not b)) ≡ ((a || c) && not b)
stays true true c h = cc
stays true false c h = ground arith
stays false b c h = refl

-- The new member counts, the others as before.
counted_in : (e m : Bool) → (e && ((e && m) || false)) ≡ (e && m)
counted_in true m = ground arith
counted_in false m = refl

counted_out : (e m b : Bool) → (e && ((e && m) && not b)) ≡ ((e && m) && not b)
counted_out true m b = refl
counted_out false m b = refl

or_true : (b : Bool) → (b || true) ≡ true
or_true true = refl
or_true false = refl

any_left :
    (id y : Uuid) (xs : List Student)
    → any (λ x. x.id == y) (select (λ x. not (x.id == id)) xs)
      ≡ (any (λ x. x.id == y) xs && not (y == id))
any_left id y [] = refl
any_left id y (x ∷ xs) =
    let rest = any_left id y xs in
    elim (Bool-cases (x.id == id)) [
      | inl hit ↦ rw hit (rest ∙ gone _ _ _ (same_test x.id id y hit))
      | inr miss ↦
          rw miss (ap (λ b. (x.id == y) || b) rest ∙ stays _ _ _ (apart_test x.id id y miss))
    ]

pub enrolled_found :
    (id : Uuid) (xs : List Student) (x : Student)
    → Memᴰ x xs
    → student_live x ≡ true
    → x.id ≡ id
    → enrolled id xs ≡ true
enrolled_found id [] x m alive same = elim m [ ]
enrolled_found id (y ∷ ys) x (Memᴰ.head e) alive same = rw (← e) (rw (alive, same, ==_refl id) refl)
enrolled_found id (y ∷ ys) x (Memᴰ.tail m) alive same =
    let rest = enrolled_found id ys x m alive same in ground arith

pub flip_test : (x y : ℕ) → (x == y) ≡ false → (y == x) ≡ false
flip_test x y h = ground arith

now_in :
    (g h x y : Uuid) (e m m' : Bool)
    → (x ≡ y → e ≡ true)
    → (g ≡ h → m ≡ m')
    → (e && (if g == h then ((e && m') || (y == x)) else m))
      ≡ (if g == h && x == y then true else (e && m))
now_in g h x y e m m' live same = elim (Bool-cases (g == h)) [
  | inl here ↦
      let eq : m ≡ m' = same ((==_iff g h).0 here) in
      elim (Bool-cases (x == y)) [
        | inl him ↦
            let him' : x ≡ y = (==_iff x y).0 him in
            rw (here, him, live him', him', ==_refl y) (or_true m')
        | inr other ↦ rw (here, other, eq, flip_test x y other) (counted_in e m')
      ]
  | inr away ↦ rw away refl
]

now_out :
    (g h x y : Uuid) (e m m' : Bool)
    → (g ≡ h → m ≡ m')
    → (e && (if g == h then ((e && m') && not (x == y)) else m))
      ≡ ((e && m) && not (g == h && x == y))
now_out g h x y e m m' same = elim (Bool-cases (g == h)) [
  | inl here ↦
      let eq : m ≡ m' = same ((==_iff g h).0 here) in rw (here, eq) (counted_out e m' (x == y))
  | inr away ↦ rw away (ground arith)
]

module _ (db : GroupDb) where
  -- The group is found after its students were saved.
  pub saved :
      (group_id tenant_id : Uuid) (group : Group) (students : List Student) (s : GroupStore)
      → db.groups.find_one (group_in_tenant group_id tenant_id) s.groups ≡ some group
      → (r : GroupResponseDto) × ((get_group db group_id tenant_id
            (save_students db group students s).1).0
          ≡ ok r)
  unfolding get_group find_group save_students
  saved group_id tenant_id group students s found =
      let (x, again) =
        find_one-update_rows db.groups (group_in_tenant group_id tenant_id) (has_group_id group.id)
          (set_current (length students)) s.groups group found (==_refl group.id)
          (db.groups.find_one_live _ _ group found) (db.groups.find_one_fits _ _ group found) in
      let rows =
        db.groups.update_lem (has_group_id group.id) (set_current (length students)) s.groups in
      (group_response db (save_students db group students s).1 x, ground (arith, rows, again))

  pub member_added :
      (group_id : Uuid) (group : Group) (student : Student) (s : GroupStore)
      → group.id ≡ group_id
      → enrolled student.id s.students ≡ true
      → (g x : Uuid)
      → visible
          (save_students db group
            (db.members.students_of s.students group.id s.members ++ (student ∷ []))
            s).1
          g
          x
        ≡ with_member group_id student.id (visible s) g x
  unfolding save_students
  member_added group_id group student s same live g x =
      let set =
        db.members.set_students_lem group.id
          (db.members.students_of s.students group.id s.members ++ (student ∷ [])) s.members g x in
      let all_ =
        any_append (λ y. y.id == x) (db.members.students_of s.students group.id s.members)
          student in
      let old = db.members.students_of_lem s.students group.id s.members x in
      rw (set, all_, old, same)
        (now_in g group_id x student.id (enrolled x s.students) (member g x s.members)
          (member group_id x s.members) (λ e. ap (λ i. enrolled i s.students) e ∙ live)
          (λ e. ap (λ i. member i x s.members) e))

  pub member_removed :
      (group_id student_id : Uuid) (group : Group) (s : GroupStore)
      → group.id ≡ group_id
      → (g x : Uuid)
      → visible
          (save_students db group
            (select
              (λ y. not (y.id == student_id))
              (db.members.students_of s.students group.id s.members))
            s).1
          g
          x
        ≡ without_member group_id student_id (visible s) g x
  unfolding save_students
  member_removed group_id student_id group s same g x =
      let set =
        db.members.set_students_lem group.id
          (select (λ y. not (y.id == student_id))
            (db.members.students_of s.students group.id s.members))
          s.members g x in
      let all_ = any_left student_id x (db.members.students_of s.students group.id s.members) in
      let old = db.members.students_of_lem s.students group.id s.members x in
      rw (set, all_, old, same)
        (now_out g group_id x student_id (enrolled x s.students) (member g x s.members)
          (member group_id x s.members) (λ e. ap (λ i. member i x s.members) e))
