-- ===== src/Groups/InMemory.antt =====
-- A join table over plain lists, which shows that the laws of `JoinTable` can be met.
use edu_crm_backend.Groups.Entities.{enrolled, student_live, member, Membership, Student, JoinTable}
use edu_crm_backend.Base.{
  and_right, sym, ap, and_left, ℕ, true, Bool, ◌∙◌, inr, ==_iff, refl, inl, Bool-cases, [], ◌∷◌,
  false, arith, ◌&&◌, if◌then◌else◌, ◌||◌, not, ◌≡◌, map, ◌==◌, select, ◌++◌, any, List,
}
use edu_crm_backend.Database.{Uuid}
use edu_crm_backend.Groups.Membership.{flip_test}

hide : (l e m : Bool) → (l && m) ≡ false → (e && m) ≡ (((l && true) || e) && m)
hide true e true h = cc
hide true true false h = refl
hide true false false h = refl
hide false e m h = refl

pub shown_member :
    (rows : List Membership) (g id : Uuid) (students : List Student)
    → any (λ x. x.id == id) (select (λ x. student_live x && member g x.id rows) students)
      ≡ (enrolled id students && member g id rows)
shown_member rows g id [] = refl
shown_member rows g id (x ∷ xs) =
    let rest = shown_member rows g id xs in
    elim (Bool-cases (x.id == id)) [
      | inl hit ↦
          let same : x.id ≡ id = (==_iff _ _).0 hit in
          elim (Bool-cases (student_live x && member g x.id rows)) [
            | inl shown ↦
                let alive : student_live x ≡ true = and_left _ _ shown in
                let is_in : member g id rows ≡ true =
                  ap (λ i. member g i rows) (sym same) ∙ and_right (student_live x) _ shown in
                rw (shown, hit, alive, is_in) refl
            | inr hidden ↦
                rw (hidden, hit)
                  (rest
                    ∙ hide (student_live x) _ _
                        (ap (λ i. student_live x && member g i rows) (sym same) ∙ hidden))
          ]
      | inr miss ↦ elim (Bool-cases (student_live x && member g x.id rows)) [
        | inl shown ↦ rw (shown, miss) (rest ∙ ground arith)
        | inr hidden ↦ rw (hidden, miss) (rest ∙ ground arith)
      ]
    ]

abbrev pub membership : Uuid → Student → Membership
membership g x = record { group_id = g; student_id = x.id }

member_append :
    (g id : Uuid) (xs ys : List Membership)
    → member g id (xs ++ ys) ≡ (member g id xs || member g id ys)
member_append g id [] ys = refl
member_append g id (x ∷ xs) ys = let rest = member_append g id xs ys in ground arith

member_own :
    (group_id g id : Uuid) (students : List Student)
    → member g id (map (membership group_id) students)
      ≡ (group_id == g && any (λ x. x.id == id) students)
member_own group_id g id [] = ground arith
member_own group_id g id (x ∷ xs) = let rest = member_own group_id g id xs in ground arith

member_rest :
    (group_id g id : Uuid) (rows : List Membership)
    → member g id (select (λ m. not (m.group_id == group_id)) rows)
      ≡ (if g == group_id then false else member g id rows)
member_rest group_id g id [] = ground arith
member_rest group_id g id (m ∷ ms) = let rest = member_rest group_id g id ms in ground arith

flip_true : (g h : ℕ) → (g == h) ≡ true → (h == g) ≡ true
flip_true g h e = ground arith

or_false : (b : Bool) → (b || false) ≡ b
or_false true = refl
or_false false = refl

pub set_members :
    (group_id : Uuid) (students : List Student) (rows : List Membership) (g id : Uuid)
    → member g id
        (map (membership group_id) students ++ select (λ m. not (m.group_id == group_id)) rows)
      ≡ (if g == group_id then any (λ x. x.id == id) students else member g id rows)
set_members group_id students rows g id =
    let all_ =
      member_append g id (map (membership group_id) students)
        (select (λ m. not (m.group_id == group_id)) rows) in
    let own = member_own group_id g id students in
    let rest = member_rest group_id g id rows in
    elim (Bool-cases (g == group_id)) [
      | inl here ↦ all_ ∙ rw (own, rest, here, flip_true g group_id here) (or_false _)
      | inr away ↦ all_ ∙ rw (own, rest, away, flip_test g group_id away) refl
    ]

abbrev pub in_memory_members : JoinTable
in_memory_members = record {
  students_of = λ students g rows. select (λ x. student_live x && member g x.id rows) students;
  students_of_lem = λ students g rows id. shown_member rows g id students;
  set_students =
      λ g students rows. map (membership g) students ++ select (λ m. not (m.group_id == g)) rows;
  set_students_lem = set_members;
}
