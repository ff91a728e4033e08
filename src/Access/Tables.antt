-- ===== src/Access/Tables.antt =====
-- The two tables of permissions: the one that `PermissionsGuard` enforces, and the one of
-- common/utils/permissions.util.ts, which `/auth/me` reports to the client.
use edu_crm_backend.Base.{[], ◌∷◌, String, any, List, Bool}
use edu_crm_backend.Shared.Enums.{
  Permission, UserRole, super_admin, owner, admin, teacher, student, user_view, user_create,
  user_update, student_view, student_create, student_update, student_delete, teacher_view,
  teacher_create, teacher_update, course_view, course_create, course_update, course_publish,
  payment_view, payment_create, payment_update, analytics_view, analytics_export,
}
use edu_crm_backend.Access.Values.{same_permission, all_permissions}

-- `ROLE_PERMISSIONS` of permissions.guard.ts
unfoldable pub granted : UserRole → List Permission
granted super_admin = all_permissions
granted owner = all_permissions
granted admin =
    user_create ∷ user_view ∷ user_update ∷ student_create ∷ student_view ∷ student_update
    ∷ student_delete ∷ teacher_create ∷ teacher_view ∷ teacher_update ∷ course_create ∷ course_view
    ∷ course_update ∷ course_publish ∷ payment_create ∷ payment_view ∷ payment_update
    ∷ analytics_view ∷ analytics_export ∷ []
granted teacher = student_view ∷ course_view ∷ analytics_view ∷ []
granted student = course_view ∷ []

-- `userPermissions.includes(p)`
unfoldable pub grants : UserRole → Permission → Bool
grants role p = any (λ q. same_permission q p) (granted role)

-- `ROLE_PERMISSIONS` and `getPermissionsForRole` of permissions.util.ts
pub permissions_for_role : UserRole → List String
permissions_for_role super_admin = "*" ∷ []
permissions_for_role owner = "*" ∷ []
permissions_for_role admin =
    "student.view" ∷ "student.create" ∷ "student.update" ∷ "student.delete" ∷ "teacher.view"
    ∷ "teacher.create" ∷ "teacher.update" ∷ "teacher.delete" ∷ "course.view" ∷ "course.create"
    ∷ "course.update" ∷ "course.delete" ∷ "payment.view" ∷ "payment.create" ∷ "payment.manage"
    ∷ "attendance.view" ∷ "attendance.manage" ∷ "schedule.view" ∷ "schedule.manage" ∷ "report.view"
    ∷ "analytics.view" ∷ "notification.send" ∷ "group.view" ∷ "group.manage" ∷ []
permissions_for_role teacher =
    "student.view" ∷ "course.view" ∷ "group.view" ∷ "attendance.view" ∷ "attendance.manage"
    ∷ "homework.create" ∷ "homework.grade" ∷ "exam.create" ∷ "analytics.view" ∷ "schedule.view"
    ∷ "chat.use" ∷ "lesson.upload" ∷ []
permissions_for_role student =
    "course.view" ∷ "schedule.view" ∷ "homework.submit" ∷ "exam.participate" ∷ "grade.view"
    ∷ "certificate.view" ∷ "notification.view" ∷ "chat.use" ∷ "attendance.view" ∷ []
