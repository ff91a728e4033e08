-- ===== src/Access/Values.antt =====
-- The texts behind the members of `Permission` (shared/enums/index.ts). `===` on members compares
-- these.
use edu_crm_backend.Base.{[], ◌∷◌, String, str_eq, List, Bool}
use edu_crm_backend.Shared.Enums.{
  Permission, user_view, user_create, user_update, user_delete, student_view, student_create,
  student_update, student_delete, teacher_view, teacher_create, teacher_update, teacher_delete,
  course_view, course_create, course_update, course_delete, course_publish, payment_view,
  payment_create, payment_update, payment_refund, payment_manage, attendance_view,
  attendance_manage, schedule_view, schedule_manage, group_view, group_manage, homework_create,
  homework_grade, homework_submit, homework_view, exam_create, exam_participate, exam_view,
  grade_view, certificate_view, certificate_issue, certificate_revoke, notification_view,
  notification_send, chat_use, lesson_view, lesson_create, lesson_upload, analytics_view,
  analytics_export, report_view, config_read, config_update, audit_read, role_create, role_read,
  role_update, role_delete, role_assign,
}

unfoldable pub value : Permission → String
value user_view = "user.view"
value user_create = "user.create"
value user_update = "user.update"
value user_delete = "user.delete"
value student_view = "student.view"
value student_create = "student.create"
value student_update = "student.update"
value student_delete = "student.delete"
value teacher_view = "teacher.view"
value teacher_create = "teacher.create"
value teacher_update = "teacher.update"
value teacher_delete = "teacher.delete"
value course_view = "course.view"
value course_create = "course.create"
value course_update = "course.update"
value course_delete = "course.delete"
value course_publish = "course.publish"
value payment_view = "payment.view"
value payment_create = "payment.create"
value payment_update = "payment.update"
value payment_refund = "payment.refund"
value payment_manage = "payment.manage"
value attendance_view = "attendance.view"
value attendance_manage = "attendance.manage"
value schedule_view = "schedule.view"
value schedule_manage = "schedule.manage"
value group_view = "group.view"
value group_manage = "group.manage"
value homework_create = "homework.create"
value homework_grade = "homework.grade"
value homework_submit = "homework.submit"
value homework_view = "homework.view"
value exam_create = "exam.create"
value exam_participate = "exam.participate"
value exam_view = "exam.view"
value grade_view = "grade.view"
value certificate_view = "certificate.view"
value certificate_issue = "certificate.issue"
value certificate_revoke = "certificate.revoke"
value notification_view = "notification.view"
value notification_send = "notification.send"
value chat_use = "chat.use"
value lesson_view = "lesson.view"
value lesson_create = "lesson.create"
value lesson_upload = "lesson.upload"
value analytics_view = "analytics.view"
value analytics_export = "analytics.export"
value report_view = "report.view"
value config_read = "config.read"
value config_update = "config.update"
value audit_read = "audit.read"
value role_create = "role.create"
value role_read = "role.read"
value role_update = "role.update"
value role_delete = "role.delete"
value role_assign = "role.assign"

-- `p === q`
abbrev pub same_permission : Permission → Permission → Bool
same_permission p q = str_eq (value p) (value q)

-- `Object.values(Permission)`
unfoldable pub all_permissions : List Permission
all_permissions =
    user_view ∷ user_create ∷ user_update ∷ user_delete ∷ student_view ∷ student_create
    ∷ student_update ∷ student_delete ∷ teacher_view ∷ teacher_create ∷ teacher_update
    ∷ teacher_delete ∷ course_view ∷ course_create ∷ course_update ∷ course_delete ∷ course_publish
    ∷ payment_view ∷ payment_create ∷ payment_update ∷ payment_refund ∷ payment_manage
    ∷ attendance_view ∷ attendance_manage ∷ schedule_view ∷ schedule_manage ∷ group_view
    ∷ group_manage ∷ homework_create ∷ homework_grade ∷ homework_submit ∷ homework_view
    ∷ exam_create ∷ exam_participate ∷ exam_view ∷ grade_view ∷ certificate_view ∷ certificate_issue
    ∷ certificate_revoke ∷ notification_view ∷ notification_send ∷ chat_use ∷ lesson_view
    ∷ lesson_create ∷ lesson_upload ∷ analytics_view ∷ analytics_export ∷ report_view ∷ config_read
    ∷ config_update ∷ audit_read ∷ role_create ∷ role_read ∷ role_update ∷ role_delete ∷ role_assign
    ∷ []
