-- ===== src/Shared/Enums.antt =====
-- src/shared/enums/index.ts: the enumerations, with the source's members in its order.

pub data UserRole : Type 0 where
  super_admin owner admin teacher student : UserRole

pub data UserStatus : Type 0 where
  active inactive suspended pending blocked : UserStatus

pub data Gender : Type 0 where
  male female other : Gender

pub data Language : Type 0 where
  uzbek russian english : Language

pub data NotificationChannel : Type 0 where
  email sms in_app push : NotificationChannel

pub data NotificationStatus : Type 0 where
  pending sent failed read : NotificationStatus

pub data PaymentStatus : Type 0 where
  pending paid failed refunded cancelled overdue : PaymentStatus

pub data PaymentMethod : Type 0 where
  cash card bank_transfer stripe paypal payme click : PaymentMethod

pub data CourseStatus : Type 0 where
  draft published archived : CourseStatus

pub data LessonType : Type 0 where
  video text quiz live assignment : LessonType

pub data AttendanceStatus : Type 0 where
  present absent late excused : AttendanceStatus

pub data HomeworkStatus : Type 0 where
  assigned submitted graded late missing : HomeworkStatus

pub data ExamType : Type 0 where
  quiz midterm final practice : ExamType

pub data QuestionType : Type 0 where
  multiple_choice true_false short_answer essay fill_blank : QuestionType

pub data DayOfWeek : Type 0 where
  monday tuesday wednesday thursday friday saturday sunday : DayOfWeek

pub data ChatMessageType : Type 0 where
  text file image system : ChatMessageType

pub data Permission : Type 0 where
  user_view user_create user_update user_delete : Permission
  student_view student_create student_update student_delete : Permission
  teacher_view teacher_create teacher_update teacher_delete : Permission
  course_view course_create course_update course_delete course_publish : Permission
  payment_view payment_create payment_update payment_refund payment_manage : Permission
  attendance_view attendance_manage : Permission
  schedule_view schedule_manage : Permission
  group_view group_manage : Permission
  homework_create homework_grade homework_submit homework_view : Permission
  exam_create exam_participate exam_view : Permission
  grade_view : Permission
  certificate_view certificate_issue certificate_revoke : Permission
  notification_view notification_send : Permission
  chat_use : Permission
  lesson_view lesson_create lesson_upload : Permission
  analytics_view analytics_export : Permission
  report_view : Permission
  config_read config_update : Permission
  audit_read : Permission
  role_create role_read role_update role_delete role_assign : Permission
