-- ===== src/Access/Permissions.antt =====
-- The permission keys of src/modules/auth/permissions.ts.
use sinkronis_backend.Common.{List, [], ◌∷◌}
use sinkronis_backend.Common.Text.{Text, codes}

unfoldable pub permissions : List Text
permissions =
    codes "platform:dashboard:view"
    ∷ codes "platform:financial-operations:view"
    ∷ codes "platform:financial-operations:manage"
    ∷ codes "platform:tenants:view"
    ∷ codes "platform:tenants:suspend"
    ∷ codes "platform:tenants:create"
    ∷ codes "platform:tenants:users:manage"
    ∷ codes "platform:tenants:modules:manage"
    ∷ codes "platform:tenants:billing:manage"
    ∷ codes "platform:tenants:impersonate"
    ∷ codes "platform:pricing:view"
    ∷ codes "platform:pricing:manage"
    ∷ codes "platform:users:read"
    ∷ codes "platform:users:deactivate"
    ∷ codes "platform:users:reset-password"
    ∷ codes "platform:users:impersonate"
    ∷ codes "platform:modules:read"
    ∷ codes "platform:modules:manage"
    ∷ codes "platform:analytics:read"
    ∷ codes "platform:analytics:check-in"
    ∷ codes "platform:support:read"
    ∷ codes "platform:support:manage"
    ∷ codes "platform:settings:read"
    ∷ codes "platform:settings:manage"
    ∷ codes "admin:organization:view"
    ∷ codes "admin:organization:create"
    ∷ codes "admin:organization:update"
    ∷ codes "admin:organization:delete"
    ∷ codes "admin:departments:view"
    ∷ codes "admin:departments:create"
    ∷ codes "admin:departments:update"
    ∷ codes "admin:departments:delete"
    ∷ codes "admin:teams:view"
    ∷ codes "admin:teams:create"
    ∷ codes "admin:teams:update"
    ∷ codes "admin:teams:delete"
    ∷ codes "admin:roles:view"
    ∷ codes "admin:roles:create"
    ∷ codes "admin:roles:update"
    ∷ codes "admin:roles:delete"
    ∷ codes "admin:roles:clone"
    ∷ codes "admin:security:view"
    ∷ codes "admin:security:update"
    ∷ codes "admin:security:sessions:revoke"
    ∷ codes "admin:security:ip-allowlist:update"
    ∷ codes "admin:security:activity:view"
    ∷ codes "admin:staff:view"
    ∷ codes "admin:staff:create"
    ∷ codes "admin:staff:update"
    ∷ codes "admin:staff:delete"
    ∷ codes "admin:system-config:view"
    ∷ codes "admin:system-config:create"
    ∷ codes "admin:system-config:update"
    ∷ codes "admin:system-config:delete"
    ∷ codes "admin:notifications:view"
    ∷ codes "admin:notifications:update"
    ∷ codes "admin:announcements:view"
    ∷ codes "admin:settings:view"
    ∷ codes "admin:settings:update"
    ∷ codes "admin:settings:export"
    ∷ codes "admin:settings:delete-request"
    ∷ codes "hris:employees:view"
    ∷ codes "hris:employees:create"
    ∷ codes "hris:employees:update"
    ∷ codes "hris:employees:delete"
    ∷ codes "hris:attendance:view"
    ∷ codes "hris:attendance:create"
    ∷ codes "hris:attendance:update"
    ∷ codes "hris:attendance:delete"
    ∷ codes "hris:leave:view"
    ∷ codes "hris:leave:create"
    ∷ codes "hris:leave:update"
    ∷ codes "hris:leave:approve"
    ∷ codes "hris:appraisals:view"
    ∷ codes "hris:appraisals:create"
    ∷ codes "hris:appraisals:update"
    ∷ codes "hris:appraisals:delete"
    ∷ codes "hris:conduct:view"
    ∷ codes "hris:conduct:create"
    ∷ codes "hris:conduct:update"
    ∷ codes "hris:conduct:delete"
    ∷ codes "accounting:clients:view"
    ∷ codes "accounting:clients:create"
    ∷ codes "accounting:clients:update"
    ∷ codes "accounting:clients:delete"
    ∷ codes "accounting:items:view"
    ∷ codes "accounting:items:create"
    ∷ codes "accounting:items:update"
    ∷ codes "accounting:items:delete"
    ∷ codes "accounting:projects:view"
    ∷ codes "accounting:projects:create"
    ∷ codes "accounting:projects:update"
    ∷ codes "accounting:projects:delete"
    ∷ codes "accounting:expenses:view"
    ∷ codes "accounting:expenses:create"
    ∷ codes "accounting:expenses:update"
    ∷ codes "accounting:expenses:delete"
    ∷ codes "accounting:reminders:view"
    ∷ codes "accounting:reminders:update"
    ∷ codes "accounting:exports:view"
    ∷ codes "accounting:invoices:view"
    ∷ codes "accounting:invoices:create"
    ∷ codes "accounting:invoices:update"
    ∷ codes "accounting:invoices:delete"
    ∷ codes "accounting:payments:view"
    ∷ codes "accounting:payments:create"
    ∷ codes "accounting:payments:update"
    ∷ codes "accounting:payments:approve"
    ∷ codes "accounting:tax:view"
    ∷ codes "accounting:tax:create"
    ∷ codes "accounting:tax:update"
    ∷ codes "accounting:tax:delete"
    ∷ codes "accounting:wallets:view"
    ∷ codes "accounting:wallets:create"
    ∷ codes "accounting:wallets:update"
    ∷ codes "accounting:wallets:delete"
    ∷ codes "accounting:agents:view"
    ∷ codes "accounting:agents:create"
    ∷ codes "accounting:agents:update"
    ∷ codes "accounting:agents:delete"
    ∷ codes "payroll:runs:view"
    ∷ codes "payroll:runs:create"
    ∷ codes "payroll:runs:update"
    ∷ codes "payroll:runs:approve"
    ∷ codes "payroll:salary:view"
    ∷ codes "payroll:salary:create"
    ∷ codes "payroll:salary:update"
    ∷ codes "payroll:salary:delete"
    ∷ codes "payroll:statutory:view"
    ∷ codes "payroll:statutory:create"
    ∷ codes "payroll:statutory:update"
    ∷ codes "payroll:statutory:delete"
    ∷ codes "payroll:payslips:view"
    ∷ codes "payroll:payslips:create"
    ∷ codes "payroll:payslips:update"
    ∷ codes "payroll:payslips:delete"
    ∷ codes "payroll:loans:view"
    ∷ codes "payroll:loans:create"
    ∷ codes "payroll:loans:update"
    ∷ codes "payroll:loans:approve"
    ∷ []
