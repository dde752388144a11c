-- ===== src/Intents.antt =====
-- api/src/authz/intents.ts: the intents by which permissions are granted, as the texts that the
-- program uses.
use tru_budget.Base.{String, List, [], ◌∷◌}

abbrev pub Intent : Type 0
Intent = String

abbrev pub global_intents : List Intent
global_intents =
    "global.listPermissions" ∷ "global.grantPermission" ∷ "global.grantAllPermissions"
    ∷ "global.revokePermission" ∷ "global.createProject" ∷ "global.createUser" ∷ "global.enableUser"
    ∷ "global.disableUser" ∷ "global.listAssignments" ∷ "global.createGroup"
    ∷ "network.registerNode" ∷ "network.list" ∷ "network.listActive" ∷ "network.voteForPermission"
    ∷ "network.approveNewOrganization" ∷ "network.approveNewNodeForExistingOrganization"
    ∷ "network.declineNode" ∷ "provisioning.start" ∷ "provisioning.end" ∷ "provisioning.get" ∷ []

abbrev pub user_intents : List Intent
user_intents =
    "user.list" ∷ "user.authenticate" ∷ "user.changePassword" ∷ "user.intent.listPermissions"
    ∷ "user.intent.grantPermission" ∷ "user.intent.revokePermission" ∷ []

abbrev pub group_intents : List Intent
group_intents = "group.addUser" ∷ "group.removeUser" ∷ []

abbrev pub project_intents : List Intent
project_intents =
    "project.intent.listPermissions" ∷ "project.intent.grantPermission"
    ∷ "project.intent.revokePermission" ∷ "project.list" ∷ "project.viewDetails"
    ∷ "project.viewHistory" ∷ "project.assign" ∷ "project.update" ∷ "project.close"
    ∷ "project.createSubproject" ∷ "project.budget.updateProjected"
    ∷ "project.budget.deleteProjected" ∷ []

abbrev pub subproject_intents : List Intent
subproject_intents =
    "subproject.intent.listPermissions" ∷ "subproject.intent.grantPermission"
    ∷ "subproject.intent.revokePermission" ∷ "subproject.list" ∷ "subproject.viewDetails"
    ∷ "subproject.viewHistory" ∷ "subproject.assign" ∷ "subproject.update" ∷ "subproject.close"
    ∷ "subproject.createWorkflowitem" ∷ "subproject.reorderWorkflowitems"
    ∷ "subproject.budget.updateProjected" ∷ "subproject.budget.deleteProjected" ∷ []

abbrev pub workflowitem_intents : List Intent
workflowitem_intents =
    "workflowitem.intent.listPermissions" ∷ "workflowitem.intent.grantPermission"
    ∷ "workflowitem.intent.revokePermission" ∷ "workflowitem.list" ∷ "workflowitem.viewHistory"
    ∷ "workflowitem.assign" ∷ "workflowitem.update" ∷ "workflowitem.close" ∷ []

abbrev pub all_intents : List Intent
all_intents =
    "global.listPermissions" ∷ "global.grantPermission" ∷ "global.grantAllPermissions"
    ∷ "global.revokePermission" ∷ "global.createProject" ∷ "global.createUser" ∷ "global.enableUser"
    ∷ "global.disableUser" ∷ "global.listAssignments" ∷ "global.createGroup" ∷ "user.authenticate"
    ∷ "user.changePassword" ∷ "user.intent.listPermissions" ∷ "user.intent.grantPermission"
    ∷ "user.intent.revokePermission" ∷ "user.list" ∷ "group.addUser" ∷ "group.removeUser"
    ∷ "project.intent.listPermissions" ∷ "project.intent.grantPermission"
    ∷ "project.intent.revokePermission" ∷ "project.list" ∷ "project.viewDetails"
    ∷ "project.viewHistory" ∷ "project.assign" ∷ "project.update" ∷ "project.close"
    ∷ "project.createSubproject" ∷ "project.budget.updateProjected"
    ∷ "project.budget.deleteProjected" ∷ "subproject.intent.listPermissions"
    ∷ "subproject.intent.grantPermission" ∷ "subproject.intent.revokePermission" ∷ "subproject.list"
    ∷ "subproject.viewDetails" ∷ "subproject.viewHistory" ∷ "subproject.assign"
    ∷ "subproject.update" ∷ "subproject.close" ∷ "subproject.createWorkflowitem"
    ∷ "subproject.reorderWorkflowitems" ∷ "subproject.budget.updateProjected"
    ∷ "subproject.budget.deleteProjected" ∷ "workflowitem.intent.listPermissions"
    ∷ "workflowitem.intent.grantPermission" ∷ "workflowitem.intent.revokePermission"
    ∷ "workflowitem.list" ∷ "workflowitem.viewHistory" ∷ "workflowitem.assign"
    ∷ "workflowitem.update" ∷ "workflowitem.close" ∷ "notification.create" ∷ "network.registerNode"
    ∷ "network.list" ∷ "network.listActive" ∷ "network.voteForPermission"
    ∷ "network.approveNewOrganization" ∷ "network.approveNewNodeForExistingOrganization"
    ∷ "provisioning.start" ∷ "provisioning.end" ∷ "provisioning.get" ∷ []
