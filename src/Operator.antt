-- ===== src/Operator.antt =====
-- pkg/controller: the operator, which turns a SharePod into a deployment and a service; with
-- pkg/k8s/securityContext.go and utils.go. encoding/json and cmp.Diff on pod specs stand in
-- `Json`; the listers and the calls of the API server, and their errors, stand in `Api`.
pub mod Deployment
pub mod Queue
pub mod Sync
mod Tests
