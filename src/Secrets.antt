-- ===== src/Secrets.antt =====
-- pkg/k8s/secrets.go: the client of the function secrets, and the secrets of a function.
pub mod Client
pub mod Template
pub mod Tests
use faas_share.Common.{Map, String}

-- `apiv1.Secret`; bytes are the text that is made of them.
pub record KubeSecret : Type 0 where
  pub secret_type : String
  pub namespace : String
  pub name : String
  pub labels : Map String
  pub data_map : Map String
