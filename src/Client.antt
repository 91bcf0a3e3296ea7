-- ===== src/Client.antt =====
-- pkg/client: what the operator talks to. The Kubernetes API, the redis protocol and HTTP are
-- arguments of the model; the operator's own functions over them are in the modules below.
pub mod Pods
pub mod Objects
pub mod K8s
pub mod Controller
pub mod Kv
pub mod Env
pub mod Replies
pub mod Redis
