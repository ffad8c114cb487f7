-- ===== src/Bootstrap.antt =====
-- internal/providers/bootstrap: the join token, the join parameters and the cloud-init of a new node.
pub mod Token
pub mod ClusterInfo
pub mod Kubeadm
pub mod Contents
pub mod CloudInit
pub mod Provider
