-- ===== src/Kube.antt =====
-- The Kubernetes objects that the controller writes, with the fields that it sets (the crates
-- k8s-openapi and gateway-api, and src/envoy_gateway.rs). All other fields are left at their default.
pub mod Meta
pub mod HttpRoute
pub mod Objects
pub mod Api
