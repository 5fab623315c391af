-- ===== src/Controller.antt =====
-- internal/controller/pod_controller.go: the reconciler of pods. The state is the World; each call
-- of the API server, of the LLM and of the metrics is noted in its trace.
pub mod Rate
pub mod Patch
pub mod Changes
pub mod Reconcile
pub mod Lifecycle
