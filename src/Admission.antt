-- ===== src/Admission.antt =====
-- pkg/admission: the review of clusterboms and of secrets before they are written.
pub mod Verdict
pub mod Helm
pub mod Kapp
pub mod Calls
pub mod Checks
pub mod Secrets
pub mod Laws
