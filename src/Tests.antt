-- ===== src/Tests.antt =====
-- Runs of the definitions on concrete inputs, and the theorems at such inputs.
mod Fixtures
mod ManagerRuns
mod ResourceRuns
mod AdmissionRuns
mod HttpRuns
mod AppRuns
mod GeoRuns
mod StartRuns
mod GeoStart
mod ThreadRuns
mod StoreRuns
mod LegacyRuns
mod SchemeRuns
