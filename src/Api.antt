-- ===== src/Api.antt =====
-- The custom resources: the legacy API in its versions v1, v2 and v3 (site-manager/api/legacy) and
-- the API of qubership.org (site-manager/api/v3). `Conversion` has the laws of the conversions.
pub mod Meta
pub mod V1
pub mod V2
pub mod V3
pub mod Qubership
pub mod Conversion
