-- ===== src/Tests.antt =====
-- A small environment in which the handlers run, tests of the definitions, and one instance of each
-- theorem that has hypotheses.
mod Demo
mod AuthTests
mod AccessTests
mod OrganizationTests
mod ConvertTests
mod InvariantTests
mod ServerTests
mod TenantTests
mod RevokedTests
mod SessionTests
mod GatewayTests
mod HttpTests
mod LoginTests
mod StartupTests
