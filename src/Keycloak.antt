-- ===== src/Keycloak.antt =====
-- internal/keycloak: the authorizer that asks Keycloak, its client, its caches and its token source.
pub mod Cache
pub mod Http
pub mod Token
pub mod Client
pub mod Questions
pub mod Authorizer
