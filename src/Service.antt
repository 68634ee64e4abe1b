-- ===== src/Service.antt =====
-- The client's services (yeditor_client/src/app/website/shared/services).
pub mod Jwt
pub mod Endpoint
pub mod Client
pub mod Message
pub mod Params
pub mod Local
pub mod Graphql
pub mod Api
