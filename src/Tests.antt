-- ===== src/Tests.antt =====
-- The theorems at concrete inputs.
mod Sample
mod Tokens
mod Issued
mod Responses
mod ContentTypes
mod Discovering
mod Clients
mod Logouts
mod Keys
mod Texts
mod Objects
mod Registering
mod Writing
mod IdTokens
