-- ===== src/Auth.antt =====
-- src/auth: who is calling. A principal is taken from an API key or from a user's JWT.
pub mod ApiKey
pub mod UserJwt
pub mod Combined
pub mod Configured
pub mod JwksCache
use ai_storybook_storage_ser.Base.{Text, codes, ◌++◌}

pub data Kind : Type 0 where
  service user : Kind

pub record Principal : Type 0 where
  pub kind : Kind
  pub name : Text

unfoldable pub uploader_tag : Principal → Text
uploader_tag p = elim p.kind [ service ↦ codes "svc:" ++ p.name | user ↦ codes "user:" ++ p.name ]

-- What FastAPI's `HTTPBearer(auto_error=False)` hands to a route.
pub record Credentials : Type 0 where
  pub scheme : Text
  pub credentials : Text
