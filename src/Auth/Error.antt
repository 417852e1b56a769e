-- ===== src/Auth/Error.antt =====
-- crates/auth/src/error.rs, without the text of the details.
pub data AuthError : Type 0 where
  unknown_provider discovery unknown_flow state_mismatch token_exchange id_token : AuthError
  apple_secret config : AuthError
