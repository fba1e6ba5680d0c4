-- ===== src/Http.antt =====
-- net/http as far as the handlers read it.
use signet_min_bundler.Prelude.{ℕ, Bytes, Text}
use signet_min_bundler.Go.{Answer}

-- A request: what is read of it, and what reading its body answers.
pub record HttpRequest : Type 0 where
  pub method : Text
  pub path : Text
  pub api_key : Text
  pub body : Answer Bytes

-- A response: its status, and the content that is encoded as JSON.
pub record HttpResponse {ℓ} (A : Type ℓ) : Type ℓ where
  pub status : ℕ
  pub content : A
