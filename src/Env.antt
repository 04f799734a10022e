-- ===== src/Env.antt =====
-- What the program takes from outside: the SHA-256 function (crypto/sha256), the RFC 3339 check of
-- `time.Parse(time.RFC3339Nano, s)`, and `strings.TrimSpace`. They are parameters of every
-- definition that reaches them.
use reliable_messaging.Base.{Bool, ◌≡◌}
use reliable_messaging.Base.Bytes.{Bytes}
use reliable_messaging.Base.{length}

pub record Env : Type 0 where
  pub sha256 : Bytes → Bytes
  pub rfc3339 : Bytes → Bool
  pub trim_space : Bytes → Bytes

-- A digest is an array of 32 bytes.
abbrev pub Sized : Env → Type 0
Sized env = (bs : Bytes) → length (env.sha256 bs) ≡ 32
