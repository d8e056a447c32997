-- ===== src/Installations/Secrets.antt =====
-- libs/control-plane/installations/src/infrastructure/security/
-- crypto-installation-secret-generator.adapter.ts, over the SHA-256 and the hex decoder of Node.
use pos_cloud.Common.{Bool, true, false, not, length, ◌==◌, if◌then◌else◌, ◌≡◌, arith}
use pos_cloud.Common.Text.{Text, ◌===◌, ===_refl}
use pos_cloud.Kernel.{Env}

module _ (env : Env) where
  -- `timingSafeEqual` compares bytes.
  unfoldable pub secret_matches_hash : Text → Text → Bool
  secret_matches_hash secret hash =
      let candidate = env.hex_bytes (env.sha256_hex secret) in
      let expected = env.hex_bytes hash in
      if not (length candidate == length expected) then false else candidate === expected

  -- A secret matches the hash that was made of it.
  pub secret_matches_hash_self : (s : Text) → secret_matches_hash s (env.sha256_hex s) ≡ true
  unfolding secret_matches_hash
  secret_matches_hash_self s = ground (arith, ===_refl (env.hex_bytes (env.sha256_hex s)))
