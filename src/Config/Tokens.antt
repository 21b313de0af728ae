-- ===== src/Config/Tokens.antt =====
-- The agent's bearer token, statix/src/output.rs, at the gateway, statix-gateway/src/config.rs and
-- statix-gateway/src/routes/ingest.rs.
use statix.Prelude.{
  ℕ, ◌≡◌, ◌≢◌, refl, ap, sym, ◌∙◌, Bool, true, false, Option, none, some, ◌++◌, Bool-cases, inl,
  inr,
}
use statix.Prelude.Text.{Text, codes, bytes_eq, bytes_eq_refl, bytes_eq_iff}
use statix.Gateway.Ingest.{AppState, unauthorized, is_authorized, handler, ingest_inner}
use statix.Gateway.Writer.{IngestBatch}
use statix.Config.{
  Env, var, nonempty, bearer, Config, with_port, config_from_env, init_http_client, env_api_port,
}

-- The token that an environment sets.
abbrev pub token_of : Env → Option Text
token_of env = nonempty (var env (codes "STATIX_API_TOKEN"))

abbrev bearer_in : Option Config → Option Text
bearer_in none = none
bearer_in (some cfg) = cfg.expected_bearer

with_port-bearer :
    (env : Env) (port : Option ℕ) (cfg : Config)
    → with_port env port ≡ some cfg
    → cfg.expected_bearer ≡ bearer (token_of env)
unfolding with_port
with_port-bearer env none cfg h = absurd cc
with_port-bearer env (some port) cfg h = sym (ap bearer_in h)

refused_header :
    (t : Text) (header : Option Text)
    → header ≢ some (codes "Bearer " ++ t)
    → is_authorized (some (codes "Bearer " ++ t)) header ≡ false
refused_header t none h = refl
refused_header t (some v) h = elim (Bool-cases (bytes_eq v (codes "Bearer " ++ t))) [
  | inl e ↦ absurd (h (ap (λ s. some s) ((bytes_eq_iff v (codes "Bearer " ++ t)).0 e)))
  | inr e ↦ e
]

-- An agent and a gateway that are given the same environment agree on the token: when the
-- environment sets one, the gateway starts with it and keeps the bearer text of its configuration,
-- and the text can be a header, then the gateway takes the agent's request to the ingestion
-- proper, and refuses a request with any other header, or none, and changes nothing.
pub handler_same_token :
    (is_header : Text → Bool) (env : Env) (cfg : Config) (t : Text) (header : Option Text)
    (batch : IngestBatch) (s : AppState)
    → config_from_env env ≡ some cfg
    → s.expected_bearer ≡ cfg.expected_bearer
    → token_of env ≡ some t
    → is_header (codes "Bearer " ++ t) ≡ true
    → header ≢ some (codes "Bearer " ++ t)
    → (handler (init_http_client is_header env) batch s ≡ ingest_inner batch s)
      × (handler header batch s ≡ (unauthorized, s))
unfolding handler init_http_client config_from_env
handler_same_token is_header env cfg t header batch s loaded same set valid other =
    let e : s.expected_bearer ≡ bearer (token_of env) =
      same ∙ with_port-bearer env (env_api_port env) cfg loaded in
    (
      rw (e, set, valid, bytes_eq_refl (codes "Bearer " ++ t)),
      rw (e, set, refused_header t header other),
    )
