-- ===== src/Github/Verifier.antt =====
-- internal/github/webhook_verifier.go, and the handler of the webhook behind it. crypto/hmac and
-- encoding/hex are parameters of the model.
use Prim.Native.String.{slice, len}
use text.Mathlib.Text.{starts_with}
use claude_ops.Prelude.{
  ℕ, String, ◌≡◌, ◌≢◌, inl, inr, Bool, true, false, not, Option, none, some, Result, ok, err, is_ok,
  wrap, webhook_disabled, missing_signature_header, invalid_signature, str_eq, eq_iff,
  if◌then◌else◌, arith, Bool-cases, Option-cases,
}
use claude_ops.Usecase.Tasks.{Env}
use claude_ops.Github.Webhook.{Request, Response, State, handle_webhook}

-- hex.DecodeString, where `none` is an error, and the HMAC-SHA256 of a body under a secret, as bytes.
pub record Crypto : Type 0 where
  pub decode_hex : String → Option String
  pub mac : String → String → String

module _ (crypto : Crypto) where
  open crypto use {decode_hex, mac}

  abbrev hex_part : String → String
  hex_part header = slice header (len "sha256=") (len header)

  compared : String → Option String → Result (Unit {0})
  compared wanted none = err (wrap "hex decode error" invalid_signature)
  compared wanted (some got) = if not (str_eq wanted got) then err invalid_signature else ok tt

  -- Verify
  unfoldable pub verify : String → String → String → Result (Unit {0})
  unfolding compared
  verify secret body header =
      if str_eq secret ""
      then err webhook_disabled
      else if str_eq header ""
      then err missing_signature_header
      else if not (starts_with header "sha256=")
      then err (wrap "expected sha256= prefix" invalid_signature)
      else compared (mac secret body) (decode_hex (hex_part header))

  -- The header names the digest of the body under a secret that is set.
  pub record IsSigned (secret body header : String) : Type 0 where
    pub secret_set : str_eq secret "" ≡ false
    pub prefixed : starts_with header "sha256=" ≡ true
    pub digest : decode_hex (slice header (len "sha256=") (len header)) ≡ some (mac secret body)

  verify-IsSigned :
      (secret body header : String)
      → is_ok (verify secret body header) ≡ true
      → IsSigned secret body header
  unfolding verify compared
  verify-IsSigned secret body header h = elim (Option-cases (decode_hex (hex_part header))) [
    | inl e ↦ absurd (ground arith)
    | inr (got, e) ↦ record {
      secret_set = ground arith;
      prefixed = ground arith;
      digest = ground (arith, eq_iff (mac secret body) got);
    }
  ]

  -- HandleWebhook with the verifier of a secret.
  unfoldable pub receive : String → String → ℕ → Env → Bool → Request → State → Response × State
  receive secret body ttl env exists_fails r =
      handle_webhook ttl env exists_fails
        (record r { verified = is_ok (verify secret body r.signature) })

  -- A request that changes the cache of deliveries, or the table, carries in its header the digest of its
  -- body under a secret that is not empty.
  pub receive-IsSigned :
      (secret body : String) (ttl : ℕ) (env : Env) (exists_fails : Bool) (r : Request) (s : State)
      → ((receive secret body ttl env exists_fails r s).1 ≢ s)
      → IsSigned secret body r.signature
  unfolding receive handle_webhook
  receive-IsSigned secret body ttl env exists_fails r s changed =
      elim (Bool-cases (is_ok (verify secret body r.signature))) [
        | inl e ↦ verify-IsSigned secret body r.signature e
        | inr e ↦ absurd (changed (ground arith))
      ]
