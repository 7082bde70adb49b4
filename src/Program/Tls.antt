-- ===== src/Program/Tls.antt =====
-- TLSConfig of internal/api/middleware.go: the configuration that it gives.
use mathlib.Core.Sum.{inr-injective}
use valve_controller.Common.{
  ◌≡◌, refl, ap, sym, inl, inr, List, [], ◌∷◌, ◌≢◌, ◌↔◌, some, arith, Option-cases,
}
use valve_controller.Common.Text.{Text}
use valve_controller.Program.{
  Flags, Outside, TlsConfig, require_and_verify_client_cert, tls13, tls_config, with_pool,
}

-- The files give a key pair and a certificate of a CA, and the configuration requires TLS 1.3 and a
-- certificate of the client that one of these CAs signed.
pub record IsMutual (f : Flags) (o : Outside) (cfg : TlsConfig) : Type 0 where
  pub cert : Text
  pub loaded : o.load_key_pair f.tls_cert f.tls_key ≡ some cert
  pub pem : Text
  pub read : o.read_file f.tls_client_ca ≡ some pem
  pub trusted : o.certificates pem ≢ []
  pub config : cfg ≡ record {
    certificates = cert ∷ [];
    client_auth = require_and_verify_client_cert;
    client_cas = o.certificates pem;
    min_version = tls13;
  }

with_pool-inr :
    (cert : Text) (cs : List Text) (cfg : TlsConfig)
    → (with_pool cert cs ≡ inr cfg) ↔ (
        (cs ≢ [])
        × (cfg ≡ record {
          certificates = cert ∷ [];
          client_auth = require_and_verify_client_cert;
          client_cas = cs;
          min_version = tls13;
        }))
with_pool-inr cert [] cfg = ((λ h. cc), (λ (n, e). absurd (n refl)))
with_pool-inr cert (c ∷ cs) cfg =
    ((λ h. ((λ e. cc), sym (inr-injective _ _ h))), (λ (n, e). ap inr (sym e)))

pub tls_config-IsMutual :
    (f : Flags) (o : Outside) (cfg : TlsConfig)
    → tls_config f.tls_cert f.tls_key f.tls_client_ca o ≡ inr cfg
    → IsMutual f o cfg
unfolding tls_config
tls_config-IsMutual f o cfg h = elim (Option-cases (o.load_key_pair f.tls_cert f.tls_key)) [
  | inl n ↦ ground (arith, n)
  | inr (cert, c) ↦ elim (Option-cases (o.read_file f.tls_client_ca)) [
    | inl n ↦ ground (arith, n, c)
    | inr (pem, r) ↦
        let (trusted, e) =
          (with_pool-inr cert (o.certificates pem) cfg).0 (rw (tls_config, c, r) at h) in
        record { cert = cert; loaded = c; pem = pem; read = r; trusted = trusted; config = e }
  ]
]

pub IsMutual-tls_config :
    (f : Flags) (o : Outside) (cfg : TlsConfig)
    → IsMutual f o cfg
    → tls_config f.tls_cert f.tls_key f.tls_client_ca o ≡ inr cfg
unfolding tls_config
IsMutual-tls_config f o cfg m =
    rw (tls_config, m.loaded, m.read)
      ((with_pool-inr m.cert (o.certificates m.pem) cfg).1 (m.trusted, m.config))
