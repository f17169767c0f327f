-- ===== src/Publisher/Tls/Options.antt =====
-- No option of the transport's security is dropped.
use sparkwrangler.Base.{
  true, false, Option, none, some, List, [], ◌∷◌, ◌≡◌, ◌↔◌, inl, inr, refl, sym, arith, Bytes,
  Result, ok, err, ok_injective, Bool-cases,
}
use sparkwrangler.Publisher.Tls.{
  Trust, TlsOptions, TlsConfig, TlsError, no_options, version_tls12, scheme_is_tls, is_empty,
  is_zero, pool_of, roots, pair_of, client_pair, with_pair, with_roots, build_tls_config,
}

-- What the files of a certificate authority, or of a pair, are to a configuration.
abbrev pub RootsOf : Trust → Bytes → Option Bytes → Type 0
RootsOf t [] pool = pool ≡ none
RootsOf t (c ∷ file) pool =
    (pem : Bytes) × (t.read_file (c ∷ file) ≡ some pem)
    × (t.holds_certificates pem ≡ true)
    × (pool ≡ some pem)

abbrev pub PairOf : Trust → Bytes → Bytes → List Bytes → Type 0
PairOf t [] [] certificates = certificates ≡ []
PairOf t [] (k ∷ key) certificates = ⊥
PairOf t (c ∷ cert) [] certificates = ⊥
PairOf t (c ∷ cert) (k ∷ key) certificates =
    (pair : Bytes) × (t.load_pair (c ∷ cert) (k ∷ key) ≡ some pair) × (certificates ≡ pair ∷ [])

-- A configuration that carries every option.
pub record Carries (t : Trust) (o : TlsOptions) (c : TlsConfig) : Type 0 where
  pub version : c.min_version ≡ version_tls12
  pub verification : c.insecure_skip_verify ≡ o.insecure
  pub name : c.server_name ≡ o.server_name
  pub authority : RootsOf t o.ca_file c.root_cas
  pub identity : PairOf t o.cert_file o.key_file c.certificates

roots_ok :
    (t : Trust) (file : Bytes) {pool : Option Bytes} → roots t file ≡ ok pool → RootsOf t file pool
unfolding roots pool_of
roots_ok t [] h = sym (ok_injective h)
roots_ok t (c ∷ file) h = ground arith

client_pair_ok :
    (t : Trust) (cert key : Bytes) {certificates : List Bytes}
    → client_pair t cert key ≡ ok certificates
    → PairOf t cert key certificates
unfolding client_pair pair_of
client_pair_ok t [] [] h = sym (ok_injective h)
client_pair_ok t [] (k ∷ key) h = cc
client_pair_ok t (c ∷ cert) [] h = cc
client_pair_ok t (c ∷ cert) (k ∷ key) h = ground arith

is_empty-true : (s : Bytes) → is_empty s ≡ true → s ≡ []
unfolding is_empty
is_empty-true [] h = refl
is_empty-true (c ∷ s) h = cc

is_zero-no_options : (o : TlsOptions) → is_zero o ≡ true → o ≡ no_options
unfolding is_zero
is_zero-no_options o h = ground (
  arith,
  is_empty-true o.ca_file,
  is_empty-true o.cert_file,
  is_empty-true o.key_file,
  is_empty-true o.server_name,
)

-- A broker that is reached in plaintext is accepted exactly if no option is set, and then there is no
-- configuration: no option is ignored.
pub build_tls_config-plaintext :
    (t : Trust) (broker_url : Bytes) (o : TlsOptions)
    → scheme_is_tls t broker_url ≡ false
    → (build_tls_config t broker_url o ≡ ok none) ↔ (o ≡ no_options)
unfolding build_tls_config
build_tls_config-plaintext t broker_url o plain = (
  (λ h. elim (Bool-cases (is_zero o)) [
    | inl zero ↦ is_zero-no_options o zero
    | inr set ↦ cc (rw (plain, set) at h)
  ]),
  (λ e. rw (plain, e) (unfold is_zero is_empty in refl)),
)

with_pair_ok :
    (t : Trust) (o : TlsOptions) (pool : Option Bytes) (r : Result TlsError (List Bytes))
    {c : Option TlsConfig}
    → client_pair t o.cert_file o.key_file ≡ r
    → RootsOf t o.ca_file pool
    → with_pair o pool r ≡ ok c
    → (d : TlsConfig) × (c ≡ some d) × Carries t o d
unfolding with_pair
with_pair_ok t o pool (err e) p k h = cc
with_pair_ok t o pool (ok certificates) p k h = (
  _,
  sym (ok_injective h),
  record {
    version = refl;
    verification = refl;
    name = refl;
    authority = k;
    identity = client_pair_ok t o.cert_file o.key_file p;
  },
)

with_roots_ok :
    (t : Trust) (o : TlsOptions) (r : Result TlsError (Option Bytes)) {c : Option TlsConfig}
    → roots t o.ca_file ≡ r
    → with_roots t o r ≡ ok c
    → (d : TlsConfig) × (c ≡ some d) × Carries t o d
unfolding with_roots
with_roots_ok t o (err e) p h = cc
with_roots_ok t o (ok pool) p h = with_pair_ok t o pool _ refl (roots_ok t o.ca_file p) h

-- A broker that is reached over TLS, if it is accepted, has a configuration that carries every option:
-- the named authority's certificates and no others, the client's pair if a certificate and a key are
-- given and nothing if neither is, the server's name, and verification unless it was switched off.
pub build_tls_config-Carries :
    (t : Trust) (broker_url : Bytes) (o : TlsOptions) {c : Option TlsConfig}
    → scheme_is_tls t broker_url ≡ true
    → build_tls_config t broker_url o ≡ ok c
    → (d : TlsConfig) × (c ≡ some d) × Carries t o d
unfolding build_tls_config
build_tls_config-Carries t broker_url o secure h =
    with_roots_ok t o (roots t o.ca_file) refl (rw secure at h)
