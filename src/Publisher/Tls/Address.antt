-- ===== src/Publisher/Tls/Address.antt =====
-- Which addresses of a broker are accepted.
use sparkwrangler.Base.{
  Bool, true, false, not, ◌&&◌, ◌||◌, Option, none, some, [], ◌∷◌, ◌++◌, ◌≡◌, ◌≢◌, ◌↔◌, ◌⊎◌, inl,
  inr, refl, sym, ap, ◌∙◌, if◌then◌else◌, Bytes, codes, one_of, one_of-append, equal, equal_iff,
  equal_refl, ok, err, ok_injective, Bool-cases,
}
use sparkwrangler.Publisher.Tls.{
  Url, Trust, unsupported_scheme, no_host, tls_schemes, plain_schemes, is_empty, validate_url,
  validate_broker_url,
}
use sparkwrangler.Text.Search.{contains, to_lower}

-- An address that has a scheme, which is one of those of the client's in any case, and a host unless it
-- names a socket.
pub record IsAddress (t : Trust) (broker_url : Bytes) (u : Url) : Type 0 where
  pub schemed : contains broker_url (codes "://") ≡ true
  pub parsed : t.parse_url broker_url ≡ some u
  pub supported : one_of (to_lower u.scheme) (tls_schemes ++ plain_schemes) ≡ true
  pub hosted : (u.scheme ≡ codes "unix") ⊎ (u.host ≢ [])

is_empty-false_iff : (s : Bytes) → (is_empty s ≡ false) ↔ (s ≢ [])
unfolding is_empty
is_empty-false_iff [] = ((λ h. cc), λ h. absurd (h refl))
is_empty-false_iff (c ∷ s) = ((λ h e. cc), λ h. refl)

not_socket : (s : Bytes) {B : Type 0} → equal s (codes "unix") ≡ false → (s ≡ codes "unix") ⊎ B → B
not_socket s k (inl e) = cc (ap (λ z. equal z (codes "unix")) e, equal_refl (codes "unix"), k)
not_socket s k (inr b) = b

lacks_host : Url → Bool
lacks_host u = not (equal u.scheme (codes "unix")) && is_empty u.host

lacks_host_iff : (u : Url) → (lacks_host u ≡ false) ↔ ((u.scheme ≡ codes "unix") ⊎ (u.host ≢ []))
unfolding lacks_host
lacks_host_iff u = elim (Bool-cases (equal u.scheme (codes "unix"))) [
  | inl socket ↦ rw socket ((λ h. inl ((equal_iff u.scheme (codes "unix")).0 socket)), λ h. refl)
  | inr remote ↦
      let (out, back) = is_empty-false_iff u.host in
      rw remote ((λ h. inr (out h)), λ h. back (not_socket u.scheme remote h))
]

is_supported : Url → Bool
is_supported u = one_of (to_lower u.scheme) tls_schemes || one_of (to_lower u.scheme) plain_schemes

supported-append :
    (u : Url) → one_of (to_lower u.scheme) (tls_schemes ++ plain_schemes) ≡ is_supported u
unfolding is_supported
supported-append u = one_of-append (to_lower u.scheme) tls_schemes plain_schemes

validate_url-some :
    (u : Url)
    → validate_url (some u) ≡ (
        if is_supported u
        then (if lacks_host u then err no_host else ok u)
        else err (unsupported_scheme u.scheme))
unfolding validate_url is_supported lacks_host
validate_url-some u = refl

validate_url_ok :
    (o : Option Url) {u : Url}
    → validate_url o ≡ ok u
    → (o ≡ some u) × (is_supported u ≡ true) × (lacks_host u ≡ false)
validate_url_ok none h = unfold validate_url in cc
validate_url_ok (some v) h = elim (Bool-cases (is_supported v)) [
  | inl known ↦ elim (Bool-cases (lacks_host v)) [
    | inl bare ↦ cc (rw (known, bare) at (sym (validate_url-some v) ∙ h))
    | inr hosted ↦
        let e = ok_injective (rw (known, hosted) at (sym (validate_url-some v) ∙ h)) in
        (ap some e, ap is_supported (sym e) ∙ known, ap lacks_host (sym e) ∙ hosted)
  ]
  | inr unknown ↦ cc (rw unknown at (sym (validate_url-some v) ∙ h))
]

validate_broker_url-IsAddress :
    (t : Trust) (broker_url : Bytes) (u : Url)
    → validate_broker_url t broker_url ≡ ok u
    → IsAddress t broker_url u
unfolding validate_broker_url
validate_broker_url-IsAddress t broker_url u h =
    elim (Bool-cases (contains broker_url (codes "://"))) [
      | inl schemed ↦
          let (parsed, known, hosted) =
            validate_url_ok (t.parse_url broker_url) (rw schemed at h) in
          record {
            schemed = schemed;
            parsed = parsed;
            supported = supported-append u ∙ known;
            hosted = (lacks_host_iff u).0 hosted;
          }
      | inr bare ↦ cc (rw bare at h)
    ]

IsAddress-validate_broker_url :
    (t : Trust) (broker_url : Bytes) (u : Url)
    → IsAddress t broker_url u
    → validate_broker_url t broker_url ≡ ok u
unfolding validate_broker_url
IsAddress-validate_broker_url t broker_url u a =
    rw (a.schemed, a.parsed)
      (validate_url-some u
        ∙ rw (sym (supported-append u) ∙ a.supported, (lacks_host_iff u).1 a.hosted) refl)

-- The address of a broker is accepted exactly if its text has a scheme's mark, it parses, its scheme is
-- one of the eight that the client knows, in capitals or not, and it has a host or names a socket.
pub validate_broker_url_iff :
    (t : Trust) (broker_url : Bytes) (u : Url)
    → (validate_broker_url t broker_url ≡ ok u) ↔ IsAddress t broker_url u
validate_broker_url_iff t broker_url u =
    (validate_broker_url-IsAddress t broker_url u, IsAddress-validate_broker_url t broker_url u)
