-- ===== src/Auth/Issued.antt =====
-- A token that was issued is accepted until it expires: rowset-core/internal/auth/auth.go.
use rowset_studio.Common.{
  ℕ, ◌+◌, ◌==◌, ◌≡◌, ◌≤◌, ◌<◌, ◌⊎◌, inl, inr, refl, sym, subst, ap, ◌∙◌, true, false, Option, some,
  [], ◌∷◌, ◌++◌, Bytes, bytes_eq, bytes_eq_iff, length, ℤ, Option-cases, arith,
}
use rowset_studio.Access.{Identity}
use rowset_studio.Activity.Order.{append-append}
use rowset_studio.Auth.{
  Claims, Header, Issuer, Encodings, verified, dot, split_on, new_claims, identity_of, right_header,
  right_claims, issue, is_signed, read_payload, has_right_header, verify_parts, verify,
}
use rowset_studio.Auth.Verified.{IsFree, split_on-free, split_on-append}

-- The claims of a token, read between a minute before its issue and its end.
right_claims-new_claims :
    (i : Issuer) (identity : Identity) (av : Option Bytes) (sv : Option ℤ) (now later : ℕ)
    → now ≤ later + 60
    → later < now + i.ttl
    → right_claims (new_claims i identity av sv now) later ≡ true
unfolding right_claims bytes_eq
right_claims-new_claims i identity av sv now later h k = ground (arith, h, k)

-- RawURLEncoding decodes what it encodes, and writes no dot.
abbrev pub IsEncoding : Encodings → Type 0
IsEncoding e =
    ((x : Bytes) → e.decode (e.encode x) ≡ some x) × ((x : Bytes) → IsFree dot (e.encode x))

-- The header and the claims are read back as they were written.
abbrev pub IsReadBack : Encodings → Claims → Type 0
IsReadBack e claims =
    ((header : Header) × (e.read_header e.header_text ≡ some header) × (right_header header ≡ true))
    × ((text : Bytes) → e.claims_text claims ≡ some text → e.read_claims text ≡ some claims)

-- The verifier's secret is the one that signed, or its previous secret is.
abbrev pub Knows : Issuer → Bytes → Type 0
Knows v secret = (v.secret ≡ secret) ⊎ ((v.previous ≡ secret) × ((length v.previous == 0) ≡ false))

module _ (e : Encodings) where
  is_signed-sign :
      (v : Issuer) (secret unsigned : Bytes)
      → Knows v secret
      → is_signed e v unsigned (e.sign unsigned secret) ≡ true
  unfolding is_signed
  is_signed-sign v secret unsigned (inl same) =
      let equal =
        (bytes_eq_iff (e.sign unsigned secret) (e.sign unsigned v.secret)).1
          (ap (λ k. e.sign unsigned k) (sym same)) in
      rw equal refl
  is_signed-sign v secret unsigned (inr (same, some_previous)) =
      let equal =
        (bytes_eq_iff (e.sign unsigned secret) (e.sign unsigned v.previous)).1
          (ap (λ k. e.sign unsigned k) (sym same)) in
      ground (arith, equal, some_previous)

  parts-issue :
      (h p s : Bytes)
      → IsFree dot h
      → IsFree dot p
      → IsFree dot s
      → split_on dot ((h ++ (dot ∷ p)) ++ (dot ∷ s)) ≡ h ∷ p ∷ s ∷ []
  parts-issue h p s fh fp fs =
      ap (split_on dot) (append-append h (dot ∷ p) (dot ∷ s))
      ∙ (split_on-append dot h (p ++ (dot ∷ s)) fh
          ∙ ap (λ t. h ∷ t) (split_on-append dot p s fp ∙ ap (λ t. p ∷ t) (split_on-free dot s fs)))

  has_right_header-text :
      ((x : Bytes) → e.decode (e.encode x) ≡ some x)
      → (header : Header) → e.read_header e.header_text ≡ some header
      → right_header header ≡ true
      → has_right_header e (e.encode e.header_text) ≡ true
  unfolding has_right_header
  has_right_header-text back header rh right = rw (has_right_header, back e.header_text, rh) right

  verify_parts-issued :
      (v : Issuer) (secret text : Bytes) (claims : Claims) (later : ℕ)
      → IsEncoding e
      → (header : Header) → e.read_header e.header_text ≡ some header
      → right_header header ≡ true
      → e.read_claims text ≡ some claims
      → Knows v secret
      → right_claims claims later ≡ true
      → verify_parts e v
          (e.encode e.header_text
            ∷ e.encode text
            ∷ e.encode (e.sign (e.encode e.header_text ++ (dot ∷ e.encode text)) secret)
            ∷ [])
          later
        ≡ verified (identity_of claims) claims.auth_version claims.session_version
  unfolding verify_parts read_payload
  verify_parts-issued v secret text claims later (back, free) header rh right rc knows valid =
      let unsigned = e.encode e.header_text ++ (dot ∷ e.encode text) in
      let signed = is_signed-sign v secret unsigned knows in
      let headed = has_right_header-text back header rh right in
      rw
        (
          verify_parts,
          back (e.sign unsigned secret),
          signed,
          headed,
          back text,
          read_payload,
          rc,
          valid,
        )
        refl

  -- A token that Issue wrote is accepted, and returns the identity and the versions it was issued for, by every
  -- issuer whose secret or previous secret is the one that signed it, from a minute before its issue on and
  -- until the time of its issuer to live has passed. Given that base64 decodes what it encodes and writes no
  -- dot, and that the JSON of the header and of these claims is read back as it was written.
  pub verify-issue :
      (i v : Issuer) (identity : Identity) (av : Option Bytes) (sv : Option ℤ) (now later : ℕ)
      (token : Bytes)
      → IsEncoding e
      → IsReadBack e (new_claims i identity av sv now)
      → Knows v i.secret
      → issue e i identity av sv now ≡ some token
      → now ≤ later + 60
      → later < now + i.ttl
      → verify e v token later ≡ verified identity av sv
  unfolding verify issue
  verify-issue i v identity av sv now later token (back, free) ((header, rh, right), read) knows
        issued h k =
      elim (Option-cases (e.claims_text (new_claims i identity av sv now))) [
        | inl n ↦ absurd (ground (arith, rw (issue, n) at issued))
        | inr (text, w) ↦
            let unsigned = e.encode e.header_text ++ (dot ∷ e.encode text) in
            let whole : unsigned ++ (dot ∷ e.encode (e.sign unsigned i.secret)) ≡ token =
              ground (arith, (rw (issue, w) at issued)) in
            subst (λ t. verify_parts e v (split_on dot t) later ≡ verified identity av sv) whole
              (ap (λ ps. verify_parts e v ps later)
                  (parts-issue (e.encode e.header_text) (e.encode text)
                    (e.encode (e.sign unsigned i.secret)) (free e.header_text) (free text)
                    (free (e.sign unsigned i.secret)))
                ∙ verify_parts-issued v i.secret text (new_claims i identity av sv now) later
                    (back, free) header rh right (read text w) knows
                    (right_claims-new_claims i identity av sv now later h k))
      ]
