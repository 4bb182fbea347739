-- ===== src/Auth/Verified.antt =====
-- What a token that is accepted says, and which tokens are accepted: rowset-core/internal/auth/auth.go.
use rowset_studio.Common.{
  ℕ, ◌==◌, ◌≡◌, ◌⊎◌, inl, inr, refl, sym, ap, ◌∙◌, Bool, true, false, not, some, List, [], ◌∷◌,
  ◌++◌, Bytes, bytes_eq, bytes_eq_iff, all, length, Bool-cases, Option-cases, arith, ◌<◌, ◌≤◌, ℤ,
  pos, negsuc, codes, ◌+◌,
}
use rowset_studio.Auth.{
  Claims, Issuer, Encodings, Verdict, verified, dot, prepend, split_on, identity_of, right_claims,
  is_signed, read_payload, has_right_header, verify_parts, verify, Header, right_header, is_at_most,
  is_more_than,
}

-- The text of parts with separators between them.
abbrev join : ℕ → List Bytes → Bytes
join c [] = []
join c (p ∷ []) = p
join c (p ∷ q ∷ ps) = p ++ (c ∷ join c (q ∷ ps))

abbrev has_parts : List Bytes → Bool
has_parts [] = false
has_parts (p ∷ ps) = true

join-prepend :
    (c x : ℕ) (parts : List Bytes)
    → has_parts parts ≡ true
    → (has_parts (prepend x parts) ≡ true) × (join c (prepend x parts) ≡ x ∷ join c parts)
join-prepend c x [] h = absurd (ground (arith, h))
join-prepend c x (p ∷ []) h = (refl, refl)
join-prepend c x (p ∷ q ∷ ps) h = (refl, refl)

join-nil :
    (c : ℕ) (parts : List Bytes) → has_parts parts ≡ true → join c ([] ∷ parts) ≡ c ∷ join c parts
join-nil c [] h = absurd (ground (arith, h))
join-nil c (p ∷ ps) h = refl

join-split_on :
    (c : ℕ) (text : Bytes)
    → (has_parts (split_on c text) ≡ true) × (join c (split_on c text) ≡ text)
unfolding split_on
join-split_on c [] = (refl, refl)
join-split_on c (x ∷ xs) =
    let (some_part, whole) = join-split_on c xs in
    elim (Bool-cases (x == c)) [
      | inl e ↦
          let same : c ≡ x = ground (arith, e) in
          rw e (
            refl,
            join-nil c (split_on c xs) some_part
                ∙ (ap (λ y. y ∷ join c (split_on c xs)) same ∙ ap (λ t. x ∷ t) whole),
          )
      | inr n ↦
          let (part, joined) = join-prepend c x (split_on c xs) some_part in
          rw n (part, joined ∙ ap (λ t. x ∷ t) whole)
    ]

-- No byte of a text is the separator.
abbrev pub IsFree : ℕ → Bytes → Type 0
IsFree c text = all (λ x. not (x == c)) text ≡ true

pub split_on-free : (c : ℕ) (a : Bytes) → IsFree c a → split_on c a ≡ a ∷ []
unfolding split_on
split_on-free c [] h = refl
split_on-free c (x ∷ a) h =
    let other : (x == c) ≡ false = ground (arith, h) in
    rw (other, split_on-free c a (ground (arith, h))) refl

pub split_on-append :
    (c : ℕ) (a b : Bytes) → IsFree c a → split_on c (a ++ (c ∷ b)) ≡ a ∷ split_on c b
unfolding split_on
split_on-append c [] b h = let same : (c == c) ≡ true = ground arith in rw same refl
split_on-append c (x ∷ a) b h =
    let other : (x == c) ≡ false = ground (arith, h) in
    rw (other, split_on-append c a b (ground (arith, h))) refl

-- A time of the claims is later than a number of seconds, or not.
abbrev pub IsLater : ℤ → ℕ → Type 0
IsLater (pos n) m = m < n
IsLater (negsuc n) m = ⊥

abbrev pub IsBy : ℤ → ℕ → Type 0
IsBy (pos n) m = n ≤ m
IsBy (negsuc n) m = Unit

-- Claims of this issuer for this audience, in force.
abbrev pub IsCurrent : Claims → ℕ → Type 0
IsCurrent claims now =
    (claims.issuer ≡ codes "rowset")
    × (claims.audience ≡ codes "rowset-api")
    × IsLater claims.expires_at now
    × IsBy claims.issued_at (now + 60)

is_at_most-IsLater : (t : ℤ) (m : ℕ) → is_at_most t m ≡ false → IsLater t m
is_at_most-IsLater (pos n) m h = ground (arith, h)
is_at_most-IsLater (negsuc n) m h = absurd (ground (arith, h))

is_more_than-IsBy : (t : ℤ) (m : ℕ) → is_more_than t m ≡ false → IsBy t m
is_more_than-IsBy (pos n) m h = ground (arith, h)
is_more_than-IsBy (negsuc n) m h = _

right_claims-IsCurrent :
    (claims : Claims) (now : ℕ) → right_claims claims now ≡ true → IsCurrent claims now
unfolding right_claims
right_claims-IsCurrent claims now h = (
  (bytes_eq_iff claims.issuer (codes "rowset")).0 (ground (arith, h)),
  (bytes_eq_iff claims.audience (codes "rowset-api")).0 (ground (arith, h)),
  is_at_most-IsLater claims.expires_at now (ground (arith, h)),
  is_more_than-IsBy claims.issued_at (now + 60) (ground (arith, h)),
)

module _ (e : Encodings) where
  -- The header names the algorithm and the type of a token.
  abbrev pub NamesHs256 : Bytes → Type 0
  NamesHs256 text =
      (bytes : Bytes) × (header : Header) × (e.decode text ≡ some bytes)
      × (e.read_header bytes ≡ some header)
      × (header.algorithm ≡ codes "HS256")
      × (header.kind ≡ codes "JWT")

  has_right_header-NamesHs256 : (text : Bytes) → has_right_header e text ≡ true → NamesHs256 text
  unfolding has_right_header right_header
  has_right_header-NamesHs256 text h = elim (Option-cases (e.decode text)) [
    | inl n ↦ absurd (ground (arith, rw (has_right_header, n) at h))
    | inr (bytes, d) ↦ elim (Option-cases (e.read_header bytes)) [
      | inl n ↦ absurd (ground (arith, rw (has_right_header, d, n) at h))
      | inr (header, r) ↦
          let both : right_header header ≡ true = rw (has_right_header, d, r) at h in
          (
            bytes,
            header,
            d,
            r,
            (bytes_eq_iff header.algorithm (codes "HS256")).0 (ground (arith, both)),
            (bytes_eq_iff header.kind (codes "JWT")).0 (ground (arith, both)),
          )
    ]
  ]

  -- The signature of a text is that of the secret, or that of the previous secret if there is one.
  abbrev pub IsSigned : Issuer → Bytes → Bytes → Type 0
  IsSigned i unsigned sig =
      (sig ≡ e.sign unsigned i.secret)
      ⊎ (((length i.previous == 0) ≡ false) × (sig ≡ e.sign unsigned i.previous))

  -- What the issuer vouches for when it accepts a token.
  abbrev pub Vouched : Issuer → Bytes → ℕ → Verdict → Type 0
  Vouched i token now (verified identity auth_version session_version) =
      (header : Bytes) × (payload : Bytes) × (signature : Bytes) × (sig : Bytes) × (text : Bytes)
      × (claims : Claims) × (token ≡ header ++ (dot ∷ (payload ++ (dot ∷ signature))))
      × (e.decode signature ≡ some sig)
      × IsSigned i (header ++ (dot ∷ payload)) sig
      × NamesHs256 header
      × (e.decode payload ≡ some text)
      × (e.read_claims text ≡ some claims)
      × IsCurrent claims now
      × (verified identity auth_version session_version
          ≡ verified (identity_of claims) claims.auth_version claims.session_version)
  Vouched i token now refused = Unit

  is_signed-IsSigned :
      (i : Issuer) (unsigned sig : Bytes)
      → is_signed e i unsigned sig ≡ true
      → IsSigned i unsigned sig
  unfolding is_signed
  is_signed-IsSigned i unsigned sig h =
      elim (Bool-cases (bytes_eq sig (e.sign unsigned i.secret))) [
        | inl x ↦ inl ((bytes_eq_iff sig (e.sign unsigned i.secret)).0 x)
        | inr x ↦ inr (
          ground (arith, h, x),
          (bytes_eq_iff sig (e.sign unsigned i.previous)).0 (ground (arith, h, x)),
        )
      ]

  verify_parts-Vouched :
      (i : Issuer) (token : Bytes) (parts : List Bytes) (now : ℕ)
      → join dot parts ≡ token
      → Vouched i token now (verify_parts e i parts now)
  unfolding verify_parts read_payload
  verify_parts-Vouched i token [] now j = _
  verify_parts-Vouched i token (h ∷ []) now j = _
  verify_parts-Vouched i token (h ∷ p ∷ []) now j = _
  verify_parts-Vouched i token (h ∷ p ∷ s ∷ t ∷ rest) now j = _
  verify_parts-Vouched i token (h ∷ p ∷ s ∷ []) now j = elim (Option-cases (e.decode s)) [
    | inl n ↦ rw (verify_parts, n) _
    | inr (sig, ds) ↦ elim (Bool-cases (is_signed e i (h ++ (dot ∷ p)) sig)) [
      | inr n ↦ rw (verify_parts, ds, n) _
      | inl y ↦ elim (Bool-cases (has_right_header e h)) [
        | inr n ↦ rw (verify_parts, ds, y, n) _
        | inl r ↦ elim (Option-cases (e.decode p)) [
          | inl n ↦ rw (verify_parts, ds, y, r, n) _
          | inr (text, dp) ↦ elim (Option-cases (e.read_claims text)) [
            | inl n ↦ rw (verify_parts, ds, y, r, dp, read_payload, n) _
            | inr (claims, c) ↦ elim (Bool-cases (right_claims claims now)) [
              | inr n ↦ rw (verify_parts, ds, y, r, dp, read_payload, c, n) _
              | inl v ↦
                  rw (verify_parts, ds, y, r, dp, read_payload, c, v)
                    (
                      h,
                      p,
                      s,
                      sig,
                      text,
                      claims,
                      sym j,
                      ds,
                      is_signed-IsSigned i (h ++ (dot ∷ p)) sig y,
                      has_right_header-NamesHs256 h r,
                      dp,
                      c,
                      right_claims-IsCurrent claims now v,
                      refl,
                    )
            ]
          ]
        ]
      ]
    ]
  ]

  -- A token that Verify accepts has three parts; its signature is the one of its first two parts under the
  -- secret, or under a previous secret that is not empty; its header names HS256 and JWT; and its payload holds
  -- claims of this issuer and audience that have not expired and were issued a minute ahead at most, whose
  -- identity and versions are returned.
  pub verify-Vouched :
      (i : Issuer) (token : Bytes) (now : ℕ) → Vouched i token now (verify e i token now)
  unfolding verify
  verify-Vouched i token now =
      verify_parts-Vouched i token (split_on dot token) now (join-split_on dot token).1
