-- ===== src/Auth.antt =====
-- Sign-in tokens: `Issue` and `Verify` of rowset-core/internal/auth/auth.go. The encodings and the MAC are
-- parameters; a time is a number of seconds.
pub mod Verified
pub mod Issued
use rowset_studio.Common.{
  ℕ, ◌+◌, ◌*◌, ◌==◌, Bool, true, false, not, ◌&&◌, ◌||◌, Option, none, some, List, [], ◌∷◌, ◌++◌,
  Bytes, bytes_eq, is_word, codes, length, leb, ltb, if◌then◌else◌, ℤ, pos, negsuc,
}
use rowset_studio.Access.{Identity}

pub record Claims : Type 0 where
  pub subject : Bytes
  pub org : Bytes
  pub email : Bytes
  pub role : Bytes
  pub expires_at : ℤ
  pub issued_at : ℤ
  pub issuer : Bytes
  pub audience : Bytes
  pub auth_version : Option Bytes
  pub session_version : Option ℤ

pub record Header : Type 0 where
  pub algorithm : Bytes
  pub kind : Bytes

-- `Issuer`; its clock is an argument of the operations.
pub record Issuer : Type 0 where
  pub secret : Bytes
  pub previous : Bytes
  pub ttl : ℕ

-- `NewIssuer`.
unfoldable pub new_issuer : Bytes → Bytes → Issuer
new_issuer secret previous = record { secret = secret; previous = previous; ttl = 15 * 60 }

-- What the source uses of other packages: RawURLEncoding; the HMAC of a text under a secret; the JSON of
-- the header and of claims, and what Unmarshal reads of them, `none` for an error.
pub record Encodings : Type 0 where
  pub encode : Bytes → Bytes
  pub decode : Bytes → Option Bytes
  pub sign : Bytes → Bytes → Bytes
  pub header_text : Bytes
  pub claims_text : Claims → Option Bytes
  pub read_header : Bytes → Option Header
  pub read_claims : Bytes → Option Claims

pub data Verdict : Type 0 where
  verified : Identity → Option Bytes → Option ℤ → Verdict
  invalid_token invalid_signature invalid_header invalid_claims : Verdict

abbrev pub dot : ℕ
dot = b'.'

-- The first part gets one more byte in front.
abbrev pub prepend : ℕ → List Bytes → List Bytes
prepend x [] = (x ∷ []) ∷ []
prepend x (p ∷ ps) = (x ∷ p) ∷ ps

-- strings.Split with a separator of one byte.
unfoldable pub split_on : ℕ → Bytes → List Bytes
split_on c [] = [] ∷ []
split_on c (x ∷ xs) = let rest = split_on c xs in if x == c then [] ∷ rest else prepend x rest

abbrev pub is_at_most : ℤ → ℕ → Bool
is_at_most (pos n) m = leb n m
is_at_most (negsuc n) m = true

abbrev pub is_more_than : ℤ → ℕ → Bool
is_more_than (pos n) m = ltb m n
is_more_than (negsuc n) m = false

abbrev pub new_claims : Issuer → Identity → Option Bytes → Option ℤ → ℕ → Claims
new_claims i identity auth_version session_version now = record {
  subject = identity.user_id;
  org = identity.org_id;
  email = identity.email;
  role = identity.role;
  expires_at = pos (now + i.ttl);
  issued_at = pos now;
  issuer = codes "rowset";
  audience = codes "rowset-api";
  auth_version = auth_version;
  session_version = session_version;
}

abbrev pub identity_of : Claims → Identity
identity_of claims = record {
  user_id = claims.subject;
  org_id = claims.org;
  email = claims.email;
  role = claims.role;
}

unfoldable pub right_header : Header → Bool
unfolding bytes_eq
right_header header = is_word header.algorithm "HS256" && is_word header.kind "JWT"

unfoldable pub right_claims : Claims → ℕ → Bool
unfolding bytes_eq
right_claims claims now = not (
    not (is_word claims.issuer "rowset")
    || not (is_word claims.audience "rowset-api")
    || is_at_most claims.expires_at now
    || is_more_than claims.issued_at (now + 60))

module _ (e : Encodings) where
  -- `Issue`; `none` when the claims cannot be written.
  unfoldable pub issue : Issuer → Identity → Option Bytes → Option ℤ → ℕ → Option Bytes
  issue i identity auth_version session_version now =
      elim (e.claims_text (new_claims i identity auth_version session_version now)) [
        | none ↦ none
        | some payload ↦
            let unsigned = e.encode e.header_text ++ (dot ∷ e.encode payload) in
            some (unsigned ++ (dot ∷ e.encode (e.sign unsigned i.secret)))
      ]

  -- The signature is that of the secret, or of the previous one if there is one.
  unfoldable pub is_signed : Issuer → Bytes → Bytes → Bool
  unfolding bytes_eq
  is_signed i unsigned sig =
      bytes_eq sig (e.sign unsigned i.secret)
      || (not (length i.previous == 0) && bytes_eq sig (e.sign unsigned i.previous))

  unfoldable pub read_payload : Bytes → ℕ → Verdict
  unfolding right_claims
  read_payload payload now = elim (e.read_claims payload) [
    | none ↦ invalid_claims
    | some claims ↦
        if right_claims claims now
        then verified (identity_of claims) claims.auth_version claims.session_version
        else invalid_claims
  ]

  unfoldable pub has_right_header : Bytes → Bool
  unfolding right_header
  has_right_header text = elim (e.decode text) [
    | none ↦ false
    | some header_bytes ↦ elim (e.read_header header_bytes) [
      | none ↦ false
      | some header ↦ right_header header
    ]
  ]

  -- `Verify`, from the parts on.
  unfoldable pub verify_parts : Issuer → List Bytes → ℕ → Verdict
  unfolding is_signed read_payload has_right_header
  verify_parts i (header ∷ payload ∷ signature ∷ []) now = elim (e.decode signature) [
    | none ↦ invalid_token
    | some sig ↦
        if not (is_signed i (header ++ (dot ∷ payload)) sig)
        then invalid_signature
        else if not (has_right_header header)
        then invalid_header
        else elim (e.decode payload) [ none ↦ invalid_token | some text ↦ read_payload text now ]
  ]
  verify_parts i parts now = invalid_token

  unfoldable pub verify : Issuer → Bytes → ℕ → Verdict
  unfolding split_on verify_parts
  verify i token now = verify_parts i (split_on dot token) now
