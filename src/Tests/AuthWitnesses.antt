-- ===== src/Tests/AuthWitnesses.antt =====
-- The theorems on sign-in tokens, at a token that is verified with the previous secret.
use rowset_studio.Common.{
  ◌≡◌, refl, ap, ℕ, ◌+◌, ◌-◌, ◌/◌, ◌<◌, ◌==◌, ◌∷◌, [], ◌++◌, true, false, Option, none, some, Bytes,
  codes, bytes_eq, pos, inr, arith,
}
use rowset_studio.Access.{Identity}
use rowset_studio.Auth.{
  Claims, Issuer, Encodings, verified, dot, new_issuer, new_claims, right_header, issue, verify,
}
use rowset_studio.Auth.Verified.{IsFree, Vouched, verify-Vouched}
use rowset_studio.Auth.Issued.{Knows, verify-issue}

-- An encoding that writes each byte 2 c behind a byte 1: no dot, which is 46.
abbrev written : Bytes → Bytes
written [] = []
written (c ∷ cs) = 1 ∷ (c + c + 1) ∷ written cs

-- Half of an odd number, less a half.
abbrev half : ℕ → ℕ
half n = (n - 1) / 2

abbrev read : Bytes → Option Bytes
read [] = some []
read (c ∷ []) = none
read (c ∷ d ∷ cs) = elim (read cs) [ none ↦ none | some bs ↦ some (half d ∷ bs) ]

read-written : (x : Bytes) → read (written x) ≡ some x
read-written [] = refl
read-written (c ∷ cs) =
    rw (read-written cs) (let e : half (c + c + 1) ≡ c = omega arith in ap (λ d. some (d ∷ cs)) e)

written-IsFree : (x : Bytes) → IsFree dot (written x)
written-IsFree [] = refl
written-IsFree (c ∷ cs) =
    let odd : (c + c + 1 == dot) ≡ false = ground arith in rw odd (written-IsFree cs)

abbrev analyst : Identity
analyst = record {
  user_id = codes "u";
  org_id = codes "o";
  email = codes "a@b.c";
  role = codes "analyst";
}

abbrev before : Issuer
before = new_issuer (codes "old") []

abbrev rotated : Issuer
rotated = new_issuer (codes "new") (codes "old")

abbrev claims : Claims
claims = new_claims before analyst none (some (pos 3)) 1000

-- The MAC is the secret, and the JSON of these claims is one letter.
abbrev encodings : Encodings
encodings = record {
  encode = written;
  decode = read;
  sign = λ unsigned secret. secret;
  header_text = codes "H";
  claims_text = λ c. some (codes "C");
  read_header = λ text. some (record { algorithm = codes "HS256"; kind = codes "JWT" });
  read_claims = λ text. some claims;
}

abbrev token : Bytes
token = (written (codes "H") ++ (dot ∷ written (codes "C"))) ++ (dot ∷ written (codes "old"))

token-issued : issue encodings before analyst none (some (pos 3)) 1000 ≡ some token
unfolding issue new_issuer
token-issued = refl

read_back : right_header (record { algorithm = codes "HS256"; kind = codes "JWT" }) ≡ true
unfolding right_header bytes_eq
read_back = refl

ttl-rotated : 1800 < 1000 + before.ttl
unfolding new_issuer
ttl-rotated = omega arith

knows : Knows rotated before.secret
unfolding new_issuer
knows = inr (refl, refl)

verify-issue_example : verify encodings rotated token 1800 ≡ verified analyst none (some (pos 3))
verify-issue_example =
    verify-issue encodings before rotated analyst none (some (pos 3)) 1000 1800 token
      (read-written, written-IsFree)
      ((record { algorithm = codes "HS256"; kind = codes "JWT" }, refl, read_back), λ text e. refl)
      knows token-issued (omega arith) ttl-rotated

verify-Vouched_example : Vouched encodings rotated token 1800 (verify encodings rotated token 1800)
verify-Vouched_example = verify-Vouched encodings rotated token 1800
