-- ===== src/Signature.antt =====
-- github.py: the signature of a webhook body. The HMAC is a parameter.
use orchestrator_service.Prelude.{
  ℕ, ◌+◌, ◌-◌, ◌*◌, ◌/◌, ◌%◌, ◌<◌, Text, codes, Bool, true, false, ◌&&◌, Option, none, some, ◌≡◌,
  refl, List, [], ◌∷◌, ◌++◌, leb, ltb, ◌==◌, if◌then◌else◌, same, same_iff, same_refl, starts_with,
  drop, ◌||◌, is_empty, All, arith, Option-cases, inl, inr,
}

-- One character of lower-case hexadecimal.
unfoldable pub hex_char : ℕ → ℕ
hex_char n = if ltb n 10 then b'0' + n else b'a' + (n - 10)

-- bytes.hex()
unfoldable pub to_hex : List ℕ → Text
unfolding hex_char
to_hex [] = []
to_hex (b ∷ bs) = hex_char (b / 16) ∷ hex_char (b % 16) ∷ to_hex bs

unfoldable pub hex_value : ℕ → Option ℕ
hex_value c =
    if leb b'0' c && leb c b'9'
    then some (c - b'0')
    else if leb b'a' c && leb c b'f'
    then some (c - b'a' + 10)
    else if leb b'A' c && leb c b'F'
    then some (c - b'A' + 10)
    else none

-- ASCII white space
unfoldable pub is_blank : ℕ → Bool
is_blank c = c == 32 || (leb 9 c && leb c 13)

join_byte : Option ℕ → Option ℕ → Option (List ℕ) → Option (List ℕ)
join_byte (some h) (some l) (some rest) = some ((h * 16 + l) ∷ rest)
join_byte _ _ _ = none

-- bytes.fromhex: pairs of digits, with blanks between the pairs; none for a ValueError.
unfoldable pub from_hex : Text → Option (List ℕ)
unfolding join_byte
from_hex [] = some []
from_hex (c ∷ []) = if is_blank c then some [] else none
from_hex (c ∷ d ∷ t) =
    let blank = from_hex (d ∷ t) in
    let pair = join_byte (hex_value c) (hex_value d) (from_hex t) in
    if is_blank c then blank else pair

unfoldable pub signature_prefix : Text
signature_prefix = codes "sha256="

-- `hmac` gives the digest of a body under a secret.
module _ (hmac : Text → Text → List ℕ) where
  unfoldable pub compute_signature : Text → Text → Text
  compute_signature body secret = signature_prefix ++ to_hex (hmac secret body)

  unfoldable pub matches_digest : Option (List ℕ) → Text → Text → Bool
  matches_digest none body secret = false
  matches_digest (some expected) body secret = same (hmac secret body) expected

  -- A missing header is none, and an empty one counts as missing.
  unfoldable pub verify_signature : Text → Option Text → Text → Bool
  unfolding matches_digest
  verify_signature body none secret = false
  verify_signature body (some header) secret =
      if is_empty header
      then false
      else if starts_with signature_prefix header
      then matches_digest (from_hex (drop 7 header)) body secret
      else false

hex_value-hex_char : (n : ℕ) → n < 16 → hex_value (hex_char n) ≡ some n
unfolding hex_value hex_char
hex_value-hex_char n h = ground arith

is_blank-hex_char : (n : ℕ) → n < 16 → is_blank (hex_char n) ≡ false
unfolding is_blank hex_char
is_blank-hex_char n h = ground arith

from_hex-to_hex : (bs : List ℕ) → All (λ b. b < 256) bs → from_hex (to_hex bs) ≡ some bs
unfolding from_hex to_hex
from_hex-to_hex [] h = refl
from_hex-to_hex (b ∷ bs) h =
    let high : b / 16 < 16 = omega (arith, h.0) in
    let low : b % 16 < 16 = omega arith in
    let whole : b / 16 * 16 + b % 16 ≡ b = omega arith in
    ground (
      arith,
      hex_value-hex_char (b / 16) high,
      hex_value-hex_char (b % 16) low,
      is_blank-hex_char (b / 16) high,
      from_hex-to_hex bs h.1,
      whole,
    )

module _ (hmac : Text → Text → List ℕ) where
  -- The signature computed for a body and a secret is accepted for them, if the HMAC gives bytes.
  pub verify-compute :
      ((secret body : Text) → All (λ b. b < 256) (hmac secret body))
      → (body secret : Text)
      → verify_signature hmac body (some (compute_signature hmac body secret)) secret ≡ true
  unfolding verify_signature compute_signature signature_prefix starts_with
  verify-compute bytes body secret =
      rw (from_hex-to_hex (hmac secret body) (bytes secret body), same_refl)

  -- A header is accepted only if it is the prefix with a text behind it that is hexadecimal for the
  -- digest of this body under this secret.
  pub verified-digest :
      (body secret header : Text)
      → verify_signature hmac body (some header) secret ≡ true
      → (starts_with signature_prefix header ≡ true)
        × (from_hex (drop 7 header) ≡ some (hmac secret body))
  unfolding verify_signature
  verified-digest body secret header h = elim (Option-cases (from_hex (drop 7 header))) [
    | inl e ↦ absurd (ground arith)
    | inr (digest, e) ↦ ground (arith, same_iff (hmac secret body) digest)
  ]
