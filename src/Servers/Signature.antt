-- ===== src/Servers/Signature.antt =====
-- `verify_signature` of pr_insight/servers/utils.py. A header that is missing is the empty text, as
-- the code tests it by its truth value. `hexdigest` is `hmac.new(secret, msg=body).hexdigest()`.
use pr_insight.Base.{
  all, ltb, ◌&&◌, Bool, true, false, [], ◌∷◌, ◌++◌, ◌≡◌, ◌↔◌, arith, if◌then◌else◌,
}
use pr_insight.Base.Fail.{Outcome, returned, raised, http_error, type_error}
use pr_insight.Base.Text.{Str, codes, str_eq, str_eq_iff}

abbrev pub expected_signature : (Str → Str → Str) → Str → Str → Str
expected_signature hexdigest payload_body secret_token =
    codes "sha256=" ++ hexdigest secret_token payload_body

abbrev pub is_ascii : Str → Bool
is_ascii = all (λ c. ltb c 128)

-- `hmac.compare_digest(a, b)`, which takes texts only if they are ASCII
abbrev pub compare_digest : Str → Str → Outcome Bool
compare_digest a b = if is_ascii a && is_ascii b then returned (str_eq a b) else raised type_error

abbrev verdict : Outcome Bool → Outcome {0} Unit
verdict (returned true) = returned tt
verdict (returned false) = raised http_error
verdict (raised e) = raised e

unfoldable pub verify_signature : (Str → Str → Str) → Str → Str → Str → Outcome {0} Unit
unfolding str_eq
verify_signature hexdigest payload_body secret_token [] = raised http_error
verify_signature hexdigest payload_body secret_token (c ∷ header) =
    verdict (compare_digest (expected_signature hexdigest payload_body secret_token) (c ∷ header))

passes : (a b : Str) → is_ascii a ≡ true → (verdict (compare_digest a b) ≡ returned tt) ↔ (b ≡ a)
passes a b h = ground (arith, h, str_eq_iff a b)

-- If the digest is ASCII text, a payload is let through exactly if the header is the digest of the
-- payload under the secret, with "sha256=" in front; in particular not if there is no header.
pub verify_signature_lem :
    (hexdigest : Str → Str → Str) (payload_body secret_token signature_header : Str)
    → is_ascii (hexdigest secret_token payload_body) ≡ true
    → (verify_signature hexdigest payload_body secret_token signature_header ≡ returned tt)
      ↔ (signature_header ≡ expected_signature hexdigest payload_body secret_token)
unfolding verify_signature
verify_signature_lem hexdigest payload_body secret_token [] h = ground arith
verify_signature_lem hexdigest payload_body secret_token (c ∷ header) h =
    passes (expected_signature hexdigest payload_body secret_token) (c ∷ header) h
