-- ===== src/Access.antt =====
-- Who a request comes from (src/coursefuzz/security/access.py).
pub mod Authenticated
use Prim.Native.Char.{Char, code}
use Prim.Native.String.{[] as empty, ◌∷◌ as ◌▹◌, count}
use course_fuzz.Prelude.{
  ℕ, String, Bool, true, false, not, ◌&&◌, ◌||◌, Option, none, some, List, [], ◌∷◌, map, ◌==◌,
  string_eq, if◌then◌else◌, leb, ltb, nat_beq,
}
use course_fuzz.Prelude.Text.{◌++ₛ◌, all_distinct}
use course_fuzz.Prelude.Result.{
  Result, ok, raised, value_error, permission_error, other_error, raise_if, ◌>>=◌,
}

pub record Principal : Type 0 where
  pub tenant_id : String

-- AccessPolicy: the token of each tenant, in the order of the dictionary.
pub record AccessPolicy : Type 0 where
  pub tenant_tokens : List (String × String)

abbrev pub local_tenant : String
local_tenant = "local-demo"

-- `str.lower` and `repr`
pub record Texts : Type 0 where
  pub lower : String → String
  pub repr : String → String

abbrev pub between : (first last : ℕ) → Char → Bool
between first last c = leb first (code c) && leb (code c) last

-- [a-z0-9]
abbrev pub tenant_start : Char → Bool
tenant_start c = between 97 122 c || between 48 57 c

-- [a-z0-9_-]
abbrev pub tenant_char : Char → Bool
tenant_char c = tenant_start c || nat_beq (code c) 95 || nat_beq (code c) 45

unfoldable pub all_chars : (Char → Bool) → String → Bool
all_chars p empty = true
all_chars p (c ▹ t) = p c && all_chars p t

-- _TENANT_PATTERN.fullmatch
unfoldable pub is_tenant : String → Bool
unfolding all_chars
is_tenant empty = false
is_tenant (c ▹ t) = tenant_start c && all_chars tenant_char t && leb 1 (count t) && leb (count t) 62

abbrev pub is_ascii : String → Bool
is_ascii t = all_chars (λ c. ltb (code c) 128) t

-- hmac.compare_digest of two texts
unfoldable pub compare_digest : (a b : String) → Result Bool
unfolding all_chars
compare_digest a b =
    if is_ascii a && is_ascii b
    then ok (a == b)
    else raised (other_error "comparing strings with non-ASCII characters is not supported")

-- authorization.partition(" "): the text before the first space, whether there is one, and the
-- text after it.
unfoldable pub partition : String → String × Bool × String
partition empty = ("", false, "")
partition (c ▹ t) =
    let rest = partition t in
    if nat_beq (code c) 32 then ("", true, t) else (c ▹ rest.0, rest.1, rest.2)

abbrev pub is_configured : List (String × String) → Bool
is_configured [] = false
is_configured (t ∷ ts) = true

abbrev pub required : AccessPolicy → Bool
required policy = is_configured policy.tenant_tokens

module _ (texts : Texts) where
  open texts use {lower, repr}

  unfoldable pub check_token : (tenant_id token : String) → Result (Unit {0})
  unfolding is_tenant
  check_token tenant_id token =
      raise_if (not (is_tenant tenant_id))
        (value_error ("Invalid CourseFuzz tenant ID: " ++ₛ repr tenant_id))
      >>= λ _. raise_if (ltb (count token) 24) (
          value_error
            ("Access token for " ++ₛ repr tenant_id ++ₛ " must contain at least 24 characters"))

  unfoldable pub check_tokens : List (String × String) → Result (Unit {0})
  unfolding check_token
  check_tokens [] = ok tt
  check_tokens ((tenant_id, token) ∷ rest) =
      let others = check_tokens rest in check_token tenant_id token >>= λ _. others

  -- __init__
  unfoldable pub access_policy : List (String × String) → Result AccessPolicy
  unfolding check_tokens all_distinct
  access_policy tenant_tokens = check_tokens tenant_tokens >>= λ _.
      raise_if (not (all_distinct (map (λ t. t.1) tenant_tokens)))
        (value_error "Each CourseFuzz tenant must use a distinct access token")
      >>= λ _. ok (record { tenant_tokens = tenant_tokens })

  abbrev pub bearer : (scheme : String) (separator : Bool) (token : String) → Option String
  bearer scheme separator token =
      if separator && lower scheme == "bearer" && not (token == "") then some token else none

  unfoldable pub bearer_token : Option String → Option String
  unfolding partition
  bearer_token none = none
  bearer_token (some authorization) =
      let parts = partition authorization in
      if authorization == "" then none else bearer parts.0 parts.1 parts.2

  -- self._bearer_token(authorization) or session_cookie
  abbrev pub or_cookie : Option String → Option String → Option String
  or_cookie none session_cookie = session_cookie
  or_cookie (some token) session_cookie = some token

  unfoldable pub credential_of : (authorization session_cookie : Option String) → Option String
  unfolding bearer_token
  credential_of authorization session_cookie = or_cookie (bearer_token authorization) session_cookie

  unfoldable pub identify : (credential : String) → List (String × String) → Result Principal
  unfolding compare_digest
  identify credential [] = raised (permission_error "Invalid CourseFuzz credential")
  identify credential ((tenant_id, expected) ∷ rest) =
      let others = identify credential rest in
      compare_digest credential expected >>= λ same.
      if same then ok (record { tenant_id = tenant_id }) else others

  unfoldable pub admitted : Option String → List (String × String) → Result Principal
  unfolding identify
  admitted none tokens = raised (permission_error "Authentication required")
  admitted (some credential) tokens =
      if credential == ""
      then raised (permission_error "Authentication required")
      else identify credential tokens

  unfoldable pub authenticate :
      AccessPolicy → (authorization session_cookie : Option String) → Result Principal
  unfolding admitted credential_of
  authenticate policy authorization session_cookie =
      if not (required policy)
      then ok (record { tenant_id = local_tenant })
      else admitted (credential_of authorization session_cookie) policy.tenant_tokens
