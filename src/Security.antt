-- ===== src/Security.antt =====
-- src/harmonist/web/security.py: the hash of the password and the two middlewares. A text is the list of its
-- code points, and bytes are a list of numbers.
pub mod Credentials
mod Tests
use harmonist.Prelude.{
  ℕ, zero, suc, String, Bool, true, false, not, ◌&&◌, ◌||◌, Option, none, some, List, [], ◌∷◌, ◌++◌,
  ◌==◌, nat_eq, ltb, every, contains, if◌then◌else◌, Compared, list_eq, ◌≡◌, ◌↔◌, refl, beq_iff,
  beq_refl, arith,
}
use harmonist.Models.{codes}

abbrev pub Text : Type 0
Text = List ℕ

instance abbrev pub text_eq : Compared Text
text_eq = list_eq

-- A whole number: not negative, or `-1 - n`.
pub data Whole : Type 0 where
  whole : ℕ → Whole
  below : ℕ → Whole

-- What the standard library does: `int`, `str` of a whole number that is not negative, `base64`, UTF-8, `str.lower`,
-- the netloc of `urlsplit`, and PBKDF2 where its iterations are positive. `none` is where it raises ValueError.
pub record Platform : Type 0 where
  pub parse_int : Text → Option Whole
  pub print_int : ℕ → Text
  pub b64encode : List ℕ → Text
  pub b64decode : Text → Option (List ℕ)
  pub to_utf8 : Text → List ℕ
  pub from_utf8 : List ℕ → Option Text
  pub lower : Text → Text
  pub netloc : Text → Option Text
  pub pbkdf2 : List ℕ → List ℕ → ℕ → List ℕ

-- What the middlewares read of a request; the header fields that may be absent are options.
pub record Request : Type 0 where
  pub method : Text
  pub path : Text
  pub hx_request : Option Text
  pub host : Option Text
  pub origin : Option Text
  pub referer : Option Text
  pub authorization : Option Text

-- What a middleware does: it calls the next one, answers, or raises.
pub data Reply : Type 0 where
  passed : Reply
  answered : ℕ → Reply
  raised : Reply

abbrev dollar : ℕ
dollar = b'$'

-- `text.split("$")`, the part before the first one and the others.
unfoldable pub split_at : ℕ → Text → Text × List Text
split_at sep [] = ([], [])
split_at sep (c ∷ text) =
    let rest = split_at sep text in if c == sep then ([], rest.0 ∷ rest.1) else (c ∷ rest.0, rest.1)

-- `text.partition(sep)`, without the separator.
unfoldable pub partition : ℕ → Text → Text × Text
partition sep [] = ([], [])
partition sep (c ∷ text) =
    let rest = partition sep text in if c == sep then ([], text) else (c ∷ rest.0, rest.1)

-- `header[len(prefix):]` where the header starts with it.
unfoldable pub after_prefix : Text → Text → Option Text
after_prefix [] header = some header
after_prefix (c ∷ prefix) [] = none
after_prefix (c ∷ prefix) (d ∷ header) =
    let rest = after_prefix prefix header in if c == d then rest else none

abbrev pub scheme_name : Text
scheme_name = codes "pbkdf2_sha256"

abbrev pub or_empty : Option Text → Text
or_empty none = []
or_empty (some t) = t

module _ (os : Platform) where
  -- `hashlib.pbkdf2_hmac`: `none` where it raises, for iterations that are not positive.
  unfoldable pub derive : Text → List ℕ → Whole → Option (List ℕ)
  derive password salt (whole zero) = none
  derive password salt (whole (suc n)) = some (os.pbkdf2 (os.to_utf8 password) salt (suc n))
  derive password salt (below n) = none

  unfoldable pub hash_text : Text → List ℕ → ℕ → List ℕ → Text
  hash_text scheme salt iterations derived =
      scheme
      ++ dollar
        ∷ (os.print_int iterations ++ dollar ∷ (os.b64encode salt ++ dollar ∷ os.b64encode derived))

  -- `hash_password` with the salt that it draws: `none` where it raises.
  unfoldable pub hash_password : Text → List ℕ → ℕ → Option Text
  unfolding derive hash_text
  hash_password [] salt iterations = none
  hash_password (c ∷ password) salt iterations =
      elim (derive (c ∷ password) salt (whole iterations)) [
        | none ↦ none
        | some derived ↦ some (hash_text scheme_name salt iterations derived)
      ]

  -- The comparison, once the three fields are read: `none` where it raises.
  unfoldable pub compare_keys :
      Text → Option Whole → Option (List ℕ) → Option (List ℕ) → Option Bool
  unfolding derive
  compare_keys password (some iterations) (some salt) (some expected) =
      elim (derive password salt iterations) [
        | none ↦ none
        | some derived ↦ some (derived == expected)
      ]
  compare_keys password _ _ _ = some false

  unfoldable pub verify_parts : Text → Text × List Text → Option Bool
  unfolding compare_keys
  verify_parts password (scheme, (iter ∷ salt ∷ hash ∷ [])) =
      if not (scheme == scheme_name)
      then some false
      else compare_keys password (os.parse_int iter) (os.b64decode salt) (os.b64decode hash)
  verify_parts password _ = some false

  unfoldable pub verify_password : Text → Text → Option Bool
  unfolding verify_parts split_at
  verify_password password hash_str = verify_parts password (split_at dollar hash_str)

  unfoldable pub host_of : Text → Text
  host_of url = elim (os.netloc url) [ none ↦ url | some host ↦ host ]

  unfoldable pub changes_state : Text → Bool
  changes_state method =
      contains (codes "POST" ∷ codes "PUT" ∷ codes "PATCH" ∷ codes "DELETE" ∷ []) method

  -- `CSRFMiddleware.dispatch`
  unfoldable pub csrf_dispatch : Request → Reply
  unfolding changes_state host_of
  csrf_dispatch r =
      if not (changes_state r.method)
      then passed
      else if not (os.lower (or_empty r.hx_request) == codes "true")
      then answered 403
      else elim r.origin [
        | some origin ↦ if host_of origin == or_empty r.host then passed else answered 403
        | none ↦ elim r.referer [
          | some referer ↦ if host_of referer == or_empty r.host then passed else answered 403
          | none ↦ passed
        ]
      ]

  unfoldable pub is_ascii : Text → Bool
  is_ascii text = every (λ c. ltb c 128) text

  -- The test of the name and the password: `hmac.compare_digest` raises on a text that is not ASCII.
  unfoldable pub check : Text → Text → Text × Text → Reply
  unfolding is_ascii verify_password
  check expected hash_str (username, password) =
      if not (is_ascii username && is_ascii expected)
      then raised
      else if not (username == expected)
      then answered 401
      else elim (verify_password password hash_str) [
        | none ↦ raised
        | some ok ↦ if ok then passed else answered 401
      ]

  -- `base64.b64decode(…).from_utf8("utf-8")`
  unfoldable pub decoded : Text → Option Text
  decoded encoded = elim (os.b64decode encoded) [ none ↦ none | some bytes ↦ os.from_utf8 bytes ]

  -- `BasicAuthMiddleware.dispatch`, with the user's name and hash.
  unfoldable pub auth_dispatch : Text → Text → Request → Reply
  unfolding check decoded partition after_prefix
  auth_dispatch username hash_str r =
      if r.path == codes "/healthz"
      then passed
      else elim (after_prefix (codes "Basic ") (or_empty r.authorization)) [
        | none ↦ answered 401
        | some encoded ↦ elim (decoded encoded) [
          | none ↦ answered 401
          | some text ↦ check username hash_str (partition b':' text)
        ]
      ]
