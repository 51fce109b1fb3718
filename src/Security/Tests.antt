-- ===== src/Security/Tests.antt =====
-- A toy platform whose texts are their own bytes, and the theorem of Security at it.
use harmonist.Prelude.{
  ℕ, zero, suc, ◌+◌, ◌-◌, false, none, some, List, [], ◌∷◌, ◌++◌, ◌==◌, nat_eq, contains, replicate,
  length, if◌then◌else◌, ◌≡◌, refl, arith,
}
use harmonist.Models.{codes}
use harmonist.Security.{
  Text, text_eq, whole, Platform, Request, passed, answered, raised, dollar, hash_password,
  is_ascii, check, auth_dispatch, csrf_dispatch, host_of,
}
use harmonist.Security.Credentials.{IsPlatform, auth_dispatch-hash_password}

abbrev tally : ℕ → List ℕ
tally n = replicate n b'1'

-- Numbers are written in tallies, and bytes as themselves, from 100 on.
abbrev lowered : List ℕ → List ℕ
lowered [] = []
lowered (c ∷ text) = (c - 100) ∷ lowered text

abbrev raised_by : List ℕ → List ℕ
raised_by [] = []
raised_by (c ∷ text) = (c + 100) ∷ raised_by text

abbrev toy : Platform
toy = record {
  parse_int = λ text. some (whole (length text));
  print_int = tally;
  b64encode = raised_by;
  b64decode = λ text. some (lowered text);
  to_utf8 = λ text. text;
  from_utf8 = λ bytes. some bytes;
  lower = λ text. text;
  netloc = λ url. some url;
  pbkdf2 = λ password salt n. password ++ salt;
}

lowered-raised_by : (text : List ℕ) → lowered (raised_by text) ≡ text
lowered-raised_by [] = refl
lowered-raised_by (c ∷ text) = ground (arith, lowered-raised_by text)

length-tally : (n : ℕ) → length (tally n) ≡ n
length-tally zero = refl
length-tally (suc n) = ground (arith, length-tally n)

tally_plain : (n : ℕ) → contains (tally n) dollar ≡ false
tally_plain zero = refl
tally_plain (suc n) = tally_plain n

raised_by_plain : (bytes : List ℕ) → contains (raised_by bytes) dollar ≡ false
raised_by_plain [] = refl
raised_by_plain (c ∷ bytes) = ground (arith, raised_by_plain bytes)

toy-IsPlatform : IsPlatform toy
toy-IsPlatform = record {
  parse_int-print_int = λ n. ground (arith, length-tally n);
  b64decode-b64encode = λ bytes. ground (arith, lowered-raised_by bytes);
  from_utf8-to_utf8 = λ text. refl;
  print_int_plain = tally_plain;
  b64encode_plain = raised_by_plain;
}

abbrev request : Text → Request
request given = record {
  method = codes "POST";
  path = codes "/sync";
  hx_request = some (codes "true");
  host = some (codes "nas:8000");
  origin = some (codes "evil.example");
  referer = none;
  authorization = some (codes "Basic " ++ raised_by (codes "me" ++ b':' ∷ given));
}

-- A page of another site is refused.
cross_site : csrf_dispatch toy (request (codes "secret")) ≡ answered 403
unfolding csrf_dispatch host_of
cross_site = refl

-- A name that is not of ASCII makes the middleware raise.
foreign_name : check toy (codes "me") [] (233 ∷ [], []) ≡ raised
unfolding check is_ascii
foreign_name = refl

auth_dispatch-hash_password_example :
    (h : Text) × (hash_password toy (codes "secret") (1 ∷ 2 ∷ []) 3 ≡ some h)
    × (auth_dispatch toy (codes "me") h (request (codes "wrong")) ≡ (
        if (codes "wrong" ++ 1 ∷ 2 ∷ []) == (codes "secret" ++ 1 ∷ 2 ∷ [])
        then passed
        else answered 401))
unfolding is_ascii
auth_dispatch-hash_password_example =
    auth_dispatch-hash_password toy toy-IsPlatform b's' (codes "ecret") (1 ∷ 2 ∷ []) 2 (codes "me")
      (codes "wrong") (request (codes "wrong")) refl refl refl refl
