-- ===== src/Security/Credentials.antt =====
-- That src/harmonist/web/security.py lets the configured credentials in.
use harmonist.Prelude.{
  ℕ, suc, true, false, none, some, List, [], ◌∷◌, ◌++◌, ◌==◌, nat_eq, contains, if◌then◌else◌, ◌≡◌,
  refl, beq_refl, arith, ap, list_beq_refl, ◌∙◌,
}
use harmonist.Models.{codes}
use harmonist.Security.{
  Text, text_eq, whole, Platform, Request, passed, answered, dollar, split_at, partition,
  after_prefix, scheme_name, derive, hash_text, hash_password, compare_keys, verify_parts,
  verify_password, is_ascii, check, decoded, auth_dispatch,
}

-- What the standard library's documentation says of these functions.
pub record IsPlatform (os : Platform) : Type 0 where
  pub parse_int-print_int : (n : ℕ) → os.parse_int (os.print_int n) ≡ some (whole n)
  pub b64decode-b64encode : (bytes : List ℕ) → os.b64decode (os.b64encode bytes) ≡ some bytes
  pub from_utf8-to_utf8 : (text : Text) → os.from_utf8 (os.to_utf8 text) ≡ some text
  pub print_int_plain : (n : ℕ) → contains (os.print_int n) dollar ≡ false
  pub b64encode_plain : (bytes : List ℕ) → contains (os.b64encode bytes) dollar ≡ false

split_at-plain :
    (sep : ℕ) (text : Text) → contains text sep ≡ false → split_at sep text ≡ (text, [])
unfolding split_at
split_at-plain sep [] plain = refl
split_at-plain sep (c ∷ text) plain = ground (arith, split_at-plain sep text)

split_at-append :
    (sep : ℕ) (part text : Text)
    → contains part sep ≡ false
    → split_at sep (part ++ sep ∷ text) ≡ (part, (split_at sep text).0 ∷ (split_at sep text).1)
unfolding split_at
split_at-append sep [] text plain = ground (arith, beq_refl sep)
split_at-append sep (c ∷ part) text plain = ground (arith, split_at-append sep part text)

partition-append :
    (sep : ℕ) (part text : Text)
    → contains part sep ≡ false
    → partition sep (part ++ sep ∷ text) ≡ (part, text)
unfolding partition
partition-append sep [] text plain = ground (arith, beq_refl sep)
partition-append sep (c ∷ part) text plain = ground (arith, partition-append sep part text)

module _ (os : Platform) (laws : IsPlatform os) where
  split_hash :
      (salt : List ℕ) (n : ℕ) (derived : List ℕ)
      → split_at dollar (hash_text os scheme_name salt n derived)
        ≡ (scheme_name, os.print_int n ∷ os.b64encode salt ∷ os.b64encode derived ∷ [])
  unfolding hash_text
  split_hash salt n derived =
      let last = split_at-plain dollar (os.b64encode derived) (laws.b64encode_plain derived) in
      let third =
        split_at-append dollar (os.b64encode salt) (os.b64encode derived)
          (laws.b64encode_plain salt) in
      let second =
        split_at-append dollar (os.print_int n) (os.b64encode salt ++ dollar ∷ os.b64encode derived)
          (laws.print_int_plain n) in
      let first =
        split_at-append dollar scheme_name
          (os.print_int n ++ dollar ∷ (os.b64encode salt ++ dollar ∷ os.b64encode derived)) refl in
      rw (first, second, third, last) refl

  -- A hash is read back: the key of the password that is given is compared with the one in the hash.
  verify_password-hash :
      (given : Text) (salt : List ℕ) (n : ℕ) (key : List ℕ)
      → verify_password os given (hash_text os scheme_name salt (suc n) key)
        ≡ some (os.pbkdf2 (os.to_utf8 given) salt (suc n) == key)
  unfolding verify_password verify_parts compare_keys derive
  verify_password-hash given salt n key =
      rw
        (
          split_hash salt (suc n) key,
          laws.parse_int-print_int (suc n),
          laws.b64decode-b64encode salt,
          laws.b64decode-b64encode key,
        )
        refl

  check-hash :
      (user given : Text) (salt : List ℕ) (n : ℕ) (key : List ℕ)
      → is_ascii os user ≡ true
      → check os user (hash_text os scheme_name salt (suc n) key) (user, given)
        ≡ (if os.pbkdf2 (os.to_utf8 given) salt (suc n) == key then passed else answered 401)
  unfolding check
  check-hash user given salt n key ascii =
      rw (ascii, list_beq_refl user, verify_password-hash given salt n key) refl

  -- For a password that is not empty and at least one iteration `hash_password` answers, and with its hash
  -- and a user's name of ASCII without a colon configured, a request that carries the name and any password
  -- as Basic authentication passes exactly where the two passwords have one key, and is answered 401
  -- otherwise: the configured password always passes.
  pub auth_dispatch-hash_password :
      (c : ℕ) (cs salt : Text) (n : ℕ) (user given : Text) (r : Request)
      → is_ascii os user ≡ true
      → contains user b':' ≡ false
      → r.path == codes "/healthz" ≡ false
      → r.authorization ≡ some (codes "Basic " ++ os.b64encode (os.to_utf8 (user ++ b':' ∷ given)))
      → (h : Text) × (hash_password os (c ∷ cs) salt (suc n) ≡ some h)
        × (auth_dispatch os user h r ≡ (
            if os.pbkdf2 (os.to_utf8 given) salt (suc n)
              == os.pbkdf2 (os.to_utf8 (c ∷ cs)) salt (suc n)
            then passed
            else answered 401))
  unfolding hash_password derive auth_dispatch decoded after_prefix
  auth_dispatch-hash_password c cs salt n user given r ascii plain guarded carried =
      let key = os.pbkdf2 (os.to_utf8 (c ∷ cs)) salt (suc n) in
      let text = user ++ b':' ∷ given in
      (
        hash_text os scheme_name salt (suc n) key,
        refl,
        rw
            (
              guarded,
              carried,
              laws.b64decode-b64encode (os.to_utf8 text),
              laws.from_utf8-to_utf8 text,
            )
            (ap (check os user (hash_text os scheme_name salt (suc n) key))
                (partition-append b':' user given plain)
              ∙ check-hash user given salt n key ascii),
      )

  -- A hash whose iterations are zero, or below it, makes `verify_password` raise for every password.
  verify_password-no_iterations :
      (given : Text) (salt : List ℕ) (key : List ℕ)
      → verify_password os given (hash_text os scheme_name salt 0 key) ≡ none
  unfolding verify_password verify_parts compare_keys derive
  verify_password-no_iterations given salt key =
      rw
        (
          split_hash salt 0 key,
          laws.parse_int-print_int 0,
          laws.b64decode-b64encode salt,
          laws.b64decode-b64encode key,
        )
        refl
