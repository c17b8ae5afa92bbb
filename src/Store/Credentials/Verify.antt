-- ===== src/Store/Credentials/Verify.antt =====
-- Which credentials internal/store/auth.go accepts after they were set.
use network_enumerator.Common.{
  hex_encode, IsBytes, hex_decode-hex_encode, hex_encode-injective, suc, ◌≡◌, refl, ap, ◌∙◌, ◌↔◌,
  Bool, true, ◌&&◌, Option, none, some, ◌++◌, Text, text_eq_iff, is_empty, if◌then◌else◌, arith,
}
use network_enumerator.Store.Schema.{Tables, AuthRow}
use network_enumerator.Store.Sql.{Db, ok, ◌>>◌, query, exec, statement, tick, value, IsHealthy}
use network_enumerator.Store.Sql.Runs.{run->>=, run->>, run-query, run-exec, run-statement}
use network_enumerator.Store.Credentials.{
  insert_auth, update_auth, replace_auth, default_username, default_password, hash_password,
  credentials, matches, if_none, ensure_default_auth, verify_credentials, update_credentials,
}

and_iff : (a b : Bool) → ((a && b) ≡ true) ↔ ((a ≡ true) × (b ≡ true))
and_iff a b = ground arith

accepts_iff :
    {P : Type 0} (o : Option Bool) (x : Bool) → o ≡ some x → ((x ≡ true) ↔ P) → (o ≡ some true) ↔ P
accepts_iff o x e i = (λ h. i.0 (cc), λ p. e ∙ ap some (i.1 p))

module _ (sha256 : Text → Text) (digest : (s : Text) → IsBytes (sha256 s)) where
  -- The credentials `u'`, `p'` match a row made from `u`, `p` and the salt `b`.
  matches_iff :
      (u p u' p' b : Text)
      → IsBytes b
      → (matches sha256 u' p' (some (credentials sha256 u p (hex_encode b))) ≡ true)
        ↔ ((u' ≡ u) × (sha256 (b ++ p') ≡ sha256 (b ++ p)))
  unfolding hash_password
  matches_iff u p u' p' b hb = rw (hex_decode-hex_encode b hb) (
    (λ h.
        let (name, hash) = (and_iff _ _).0 h in
        (
          (text_eq_iff u' u).0 name,
          hex_encode-injective _ _ (digest _) (digest _) ((text_eq_iff _ _).0 hash),
        )),
    λ h. (and_iff _ _).1 ((text_eq_iff u' u).1 h.0, (text_eq_iff _ _).1 (ap hex_encode h.1)),
  )

  verify_credentials_lem :
      (u p : Text) (d : Db)
      → IsHealthy d
      → verify_credentials sha256 u p d ≡ ok (matches sha256 u p d.tables.auth) (tick d)
  unfolding verify_credentials
  verify_credentials_lem u p d h = rw (verify_credentials, h d.clock) refl

  -- On a healthy database with credentials, after `UpdateCredentials` with the bytes `b` of the random
  -- generator as salt, `VerifyCredentials` accepts exactly the new user name with a password that,
  -- after the salt, has the digest of the new one.
  pub update_credentials_lem :
      (u p u' p' b : Text) (row : AuthRow) (d : Db)
      → IsHealthy d
      → IsBytes b
      → d.tables.auth ≡ some row
      → (value ((update_credentials sha256 u p (some b) >> verify_credentials sha256 u' p') d)
          ≡ some true)
        ↔ ((u' ≡ u) × (sha256 (b ++ p') ≡ sha256 (b ++ p)))
  unfolding update_credentials
  update_credentials_lem u p u' p' b row d healthy bytes has =
      let new = credentials sha256 u p (hex_encode b) in
      let d' : Db = record d { tables = update_auth new d.tables; clock = suc d.clock } in
      let now : d'.tables.auth ≡ some new = ap (replace_auth new) has in
      let add_new = exec (update_auth new) in
      accepts_iff _ (matches sha256 u' p' (some new))
        (ap value (
            run->> add_new (verify_credentials sha256 u' p') d
              (run-exec (update_auth new) d (healthy d.clock))
            ∙ verify_credentials_lem u' p' d' healthy)
          ∙ rw now refl)
        (matches_iff u p u' p' b bytes)

  -- On a healthy database without credentials, after `EnsureDefaultAuth` with the bytes `b` of the
  -- random generator as salt, `VerifyCredentials` accepts exactly the user name admin with a password
  -- that, after the salt, has the digest of the given one, or of the default one if none is given.
  pub ensure_default_auth_lem :
      (p u' p' b : Text) (d : Db)
      → IsHealthy d
      → IsBytes b
      → d.tables.auth ≡ none
      → (value ((ensure_default_auth sha256 p (some b) >> verify_credentials sha256 u' p') d)
          ≡ some true)
        ↔ ((u' ≡ default_username)
            × (sha256 (b ++ p') ≡ sha256 (b ++ (if is_empty p then default_password else p))))
  unfolding ensure_default_auth
  ensure_default_auth_lem p u' p' b d healthy bytes none_yet =
      let chosen = if is_empty p then default_password else p in
      let new = credentials sha256 default_username chosen (hex_encode b) in
      let d' : Db = record d {
        tables = record (d.tables) { auth = some new };
        clock = suc (suc d.clock);
      } in
      let add_new = statement (insert_auth new) in
      accepts_iff _ (matches sha256 u' p' (some new))
        (ap value (
          run->> (ensure_default_auth sha256 p (some b)) (verify_credentials sha256 u' p') d (
            run->>= (query (λ (t : Tables). t.auth)) (if_none sha256 p (some b)) d
              (run-query (λ (t : Tables). t.auth) d (healthy d.clock))
            ∙ ap (λ found. if_none sha256 p (some b) found (tick d)) none_yet
            ∙ (run-statement (insert_auth new) (tick d) (healthy (suc d.clock)) (rw none_yet refl)))
          ∙ verify_credentials_lem u' p' d' healthy))
        (matches_iff default_username chosen u' p' b bytes)
