-- ===== src/Auth/Password.antt =====
-- src/auth.rs: who is let in as the administrator.
use kinetix.Base.{
  ℕ, ◌≡◌, ◌≢◌, ◌↔◌, refl, ap, sym, subst, ◌∙◌, arith, Bool, true, false, Option, none, some, String,
  str_eq, ltb, if◌then◌else◌, Bool-cases, inl, inr, ◌⊎◌, ok, if_holds,
}
use Prim.Native.String.{len}
use kinetix.Base.Keyed.{lookup, string_eq, lookup-remove}
use kinetix.Auth.{
  Sessions, AdminState, Credentials, valid, valid_until, revoke_all, stored_admin_hash,
  verify_against, verify_admin_password, set_admin_password, authenticate, authenticate_cookie,
  authenticate_header,
}
use kinetix.Auth.Live.{is_live}
use text.Mathlib.TextEquality.{eq_iff}

revoked-valid : (s : Sessions) (t : String) (now : ℕ) → (valid (revoke_all s) t now).1 ≡ false
unfolding valid revoke_all lookup valid_until
revoked-valid s t now = ground arith

valid_until-eq :
    (s : Sessions) (t : String) (o : Option ℕ) (now : ℕ) → (valid_until s t o now).1 ≡ is_live o now
unfolding valid_until
valid_until-eq s t none now = refl
valid_until-eq s t (some exp) now = ground arith

valid-eq :
    (s : Sessions) (t : String) (now : ℕ)
    → (valid s t now).1 ≡ (if str_eq t "" then false else is_live (lookup t s.inner) now)
unfolding valid
valid-eq s t now = ground (arith, valid_until-eq s t (lookup t s.inner) now)

-- A check leaves what is known of a token, or drops it.
valid_until-lookup :
    (s : Sessions) (x t : String) (o : Option ℕ) (now : ℕ)
    → (lookup t (valid_until s x o now).0.inner ≡ lookup t s.inner)
      ⊎ (lookup t (valid_until s x o now).0.inner ≡ none)
unfolding valid_until
valid_until-lookup s x t none now = inl refl
valid_until-lookup s x t (some exp) now = elim (Bool-cases (ltb now exp)) [
  | inl l ↦ rw l (inl refl)
  | inr l ↦ rw l (elim (Bool-cases (str_eq x t)) [
    | inl e ↦ inr (rw (lookup-remove x t s.inner, e) refl)
    | inr e ↦ inl (rw (lookup-remove x t s.inner, e) refl)
  ])
]

valid-lookup :
    (s : Sessions) (x t : String) (now : ℕ)
    → (lookup t (valid s x now).0.inner ≡ lookup t s.inner)
      ⊎ (lookup t (valid s x now).0.inner ≡ none)
unfolding valid
valid-lookup s x t now =
    if_holds
      (λ (r : Sessions × Bool).
        (lookup t r.0.inner ≡ lookup t s.inner) ⊎ (lookup t r.0.inner ≡ none))
      (str_eq x "") _ _ (inl refl) (valid_until-lookup s x t _ now)

-- What is dropped while one token is checked makes no other token valid.
valid-valid :
    (s : Sessions) (x t : String) (now : ℕ)
    → (valid (valid s x now).0 t now).1 ≡ true
    → (valid s t now).1 ≡ true
valid-valid s x t now h =
    let before = valid-eq s t now in
    let after = valid-eq (valid s x now).0 t now in
    elim (valid-lookup s x t now) [
      | inl e ↦
          before ∙ sym (ap (λ o. if str_eq t "" then false else is_live o now) e) ∙ sym after ∙ h
      | inr e ↦
          absurd (
            ground
              (arith, sym h ∙ after ∙ ap (λ o. if str_eq t "" then false else is_live o now) e))
    ]

module _ (hash : String → String) (trim : String → String) where
  -- Once a password is set, the password that is accepted is that text without the space around it
  -- and no other, and no session from before is valid. (Hashes do not collide.)
  pub set_admin_password-verify :
      ((a b : String) → hash a ≡ hash b → a ≡ b)
      → (st : AdminState) (password : String) (done : Bool)
      → (set_admin_password hash trim st password done).1 ≡ ok tt
      → let st' = (set_admin_password hash trim st password done).0 in
        ((q : String) → (verify_admin_password hash trim st' q ≡ true) ↔ (q ≡ trim password))
        × ((t : String) (now : ℕ) → (valid st'.sessions t now).1 ≡ false)
  unfolding set_admin_password verify_admin_password stored_admin_hash verify_against
  set_admin_password-verify injective st password done h =
      elim (Bool-cases (ltb (len (trim password)) 8)) [
        | inl short ↦ absurd (ground (arith, rw short at h))
        | inr long ↦ elim (Bool-cases done) [
          | inl e ↦
              rw (long, e)
                (
                  (λ q. (
                    λ v. injective q (trim password) ((eq_iff (hash q) (hash (trim password))).0 v),
                    λ p. (eq_iff (hash q) (hash (trim password))).1 (ap hash p),
                  )),
                  λ t now. revoked-valid st.sessions t now,
                )
          | inr e ↦ absurd (ground (arith, rw (long, e) at h))
        ]
      ]

  -- Let in by a live session, or by the password in the header.
  abbrev pub LetIn : AdminState → Credentials → String → ℕ → Type 0
  LetIn st c t now =
      (((c.cookie_token ≡ some t) ⊎ (c.header_token ≡ some t))
        × ((valid st.sessions t now).1 ≡ true))
      ⊎ ((c.header_token ≡ some t) × (verify_admin_password hash trim st t ≡ true))

  header-LetIn :
      (st : AdminState) (header : Option String) (t : String) (now : ℕ)
      → (authenticate_header hash trim st header now).1 ≡ ok t
      → (header ≡ some t)
        × (((valid st.sessions t now).1 ≡ true) ⊎ (verify_admin_password hash trim st t ≡ true))
  unfolding authenticate_header verify_admin_password stored_admin_hash
  header-LetIn st none t now h = absurd (ground (arith, h))
  header-LetIn st (some x) t now h = elim (Bool-cases (valid st.sessions x now).1) [
    | inl live ↦
        let same : x ≡ t = ground (arith, rw live at h) in
        (ap some same, inl (subst (λ y. (valid st.sessions y now).1 ≡ true) same live))
    | inr dead ↦ elim (Bool-cases (verify_admin_password hash trim st x)) [
      | inl good ↦
          let same : x ≡ t = ground (arith, rw (dead, good) at h) in
          (ap some same, inr (subst (λ y. verify_admin_password hash trim st y ≡ true) same good))
      | inr bad ↦ absurd (ground (arith, rw (dead, bad) at h))
    ]
  ]

  cookie-LetIn :
      (st : AdminState) (cookie header : Option String) (t : String) (now : ℕ)
      → (authenticate_cookie hash trim st cookie header now).1 ≡ ok t
      → LetIn st (record { cookie_token = cookie; header_token = header }) t now
  unfolding authenticate_cookie verify_admin_password stored_admin_hash
  cookie-LetIn st none header t now h =
      let (e, way) = header-LetIn st header t now h in
      elim way [ inl live ↦ inl (inr e, live) | inr good ↦ inr (e, good) ]
  cookie-LetIn st (some x) header t now h = elim (Bool-cases (valid st.sessions x now).1) [
    | inl live ↦
        let same : x ≡ t = ground (arith, rw live at h) in
        inl (inl (ap some same), subst (λ y. (valid st.sessions y now).1 ≡ true) same live)
    | inr dead ↦
        let st' = record st { sessions = (valid st.sessions x now).0 } in
        let (e, way) = header-LetIn st' header t now (rw dead at h) in
        elim way [
          | inl live ↦ inl (inr e, valid-valid st.sessions x t now live)
          | inr good ↦ inr (e, good)
        ]
  ]

  -- The administrator is let in only past Cloudflare's check, where one is configured, with a token
  -- of the request that is a live session, or with the password in its header.
  pub authenticate-LetIn :
      (st : AdminState) (access : Option Bool) (c : Credentials) (t : String) (now : ℕ)
      → (authenticate hash trim st access c now).1 ≡ ok t
      → (access ≢ some false) × LetIn st c t now
  unfolding authenticate
  authenticate-LetIn st none c t now h = (λ e. ground (arith, e), cookie-LetIn st _ _ t now h)
  authenticate-LetIn st (some true) c t now h =
      (λ e. ground (arith, e), cookie-LetIn st _ _ t now h)
  authenticate-LetIn st (some false) c t now h = absurd (ground (arith, h))
