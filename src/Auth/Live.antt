-- ===== src/Auth/Live.antt =====
-- src/auth.rs: a session is live exactly while its history says so.
use kinetix.Base.{
  ℕ, ◌+◌, ◌≤◌, ◌≡◌, refl, ap, sym, subst, ◌∙◌, arith, Bool, false, Option, none, some, List, [],
  ◌∷◌, String, str_eq, ltb, if◌then◌else◌, filter, is_some_and, and_then, Bool-cases, inl, inr,
  if_holds,
}
use kinetix.Base.Keyed.{
  lookup, remove, string_eq, lookup-insert, lookup-remove, lookup-retain, IsDistinct,
  insert-IsDistinct, remove-IsDistinct, retain-IsDistinct,
}
use kinetix.Auth.{Sessions, new, create, valid, valid_until, revoke, revoke_all}
use text.Mathlib.TextEquality.{eq_iff}

pub data SessionEvent : Type 0 where
  created checked : String → ℕ → SessionEvent
  revoked : String → SessionEvent
  all_revoked : SessionEvent

unfoldable pub step : Sessions → SessionEvent → Sessions
step s (created token now) = create s token now
step s (checked token now) = (valid s token now).0
step s (revoked token) = revoke s token
step s all_revoked = revoke_all s

unfoldable pub run : Sessions → List SessionEvent → Sessions
run s [] = s
run s (e ∷ es) = run (step s e) es

-- Times do not go back, from `t` to `now`.
abbrev pub IsOrdered : ℕ → List SessionEvent → ℕ → Type 0
IsOrdered t [] now = t ≤ now
IsOrdered t (created token n ∷ es) now = (t ≤ n) × IsOrdered n es now
IsOrdered t (checked token n ∷ es) now = (t ≤ n) × IsOrdered n es now
IsOrdered t (revoked token ∷ es) now = IsOrdered t es now
IsOrdered t (all_revoked ∷ es) now = IsOrdered t es now

-- The end of a token's session, as its last creation and the revocations after it say.
abbrev pub end_after : ℕ → String → Option ℕ → SessionEvent → Option ℕ
end_after ttl token end (created t n) = if str_eq t token then some (n + ttl) else end
end_after ttl token end (checked t n) = end
end_after ttl token end (revoked t) = if str_eq t token then none else end
end_after ttl token end all_revoked = none

abbrev pub session_end : ℕ → String → Option ℕ → List SessionEvent → Option ℕ
session_end ttl token end [] = end
session_end ttl token end (e ∷ es) = session_end ttl token (end_after ttl token end e) es

abbrev pub is_live : Option ℕ → ℕ → Bool
is_live end now = is_some_and end (λ e. ltb now e)

module _ (ttl : ℕ) (token : String) where
  -- From time `t` on, the map agrees with the history.
  record Agrees (t : ℕ) (end : Option ℕ) (s : Sessions) : Type 0 where
    pub lifetime : s.ttl ≡ ttl
    pub distinct : IsDistinct s.inner
    pub same : (now : ℕ) → t ≤ now → is_live (lookup token s.inner) now ≡ is_live end now

  later-Agrees : (t u : ℕ) (end : Option ℕ) (s : Sessions) → t ≤ u → Agrees t end s → Agrees u end s
  later-Agrees t u end s h a = record {
    lifetime = a.lifetime;
    distinct = a.distinct;
    same = λ now l. a.same now (omega (arith, h, l));
  }

  retained :
      (o : Option ℕ) (n now : ℕ)
      → n ≤ now
      → is_live (and_then o (λ v. if ltb n v then some v else none)) now ≡ is_live o now
  retained none n now h = refl
  retained (some v) n now h = ground (arith, h)

  create-Agrees :
      (t n : ℕ) (end : Option ℕ) (s : Sessions) (x : String)
      → t ≤ n
      → Agrees t end s
      → Agrees n (end_after ttl token end (created x n)) (create s x n)
  unfolding create
  create-Agrees t n end s x h a =
      let kept = filter (λ (e : String × ℕ). ltb n e.1) s.inner in
      record {
        lifetime = a.lifetime;
        distinct =
            insert-IsDistinct x (n + s.ttl) kept (retain-IsDistinct (ltb n) s.inner a.distinct);
        same = λ now l. elim (Bool-cases (str_eq x token)) [
          | inl e ↦ rw (lookup-insert x token (n + s.ttl) kept, e, a.lifetime) refl
          | inr e ↦
              rw
                (
                  lookup-insert x token (n + s.ttl) kept,
                  e,
                  lookup-retain (ltb n) token s.inner a.distinct,
                )
                (retained (lookup token s.inner) n now l ∙ a.same now (omega (arith, h, l)))
        ];
      }

  remove-Agrees :
      (t n : ℕ) (end : Option ℕ) (s : Sessions) (x : String) (exp : ℕ)
      → t ≤ n
      → lookup x s.inner ≡ some exp
      → ltb n exp ≡ false
      → Agrees t end s
      → Agrees n end (record s { inner = remove x s.inner })
  remove-Agrees t n end s x exp h found over a = record {
    lifetime = a.lifetime;
    distinct = remove-IsDistinct x s.inner a.distinct;
    same = λ now l. elim (Bool-cases (str_eq x token)) [
      | inl e ↦
          let at : lookup token s.inner ≡ some exp =
            subst (λ i. lookup i s.inner ≡ some exp) ((eq_iff x token).0 e) found in
          let ended : ltb now exp ≡ false = ground (arith, over, l) in
          rw (lookup-remove x token s.inner, e)
            (sym (sym (a.same now (omega (arith, h, l))) ∙ ap (λ o. is_live o now) at ∙ ended))
      | inr e ↦ rw (lookup-remove x token s.inner, e) (a.same now (omega (arith, h, l)))
    ];
  }

  valid_until-Agrees :
      (t n : ℕ) (end : Option ℕ) (s : Sessions) (x : String) (o : Option ℕ)
      → t ≤ n
      → lookup x s.inner ≡ o
      → Agrees t end s
      → Agrees n end (valid_until s x o n).0
  unfolding valid_until
  valid_until-Agrees t n end s x none h e a = later-Agrees t n end s h a
  valid_until-Agrees t n end s x (some exp) h e a = elim (Bool-cases (ltb n exp)) [
    | inl l ↦ rw l (later-Agrees t n end s h a)
    | inr l ↦ rw l (remove-Agrees t n end s x exp h e l a)
  ]

  valid-Agrees :
      (t n : ℕ) (end : Option ℕ) (s : Sessions) (x : String)
      → t ≤ n
      → Agrees t end s
      → Agrees n end (valid s x n).0
  unfolding valid
  valid-Agrees t n end s x h a =
      if_holds (λ (r : Sessions × Bool). Agrees n end r.0) (str_eq x "") _ _
        (later-Agrees t n end s h a) (valid_until-Agrees t n end s x _ h refl a)

  revoke-Agrees :
      (t : ℕ) (end : Option ℕ) (s : Sessions) (x : String)
      → Agrees t end s
      → Agrees t (end_after ttl token end (revoked x)) (revoke s x)
  unfolding revoke
  revoke-Agrees t end s x a = record {
    lifetime = a.lifetime;
    distinct = remove-IsDistinct x s.inner a.distinct;
    same = λ now l. elim (Bool-cases (str_eq x token)) [
      | inl e ↦ rw (lookup-remove x token s.inner, e) refl
      | inr e ↦ rw (lookup-remove x token s.inner, e) (a.same now l)
    ];
  }

  all-Agrees :
      (t : ℕ) (end : Option ℕ) (s : Sessions) → Agrees t end s → Agrees t none (revoke_all s)
  unfolding revoke_all lookup
  all-Agrees t end s a = record { lifetime = a.lifetime; distinct = tt; same = λ now l. refl }

  run-Agrees :
      (t now : ℕ) (end : Option ℕ) (s : Sessions) (es : List SessionEvent)
      → IsOrdered t es now
      → Agrees t end s
      → Agrees now (session_end ttl token end es) (run s es)
  unfolding run step
  run-Agrees t now end s [] h a = later-Agrees t now end s h a
  run-Agrees t now end s (created x n ∷ es) h a =
      run-Agrees n now _ _ es h.1 (create-Agrees t n end s x h.0 a)
  run-Agrees t now end s (checked x n ∷ es) h a =
      run-Agrees n now _ _ es h.1 (valid-Agrees t n end s x h.0 a)
  run-Agrees t now end s (revoked x ∷ es) h a =
      run-Agrees t now _ _ es h (revoke-Agrees t end s x a)
  run-Agrees t now end s (all_revoked ∷ es) h a = run-Agrees t now _ _ es h (all-Agrees t end s a)

  valid_until-is_live :
      (s : Sessions) (o : Option ℕ) (now : ℕ) → (valid_until s token o now).1 ≡ is_live o now
  unfolding valid_until
  valid_until-is_live s none now = refl
  valid_until-is_live s (some exp) now = ground arith

new-Agrees : (minutes : ℕ) (token : String) → Agrees (new minutes).ttl token 0 none (new minutes)
unfolding new lookup
new-Agrees minutes token = record { lifetime = refl; distinct = tt; same = λ now l. refl }

-- After any history of sessions, in the order of time, a token is valid exactly if it has been
-- created, not revoked since its last creation, alone or with all others, and its lifetime from
-- then on is not over: what was swept or dropped on the way makes no difference.
pub valid-session_end :
    (minutes : ℕ) (token : String) (es : List SessionEvent) (now : ℕ)
    → str_eq token "" ≡ false
    → IsOrdered 0 es now
    → (valid (run (new minutes) es) token now).1
      ≡ is_live (session_end (new minutes).ttl token none es) now
unfolding valid
valid-session_end minutes token es now named h =
    let a =
      run-Agrees (new minutes).ttl token 0 now none (new minutes) es h (new-Agrees minutes token) in
    rw named (
      valid_until-is_live (new minutes).ttl token (run (new minutes) es) _ now
      ∙ a.same now (omega arith))
