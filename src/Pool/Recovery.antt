-- ===== src/Pool/Recovery.antt =====
-- The soonest recovery of a set of accounts.
use kinetix.Base.{
  ℕ, ◌≤◌, ◌≡◌, refl, sym, ◌∙◌, ◌⊎◌, inl, inr, Option, none, some, List, [], ◌∷◌, String, All, arith,
}
use kinetix.Pool.{AccountRow, recovery, sooner, soonest_from, soonest_recovery}

-- At or before: an unknown recovery bounds nothing, and a known one is preceded by a known one.
abbrev pub Precedes : Option ℕ → Option ℕ → Type 0
Precedes s none = Unit
Precedes none (some t) = ⊥
Precedes (some s) (some t) = s ≤ t

module _ (parse_dt : String → Option ℕ) where
  -- One of the accounts recovers at that time.
  abbrev pub IsOne : Option ℕ → List AccountRow → Type 0
  IsOne s [] = ⊥
  IsOne s (a ∷ accs) = (recovery parse_dt a ≡ s) ⊎ IsOne s accs

  soonest_from-Precedes :
      (o s : Option ℕ) (accs : List AccountRow)
      → Precedes o s
      → Precedes (soonest_from parse_dt o accs) s
  unfolding soonest_from
  soonest_from-Precedes o none accs h = tt
  soonest_from-Precedes o (some t) [] h = h
  soonest_from-Precedes o (some t) (a ∷ accs) h =
      soonest_from-Precedes (sooner parse_dt o (recovery parse_dt a)) (some t) accs
        (sooner-left o (recovery parse_dt a) t h)
    where
      sooner-left :
          (o r : Option ℕ) (t : ℕ) → Precedes o (some t) → Precedes (sooner parse_dt o r) (some t)
      sooner-left o none t h = h
      sooner-left none (some r) t h = absurd h
      sooner-left (some c) (some r) t h = ground arith

  sooner-right : (o r : Option ℕ) → Precedes (sooner parse_dt o r) r
  sooner-right o none = tt
  sooner-right none (some r) = omega arith
  sooner-right (some c) (some r) = ground arith

  All-Precedes :
      (o : Option ℕ) (accs : List AccountRow)
      → All (λ a. Precedes (soonest_from parse_dt o accs) (recovery parse_dt a)) accs
  unfolding soonest_from
  All-Precedes o [] = tt
  All-Precedes o (a ∷ accs) = (
    soonest_from-Precedes (sooner parse_dt o (recovery parse_dt a)) (recovery parse_dt a) accs
        (sooner-right o (recovery parse_dt a)),
    All-Precedes (sooner parse_dt o (recovery parse_dt a)) accs,
  )

  sooner-cases : (o r : Option ℕ) → (sooner parse_dt o r ≡ o) ⊎ (sooner parse_dt o r ≡ r)
  sooner-cases o none = inl refl
  sooner-cases none (some r) = inr refl
  sooner-cases (some c) (some r) = ground arith

  soonest_from-cases :
      (o : Option ℕ) (accs : List AccountRow)
      → (soonest_from parse_dt o accs ≡ o) ⊎ IsOne (soonest_from parse_dt o accs) accs
  unfolding soonest_from
  soonest_from-cases o [] = inl refl
  soonest_from-cases o (a ∷ accs) =
      let next = sooner parse_dt o (recovery parse_dt a) in
      elim (soonest_from-cases next accs) [
        | inr k ↦ inr (inr k)
        | inl e ↦ elim (sooner-cases o (recovery parse_dt a)) [
          | inl f ↦ inl (e ∙ f)
          | inr f ↦ inr (inl (sym (e ∙ f)))
        ]
      ]

  -- What is reported as the soonest recovery is not after the recovery of any of the accounts, and if
  -- there is an account, then it is the recovery of one of them or none is reported.
  pub soonest_recovery-least :
      (accs : List AccountRow)
      → All (λ a. Precedes (soonest_recovery parse_dt accs) (recovery parse_dt a)) accs
        × ((soonest_recovery parse_dt accs ≡ none) ⊎ IsOne (soonest_recovery parse_dt accs) accs)
  unfolding soonest_recovery
  soonest_recovery-least accs = (All-Precedes none accs, soonest_from-cases none accs)
