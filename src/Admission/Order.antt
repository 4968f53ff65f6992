-- ===== src/Admission/Order.antt =====
-- The totals do not depend on the order in which the `HashMap` yields the reservations.
use mathlib.Core.List.{Perm, Permᴰ}
use mathlib.Core.Logic.{∥∥₁_elim}
use kinetix.Base.{ℕ, ◌≡◌, refl, sym, ap, ◌∙◌, List, saturating_add_right_comm, arith}
use kinetix.Admission.{Calendar, KeyLedger, ActiveReservation, Totals, add_active, add_all, totals}

Totals-set : IsSet Totals
Totals-set = hlevel

module _ (now day : ℕ) (month : ℕ × ℕ) where
  add_active_right_comm :
      (t : Totals) (a b : ActiveReservation)
      → add_active now day month (add_active now day month t a) b
        ≡ add_active now day month (add_active now day month t b) a
  unfolding add_active
  add_active_right_comm t a b = ground (
    arith,
    saturating_add_right_comm t.requests 1 1,
    saturating_add_right_comm t.tokens a.tokens b.tokens,
  )

  add_all-Permᴰ :
      (t : Totals) {l k : List (ℕ × ActiveReservation)}
      → Permᴰ l k
      → add_all now day month t l ≡ add_all now day month t k
  unfolding add_all
  add_all-Permᴰ t Permᴰ.nil = refl
  add_all-Permᴰ t (Permᴰ.cons {a = a} {b = b} {l₁ = l₁} {l₂ = l₂} e p) =
      rw e (add_all-Permᴰ (add_active now day month t b.1) p)
  add_all-Permᴰ t (Permᴰ.swap {a = a} {b = b} {a' = a'} {b' = b'} {l = l} e f) =
      rw (e, f) (ap (λ (z : Totals). add_all now day month z l) (add_active_right_comm t b'.1 a'.1))
  add_all-Permᴰ t (Permᴰ.trans p q) = add_all-Permᴰ t p ∙ add_all-Permᴰ t q

-- Whatever order the reservations of a key are enumerated in, `current` reports the same requests,
-- tokens, daily spend and monthly spend.
pub totals_of_Perm :
    (cal : Calendar) (l : KeyLedger) (active : List (ℕ × ActiveReservation)) (now_wall now : ℕ)
    → Perm l.active active
    → totals cal (record l { active = active }) now_wall now ≡ totals cal l now_wall now
unfolding totals
totals_of_Perm cal l active now_wall now p =
    ∥∥₁_elim p (Totals-set _ _)
      (λ d. sym (add_all-Permᴰ now (cal.date_naive now_wall) (cal.year_month now_wall) _ d))
