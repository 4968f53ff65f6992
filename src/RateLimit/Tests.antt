-- ===== src/RateLimit/Tests.antt =====
-- Two addresses and a limit of two.
use kinetix.Base.{
  ℕ, ◌≤◌, ◌≡◌, refl, some, none, List, [], ◌∷◌, String, Option, seconds, arith, get, wrapping_add,
}
use kinetix.RateLimit.{new, check, check_ip, answer, sweep, put}
use kinetix.RateLimit.Windows.{served, served_within}

abbrev calls : List (ℕ × Option String)
calls =
    (seconds 10, some "10.0.0.1")
    ∷ (seconds 20, some "10.0.0.2")
    ∷ (seconds 30, some "10.0.0.1")
    ∷ (seconds 40, none)
    ∷ (seconds 69, some "10.0.0.1")
    ∷ []

calls-served : served "10.0.0.1" (seconds 10) (new 2) calls ≡ 2
unfolding served check check_ip answer sweep put get wrapping_add
calls-served = refl

served_within_example : served "10.0.0.1" (seconds 10) (new 2) calls ≤ 2
served_within_example =
    served_within "10.0.0.1" (seconds 10) 2 calls (omega arith)
      (
        (omega arith, omega arith),
        (
          (omega arith, omega arith),
          (
            (omega arith, omega arith),
            ((omega arith, omega arith), ((omega arith, omega arith), tt)),
          ),
        ),
      )
      (omega arith)
