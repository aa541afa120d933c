-- ===== src/App/Health/Errors.antt =====
-- app/Application.cpp: the errors that the health reports print.
use aeb_node.Prelude.{ℕ, ◌+◌, ◌-◌, ◌%◌, ◌^◌, ◌<◌, ◌≡◌, refl, List, [], ◌∷◌, All, arith}
use aeb_node.App.Health.{report_health, report_all}

abbrev pub sum : List ℕ → ℕ
sum [] = 0
sum (n ∷ ns) = n + sum ns

report_all-next :
    (a p k e r : ℕ)
    → a ≡ (e + 2 ^ 64 - r) % 2 ^ 64
    → (e + p) % 2 ^ 64 ≡ k % 2 ^ 64
    → r < 2 ^ 64
    → (r + (a + p)) % 2 ^ 64 ≡ k % 2 ^ 64
report_all-next a p k e r h i l = omega arith

-- However often the health is reported, the errors printed sum up to the growth of the counter from what
-- had been reported before to the last value seen, in the arithmetic of 64-bit words.
pub report_all-sum :
    (counters : List ℕ) (reported : ℕ)
    → reported < 2 ^ 64
    → All (λ n. n < 2 ^ 64) counters
    → (reported + sum (report_all counters reported).0) % 2 ^ 64
      ≡ (report_all counters reported).1 % 2 ^ 64
unfolding report_all report_health
report_all-sum [] reported h b = omega arith
report_all-sum (e ∷ counters) reported h b =
    report_all-next _ (sum (report_all counters e).0) (report_all counters e).1 e reported refl
      (report_all-sum counters e b.0 b.1) h
