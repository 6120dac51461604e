-- ===== src/Json/Print/Digits.antt =====
-- The fuel of `decimal`.
use observable_agent_workflo.Prelude.{
  ℕ, zero, suc, ◌<◌, ◌/◌, String, ◌≡◌, refl, Bool-cases, ltb, inl, inr, arith, false,
}
use observable_agent_workflo.Json.Print.{decimal_onto, decimal}

tenth : (n f : ℕ) → ltb n 10 ≡ false → n < suc f → n / 10 < f
tenth n f big h = ground arith

-- More fuel than `decimal` gives does not change what it prints.
decimal_onto_fuel :
    (f g n : ℕ) (rest : String) → n < f → n < g → decimal_onto f n rest ≡ decimal_onto g n rest
unfolding decimal_onto
decimal_onto_fuel zero g n rest h k = ground arith
decimal_onto_fuel (suc f) zero n rest h k = ground arith
decimal_onto_fuel (suc f) (suc g) n rest h k = elim (Bool-cases (ltb n 10)) [
  | inl small ↦ rw small refl
  | inr big ↦ rw big (decimal_onto_fuel f g (n / 10) _ (tenth n f big h) (tenth n g big k))
]

decimal_fuel : (f n : ℕ) → n < f → decimal_onto f n "" ≡ decimal n
unfolding decimal
decimal_fuel f n h = decimal_onto_fuel f (suc n) n "" h (ground arith)
