-- ===== src/Examples/Workflow.antt =====
-- A workflow that counts: its second step fails.
use amoxtli.Common.{◌≡◌, refl, ap, ℕ, ◌+◌, ◌-◌, String, Option, none, some, [], ◌∷◌, arith}
use amoxtli.Workflow.{Step, execution, execute}
use amoxtli.Workflow.Rollback.{Undoes, AllOrNothing, execute-AllOrNothing}

abbrev add_two : Step ℕ String
add_two = record { execute = some (λ n. (none, n + 2)); compensate = some (λ n. (none, n - 2)) }

abbrev fails_half_way : Step ℕ String
fails_half_way = record {
  execute = some (λ n. (some "disk full", n + 1));
  compensate = some (λ n. (none, n - 1));
}

abbrev never_done : ℕ → Option String
never_done n = none

add_two-Undoes : Undoes add_two
add_two-Undoes n = ap (λ m. (none, m)) (omega arith)

fails_half_way-Undoes : Undoes fails_half_way
fails_half_way-Undoes n = ap (λ m. (none, m)) (omega arith)

rolls_back :
    execute never_done (add_two ∷ fails_half_way ∷ []) 5 ≡ (some (execution "disk full"), 5)
unfolding execute
rolls_back = refl

execute-AllOrNothing_example :
    AllOrNothing never_done
      (add_two ∷ fails_half_way ∷ [])
      5
      5
      (execute never_done (add_two ∷ fails_half_way ∷ []) 5)
execute-AllOrNothing_example =
    execute-AllOrNothing never_done (add_two ∷ fails_half_way ∷ []) 5
      (add_two-Undoes, (fails_half_way-Undoes, tt))
