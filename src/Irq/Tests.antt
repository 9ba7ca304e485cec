-- ===== src/Irq/Tests.antt =====
-- Waits for an interrupt with the record of kernel/src/irq.rs.
use tanix.Irq.{no_irqs, sys_wait_irq}
use tanix.Irq.Wait.{Arrives, Delivered, Serves, sys_wait_irq-Serves, sys_wait_irq-none}
use tanix.Prelude.{ℕ, ◌≡◌, none, List, [], ◌∷◌, arith, false, length-replicate}

-- Two rounds, the second with the interrupts 50 and 48.
abbrev two_rounds : List (List ℕ)
two_rounds = (30 ∷ []) ∷ (50 ∷ 48 ∷ []) ∷ []

sys_wait_irq-Serves_example : Serves 48 (sys_wait_irq 48 two_rounds no_irqs)
sys_wait_irq-Serves_example =
    sys_wait_irq-Serves 48 two_rounds no_irqs (omega arith) (omega arith)
      (length-replicate 96 false) (Delivered.next (Delivered.first (Arrives.later Arrives.now)))

sys_wait_irq-none_example : sys_wait_irq 200 ((200 ∷ []) ∷ []) no_irqs ≡ none
sys_wait_irq-none_example =
    sys_wait_irq-none 200 ((200 ∷ []) ∷ []) no_irqs (omega arith) (omega arith)
