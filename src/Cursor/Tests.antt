-- ===== src/Cursor/Tests.antt =====
-- A walk of a cursor on a small tree in memory.
use frostfire.Prelude.{◌≡◌, refl, [], arith}
use frostfire.BTree.Action.{◌>>=◌}
use frostfire.BTree.Memory.{memory_pages}
use frostfire.BTree.Runs.{Run}
use frostfire.BTree.Values.{Calm}
use frostfire.BTree.Forest.{forest_laws, forest, planted, both, planted-IsTree}
use frostfire.Cursor.Defs.{close, descend_leftmost}
use frostfire.Cursor.Pins.{descend_leftmost-close}

descend_leftmost-close_example :
    Run
      (λ stack u. (stack ≡ []) × Calm (forest_laws forest) planted u)
      (λ u. ⊥)
      ((descend_leftmost memory_pages 2 4 [] >>= λ (stack, complete). close memory_pages stack)
        planted)
descend_leftmost-close_example =
    descend_leftmost-close (forest_laws forest) planted 0 1 2 4 both planted-IsTree (omega arith)
      (λ i. refl)
