-- ===== src/Common/Order.antt =====
-- `Ordering` and what the sorts use of it.
use Prim.Native.Nat.{Ordering}
use mathlib.Core.Bool.{Bool, true, false}

-- `Ordering::then_with`
abbrev pub then_with : Ordering → Ordering → Ordering
then_with Ordering.lt _ = Ordering.lt
then_with Ordering.eq next = next
then_with Ordering.gt _ = Ordering.gt

abbrev pub is_greater : Ordering → Bool
is_greater Ordering.gt = true
is_greater _ = false
