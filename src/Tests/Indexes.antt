-- ===== src/Tests/Indexes.antt =====
-- nsd/index.c at small inputs.
use Prim.Native.Nat.{Ordering, compare}
use mathlib.Core.List.{Perm}
use anansi.Common.{ℕ, zero, suc, ◌≡◌, refl, [], ◌∷◌, arith, ◌==◌, shift_up, shift_down}
use anansi.Index
use anansi.Index.{NsIndex, is_eq, add, del, dup, find, find_inf, find_multiple}
use anansi.Index.Search.{IsMonotone}
use anansi.Index.Order.{IsValid, view, IsOrder, IsSorted, add-IsSorted, IsSorted-IsMonotone}
use anansi.Tests.Orders.{linear, linear_search}
use anansi.Index.Find.{Bsearch, keep, non_empty, find_multiple-keep}

abbrev cmp : ℕ → ℕ → Ordering
cmp a b = compare a b

compare-IsOrder : IsOrder cmp
compare-IsOrder = record {
  turn_lt = λ a b h. ground arith;
  turn_gt = λ a b h. ground arith;
  turn_eq = λ a b h. ground arith;
  trans = λ a b c h k. ground arith;
}

-- The index of the numbers 5 and 9, with no free slot.
abbrev numbers : NsIndex ℕ
numbers = record { n = 2; max = 2; inc = 2; el = 5 ∷ 9 ∷ [] }

numbers-IsValid : IsValid numbers
numbers-IsValid = record { fits = omega arith; allocated = refl; grows = omega arith }

numbers-IsSorted : IsSorted 0 cmp (view numbers)
numbers-IsSorted zero zero h l = ground arith
numbers-IsSorted zero (suc zero) h l = ground arith
numbers-IsSorted zero (suc (suc j)) h l = absurd (omega arith)
numbers-IsSorted (suc zero) zero h l = absurd (omega arith)
numbers-IsSorted (suc zero) (suc zero) h l = ground arith
numbers-IsSorted (suc zero) (suc (suc j)) h l = absurd (omega arith)
numbers-IsSorted (suc (suc i)) j h l = absurd (omega arith)

numbers-IsMonotone : (k : ℕ) → IsMonotone 0 (cmp k) numbers.el numbers.n
numbers-IsMonotone k =
    IsSorted-IsMonotone 0 cmp compare-IsOrder numbers k numbers-IsValid numbers-IsSorted

abbrev searcher : Bsearch {A = ℕ} 0
searcher = linear_search 0

program : Unit {0}
unfolding add Index.grow Index.place Index.open_slot Index.bin_search Index.bin_loop shift_up del
    Index.del_from shift_down linear
program = tt

add_seven : view (add 0 cmp numbers 7) ≡ 5 ∷ 7 ∷ 9 ∷ []
unfolding program
add_seven = refl

del_five : view (del 0 ◌==◌ numbers 5) ≡ 9 ∷ []
unfolding program
del_five = refl

add-IsSorted_example :
    IsSorted 0 cmp (view (add 0 cmp numbers 7))
    × Perm (view (add 0 cmp numbers 7)) (7 ∷ view numbers)
    × IsValid (add 0 cmp numbers 7)
add-IsSorted_example = add-IsSorted 0 cmp compare-IsOrder numbers 7 numbers-IsValid numbers-IsSorted

find_multiple-keep_example :
    find_multiple 0 searcher.search (cmp 9) numbers
    ≡ non_empty (keep (λ a. is_eq (cmp 9 a)) (view numbers))
find_multiple-keep_example =
    find_multiple-keep 0 (cmp 9) numbers numbers-IsValid searcher (numbers-IsMonotone 9)
