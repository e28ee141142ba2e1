-- ===== src/Tests/Sets.antt =====
-- nsd/set.c at small inputs.
use Prim.Native.Char.{code}
use Prim.Native.String.{String}
use anansi.Common.{
  ◌≡◌, refl, Option, none, some, List, [], ◌∷◌, arith, Bytes, leb, str_eq, str_case_eq, to_lower,
  shift_down,
}
use anansi.Set
use anansi.Set.{Field, NsSet, create, put, matches, find_cmp, get_cmp, get, update, merge}
use anansi.Set.Split.{split}
use anansi.Set.View.{IsValid, view}
use anansi.Set.Lookup.{first, clashes, value_of, named, unique_cmp-count}
use anansi.Set.Change.{or_else}
use anansi.Set.Combine.{get-merge}
use anansi.Set.Split.{fields_of, select, AllNamed, AllValid, fields_of-split}

abbrev codes : String → Bytes
codes String.[] = []
codes (String.◌∷◌ c s) = code c ∷ codes s

program : Unit {0}
unfolding create put Set.grow Set.realloc Set.find_from find_cmp matches get_cmp get Set.iget
    Set.delete Set.delete_key update Set.merge_one Set.merge_from merge str_eq str_case_eq to_lower
    Set.copy_from Set.copy Set.move Set.trunc shift_down Set.find Set.unique_from Set.unique_cmp
    Set.unique
program = tt

abbrev host : Option Bytes
host = some (codes "Host")

abbrev port : Option Bytes
port = some (codes "a.Port")

abbrev field_of : Option Bytes → Bytes → Field
field_of name value = record { name = name; value = some value }

abbrev fields_two : List Field
fields_two = field_of host (codes "x") ∷ field_of port (codes "80") ∷ []

abbrev two : NsSet
two = record { name = none; size = 2; max_size = 2; fields = fields_two }

two-IsValid : IsValid two
two-IsValid = record { fits = omega arith; allocated = refl }

-- The third field does not fit: the array grows to twice the new size.
put_grows : (put two port (some [])).0.max_size ≡ 6
unfolding program
put_grows = refl

iget_host : Set.iget two (some (codes "hOST")) ≡ some (codes "x")
unfolding program
iget_host = refl

get_host : get two (some (codes "hOST")) ≡ none
unfolding program
get_host = refl

unique_cmp-count_example :
    Set.unique_cmp str_eq two (codes "Host") ≡ leb (clashes str_eq (codes "Host") (view two)) 1
unique_cmp-count_example = unique_cmp-count str_eq (codes "Host") two two-IsValid

abbrev low : NsSet
low = record { name = none; size = 1; max_size = 1; fields = field_of (some []) (codes "z") ∷ [] }

low-IsValid : IsValid low
low-IsValid = record { fits = omega arith; allocated = refl }

get-merge_example :
    (get (merge two low) host
      ≡ value_of
          (or_else (first (named str_eq host) (view two)) (first (named str_eq host) (view low))))
    × IsValid (merge two low)
get-merge_example = get-merge two low host two-IsValid low-IsValid

two-AllNamed : AllNamed (view two)
two-AllNamed = ((λ e. cc), ((λ e. cc), tt))

fields_of-split_example :
    (out : List NsSet) × (split two b'.' ≡ some out)
    × AllValid out
    × ((q : Option Bytes) → fields_of out q ≡ select b'.' q (view two))
fields_of-split_example = fields_of-split two b'.' (λ e. cc) two-IsValid two-AllNamed
