-- ===== src/UrlSpace/Insert.antt =====
-- nsd/urlspace.c: a new branch of TrieAdd, which Ns_IndexAdd puts among the others.
use Prim.Native.Nat.{Ordering}
use anansi.Common.{
  ℕ, zero, suc, ◌≡◌, refl, ap, ◌∙◌, List, [], arith, Bytes, length, take_of_length-le, insert_at,
}
use anansi.Index.{add}
use anansi.Index.Order.{IsValid, view, view-add_any}
use anansi.UrlSpace.{
  Trie, Branches, no_branch, branch, trie_init, to_list, of_list, full_index, cmp_branches,
  insert_branch,
}

-- A branch in front of the `i`th of some branches.
unfoldable pub insert_nth : ℕ → Bytes → Trie → Branches → Branches
insert_nth zero key t bs = branch key t bs
insert_nth (suc i) key t no_branch = branch key t no_branch
insert_nth (suc i) key t (branch w s bs) = branch w s (insert_nth i key t bs)

pub full_index-IsValid : (xs : List (Bytes × Trie)) → IsValid (full_index xs)
full_index-IsValid xs = record { fits = omega arith; allocated = refl; grows = omega arith }

pub view-full_index : (xs : List (Bytes × Trie)) → view (full_index xs) ≡ xs
view-full_index xs = take_of_length-le (length xs) xs (omega arith)

of_list-to_list : (bs : Branches) → of_list (to_list bs) ≡ bs
unfolding of_list to_list
of_list-to_list no_branch = refl
of_list-to_list (branch w t bs) = ap (branch w t) (of_list-to_list bs)

pub of_list-insert_at :
    (r : ℕ) (key : Bytes) (t : Trie) (bs : Branches)
    → of_list (insert_at r (key, t) (to_list bs)) ≡ insert_nth r key t bs
unfolding of_list to_list insert_nth
of_list-insert_at zero key t bs = ap (branch key t) (of_list-to_list bs)
of_list-insert_at (suc r) key t no_branch = refl
of_list-insert_at (suc r) key t (branch w s bs) = ap (branch w s) (of_list-insert_at r key t bs)

module _ (strcmp : Bytes → Bytes → Ordering) where
  pub insert_branch-at :
      (key : Bytes) (t : Trie) (bs : Branches) (r : ℕ)
      → view (add ([], trie_init) (cmp_branches strcmp) (full_index (to_list bs)) (key, t))
        ≡ insert_at r (key, t) (view (full_index (to_list bs)))
      → insert_branch strcmp key t bs ≡ insert_nth r key t bs
  unfolding insert_branch
  insert_branch-at key t bs r e =
      ap of_list e
      ∙ ap (λ ys. of_list (insert_at r (key, t) ys)) (view-full_index (to_list bs))
      ∙ of_list-insert_at r key t bs

  -- With any comparison, the branch is put at one place and the others stay.
  pub insert_branch-insert_nth :
      (key : Bytes) (t : Trie) (bs : Branches)
      → (r : ℕ) × (insert_branch strcmp key t bs ≡ insert_nth r key t bs)
  insert_branch-insert_nth key t bs =
      let xs = to_list bs in
      let (r, e, v) =
        view-add_any ([], trie_init) (cmp_branches strcmp) (full_index xs) (key, t)
          (full_index-IsValid xs) in
      (r, insert_branch-at key t bs r e)
