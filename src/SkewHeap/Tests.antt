-- ===== src/SkewHeap/Tests.antt =====
-- The heap operations on two small heaps, and the theorems about them there.
use oshub.Prelude.{◌≡◌, refl, ltb, ◌==◌, if◌then◌else◌, arith}
use oshub.SkewHeap.{Store, merge, remove}
use oshub.SkewHeap.Tree
use oshub.SkewHeap.Tree.{Tree, leaf, node}
use oshub.SkewHeap.Merge.{Merged, merge-Merged}
use oshub.SkewHeap.Remove.{Top, remove-Top}

-- 1 above 4, and 2 alone; a smaller number is less.
abbrev two_heaps : Store
two_heaps = record {
  parent = λ p. if p == 4 then 1 else 0;
  left = λ p. if p == 1 then 4 else 0;
  right = λ _. 0;
}

abbrev one_four : Tree
one_four = node (node leaf 4 leaf) 1 leaf

one_four-Top : Top two_heaps 1 one_four
one_four-Top = (
  (refl, λ e. omega (arith, e), refl, (refl, λ e. omega (arith, e), refl, refl, refl), refl),
  λ x. ground arith,
)

merge-Merged_example :
    Merged two_heaps 0 0 (Tree.merge ltb one_four (node leaf 2 leaf)) (merge ltb 9 1 2 two_heaps)
merge-Merged_example =
    merge-Merged ltb 9 two_heaps 0 0 1 2 one_four (node leaf 2 leaf) one_four-Top.0
      (refl, λ e. omega (arith, e), refl, refl, refl) (λ x. ground arith) (omega arith)

merged_tree :
    Tree.merge ltb one_four (node leaf 2 leaf) ≡ node (node leaf 2 leaf) 1 (node leaf 4 leaf)
unfolding Tree.merge
merged_tree = refl

remove-Top_example :
    let (root, s') = remove ltb 9 1 1 two_heaps in
    Top s' root (Tree.merge ltb (node leaf 4 leaf) leaf)
remove-Top_example = remove-Top ltb 9 two_heaps 1 (node leaf 4 leaf) leaf one_four-Top (omega arith)
