-- ===== src/Vamana/DistSet/Sorting.antt =====
-- `Sort`: from a prefix that is in order, the whole list is put in order.
use mathlib.Core.List.{Perm, append-nil, perm_middle, reverse, reverse_perm}
use mathlib.Core.List.Perm
use semadb.Base.{Bool-cases, List, drop, inl, inr, take, take-append-drop, [], ◌++◌, ◌∷◌}
use semadb.Base.Float.{float32_lt}
use semadb.Vamana.DistSet.{DistSet, DistSetElem, insert_last, sift, sort, sort_rest}
use semadb.Vamana.DistSet.Sift.{All-insert_last, AreNumbers, Ascending, insert_last-Ascending}

sift-perm : (x : DistSetElem) (l : List DistSetElem) → Perm (sift x l) (x ∷ l)
unfolding sift
sift-perm x [] = Perm.refl (x ∷ [])
sift-perm x (y ∷ l) = elim (Bool-cases (float32_lt x.distance y.distance)) [
  | inl t ↦ rw t (Perm.trans (Perm.cons y (sift-perm x l)) (Perm.swap x y l))
  | inr f ↦ rw f (Perm.refl (x ∷ y ∷ l))
]

insert_last-perm : (l : List DistSetElem) (x : DistSetElem) → Perm (insert_last l x) (x ∷ l)
unfolding insert_last
insert_last-perm l x =
    Perm.trans (reverse_perm (sift x (reverse l)))
      (Perm.trans (sift-perm x (reverse l)) (Perm.cons x (reverse_perm l)))

sort_rest-perm : (sorted rest : List DistSetElem) → Perm (sort_rest sorted rest) (sorted ++ rest)
unfolding sort_rest
sort_rest-perm sorted [] = rw append-nil (Perm.refl sorted)
sort_rest-perm sorted (x ∷ rest) = Perm.trans (sort_rest-perm (insert_last sorted x) rest) (
    Perm.trans (Perm.append_right rest (insert_last-perm sorted x))
      (Perm.symm (perm_middle sorted rest)))

sort_rest-Ascending :
    (sorted rest : List DistSetElem)
    → AreNumbers sorted
    → AreNumbers rest
    → Ascending sorted
    → Ascending (sort_rest sorted rest)
unfolding sort_rest
sort_rest-Ascending sorted [] ns nr a = a
sort_rest-Ascending sorted (x ∷ rest) ns nr a =
    sort_rest-Ascending (insert_last sorted x) rest (All-insert_last _ sorted x nr.0 ns) nr.1
      (insert_last-Ascending sorted x nr.0 ns a)

-- `Sort` puts the items in order, closest first, and neither loses nor invents one, if the items that
-- are marked as sorted are in order and the distances are numbers.
pub sort-Ascending :
    (ds : DistSet)
    → AreNumbers (take ds.sorted_until ds.items)
    → AreNumbers (drop ds.sorted_until ds.items)
    → Ascending (take ds.sorted_until ds.items)
    → Ascending (sort ds).items × Perm (sort ds).items ds.items
unfolding sort
sort-Ascending ds ns nr a = (
  sort_rest-Ascending _ _ ns nr a,
  rw (take-append-drop ds.sorted_until ds.items) at
      (sort_rest-perm (take ds.sorted_until ds.items) (drop ds.sorted_until ds.items)),
)
