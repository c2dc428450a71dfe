-- ===== src/Writer/Group.antt =====
-- Grouping and upserting: the events of a batch are summed by key, and each sum is merged into the row
-- of its key. Under the law of the section this is the same as to merge one event after the other.
use grokcli_2api.Base.{
  ◌≡◌, refl, Bool, Option, none, some, List, [], ◌∷◌, ◌++◌, get_or, if◌then◌else◌,
}

unfoldable pub set_key {ℓ κ} : {K : Type ℓ} {A : Type κ} → (K → K → Bool) → K → A → (K → A) → K → A
set_key same k v f j = if same k j then v else f j

module _ {K E D R : Type 0} (same : K → K → Bool) (add : E → D → D) (fresh : D)
    (merge : D → R → R) where
  -- `row = grouped.setdefault(k, fresh)`, and what the loop adds to it.
  unfoldable pub gather : List (K × E) → (K → Option D) → K → Option D
  unfolding set_key
  gather [] sums = sums
  gather ((k, e) ∷ es) sums = gather es (set_key same k (some (add e (get_or (sums k) fresh))) sums)

  unfoldable pub merge_sum : Option D → R → R
  merge_sum none row = row
  merge_sum (some d) row = merge d row

  -- The statement that merges all sums.
  unfoldable pub merge_all : (K → Option D) → (K → R) → K → R
  unfolding merge_sum
  merge_all sums table k = merge_sum (sums k) (table k)

  unfoldable pub apply_batch : List (K × E) → (K → R) → K → R
  unfolding gather merge_all
  apply_batch es table = merge_all (gather es (λ k. none)) table

  -- One event by itself.
  unfoldable pub apply_one : K → E → (K → R) → K → R
  unfolding set_key
  apply_one k e table = set_key same k (merge (add e fresh) (table k)) table

  unfoldable pub apply_each : List (K × E) → (K → R) → K → R
  unfolding apply_one
  apply_each [] table = table
  apply_each ((k, e) ∷ es) table = apply_each es (apply_one k e table)

  pub apply_each-append :
      (xs ys : List (K × E)) (table : K → R)
      → apply_each (xs ++ ys) table ≡ apply_each ys (apply_each xs table)
  unfolding apply_each
  apply_each-append [] ys table = refl
  apply_each-append ((k, e) ∷ xs) ys table = apply_each-append xs ys (apply_one k e table)
