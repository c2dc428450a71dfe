-- ===== src/Writer/Grouped.antt =====
-- Summing by key first and merging one event after the other give the same table.
use grokcli_2api.Base.{
  ◌≡◌, ◌∙◌, refl, ap, Bool, true, false, Option, none, some, List, [], ◌∷◌, All, get_or,
}
use mathlib.Core.Path.{subst}
use grokcli_2api.Writer.Group.{
  set_key, gather, merge_sum, merge_all, apply_batch, apply_one, apply_each,
}

-- What grouping asks of a sum and of the merge: that adding an event to a sum and merging it is merging
-- the sum and then the event alone.
pub record Merges {K E D R : Type 0} (same : K → K → Bool) (add : E → D → D) (fresh : D)
    (merge : D → R → R) (Fits : E → Type 0) (IsSum : D → Type 0) : Type 0 where
  pub same_eq : (a b : K) → same a b ≡ true → a ≡ b
  pub sum_fresh : IsSum fresh
  pub sum_add : (e : E) (d : D) → Fits e → IsSum d → IsSum (add e d)
  pub law :
      (e : E) (d : D) (row : R)
      → Fits e
      → IsSum d
      → merge (add e d) row ≡ merge (add e fresh) (merge d row)

module _ {K E D R : Type 0} (same : K → K → Bool) (add : E → D → D) (fresh : D) (merge : D → R → R)
    (Fits : E → Type 0) (IsSum : D → Type 0) (h : Merges same add fresh merge Fits IsSum) where
  abbrev IsOptionSum : Option D → Type 0
  IsOptionSum none = Unit
  IsOptionSum (some d) = IsSum d

  merge_one :
      (e : E) (o : Option D) (row : R)
      → Fits e
      → IsOptionSum o
      → merge (add e (get_or o fresh)) row
        ≡ merge (add e fresh) (merge_sum same add fresh merge o row)
  unfolding merge_sum
  merge_one e none row f s = refl
  merge_one e (some d) row f s = h.law e d row f s

  sum_one : (e : E) (o : Option D) → Fits e → IsOptionSum o → IsSum (add e (get_or o fresh))
  sum_one e none f s = h.sum_add e fresh f h.sum_fresh
  sum_one e (some d) f s = h.sum_add e d f s

  step_key :
      (k : K) (e : E) (sums : K → Option D) (table : K → R) (j : K) (b : Bool)
      → same k j ≡ b
      → Fits e
      → ((i : K) → IsOptionSum (sums i))
      → merge_all same add fresh merge
          (set_key same k (some (add e (get_or (sums k) fresh))) sums)
          table
          j
        ≡ apply_one same add fresh merge k e (merge_all same add fresh merge sums table) j
  unfolding merge_all apply_one set_key merge_sum
  step_key k e sums table j true here f s = rw here (
      subst
        (λ i.
          merge (add e (get_or (sums k) fresh)) (table i)
          ≡ merge (add e fresh) (merge_sum same add fresh merge (sums k) (table k)))
        (h.same_eq k j here) (merge_one e (sums k) (table k) f (s k)))
  step_key k e sums table j false here f s = rw here refl

  sums_kept :
      (k : K) (e : E) (sums : K → Option D) (j : K) (b : Bool)
      → same k j ≡ b
      → Fits e
      → ((i : K) → IsOptionSum (sums i))
      → IsOptionSum (set_key same k (some (add e (get_or (sums k) fresh))) sums j)
  unfolding set_key
  sums_kept k e sums j true here f s = rw here (sum_one e (sums k) f (s k))
  sums_kept k e sums j false here f s = rw here (s j)

  gathered :
      (es : List (K × E)) (sums : K → Option D) (table : K → R)
      → All (λ x. Fits x.1) es
      → ((i : K) → IsOptionSum (sums i))
      → merge_all same add fresh merge (gather same add fresh merge es sums) table
        ≡ apply_each same add fresh merge es (merge_all same add fresh merge sums table)
  unfolding gather apply_each
  gathered [] sums table fits s = refl
  gathered ((k, e) ∷ es) sums table (f, fits) s =
      gathered es (set_key same k (some (add e (get_or (sums k) fresh))) sums) table fits
        (λ i. sums_kept k e sums i (same k i) refl f s)
      ∙ ap (apply_each same add fresh merge es)
          (λ t j. step_key k e sums table j (same k j) refl f s t)

  -- Each group of events is summed before its row is touched, and yet the table is the one that the
  -- events give one after the other.
  pub batch_each :
      (es : List (K × E)) (table : K → R)
      → All (λ x. Fits x.1) es
      → apply_batch same add fresh merge es table ≡ apply_each same add fresh merge es table
  unfolding apply_batch
  batch_each es table fits =
      gathered es (λ k. none) table fits (λ k. tt)
      ∙ ap (apply_each same add fresh merge es) (unfold merge_all merge_sum in refl)
