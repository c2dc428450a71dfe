-- ===== src/Writer/Cutting.antt =====
-- Two batches in a row and one batch of all events give the same table, where the sums merge; and the
-- counters of usage, whose sums do.
use grokcli_2api.Base.{
  ℕ, ◌≡◌, ◌∙◌, refl, sym, ap, String, Bool, true, Option, none, some, List, [], ◌∷◌, ◌++◌, All,
  is_text, str_eq, Bool-cases, inl, inr, eq_iff, arith,
}
use grokcli_2api.Pool.Status.{later}
use grokcli_2api.Writer.Events.{UsagePayload}
use grokcli_2api.Writer.Group.{apply_batch, apply_each, apply_each-append}
use grokcli_2api.Writer.Grouped.{Merges, batch_each}
use grokcli_2api.Writer.Usage.{
  Daily, no_usage, add_daily, merge_daily, request_usage, Bucket, same_bucket, Totals, no_totals,
  add_totals, merge_totals, dims, buckets, daily_of, apply_daily, named, account_totals, key_totals,
  by_account, by_key, apply_totals,
}

pub str_eq_path : (a b : String) → str_eq a b ≡ true → a ≡ b
str_eq_path a b h = (eq_iff a b).0 h

module _ {K E D R : Type 0} (same : K → K → Bool) (add : E → D → D) (fresh : D) (merge : D → R → R)
    (Fits : E → Type 0) (IsSum : D → Type 0) (h : Merges same add fresh merge Fits IsSum) where
  All-both :
      (xs ys : List (K × E))
      → All (λ x. Fits x.1) xs
      → All (λ x. Fits x.1) ys
      → All (λ x. Fits x.1) (xs ++ ys)
  All-both [] ys f g = g
  All-both (x ∷ xs) ys (p, f) g = (p, All-both xs ys f g)

  pub cut-batch :
      (xs ys : List (K × E)) (table : K → R)
      → All (λ x. Fits x.1) xs
      → All (λ x. Fits x.1) ys
      → apply_batch same add fresh merge (xs ++ ys) table
        ≡ apply_batch same add fresh merge ys (apply_batch same add fresh merge xs table)
  cut-batch xs ys table f g =
      batch_each same add fresh merge Fits IsSum h (xs ++ ys) table (All-both xs ys f g)
      ∙ apply_each-append same add fresh merge xs ys table
      ∙ sym (
          batch_each same add fresh merge Fits IsSum h ys (apply_each same add fresh merge xs table)
            g)
      ∙ ap (apply_batch same add fresh merge ys)
          (sym (batch_each same add fresh merge Fits IsSum h xs table f))

bucket_path : (a b : Bucket) → same_bucket a b ≡ true → a ≡ b
unfolding same_bucket
bucket_path a b h = ground (arith, eq_iff a.day b.day, eq_iff a.dim b.dim, eq_iff a.dim_id b.dim_id)

merge_daily-add :
    (e d : Daily) (row : Option Daily)
    → merge_daily (add_daily e d) row ≡ merge_daily (add_daily e no_usage) (merge_daily d row)
unfolding merge_daily add_daily
merge_daily-add e d none = ground arith
merge_daily-add e d (some row) = ground arith

merge_totals-add :
    (e d : Totals) (row : Option Totals)
    → merge_totals (add_totals e d) row ≡ merge_totals (add_totals e no_totals) (merge_totals d row)
unfolding merge_totals add_totals later
merge_totals-add e d none = refl
merge_totals-add e d (some row) = ground arith

Merges-daily : Merges same_bucket add_daily no_usage merge_daily (λ e. Unit) (λ d. Unit)
Merges-daily = record {
  same_eq = bucket_path;
  sum_fresh = tt;
  sum_add = λ e d f h. tt;
  law = λ e d row f h. merge_daily-add e d row;
}

Merges-totals : Merges str_eq add_totals no_totals merge_totals (λ e. Unit) (λ d. Unit)
Merges-totals = record {
  same_eq = str_eq_path;
  sum_fresh = tt;
  sum_add = λ e d f h. tt;
  law = λ e d row f h. merge_totals-add e d row;
}

module _ {A : Type 0} where
  All-Unit : (xs : List A) → All {0, 0} (λ x. Unit) xs
  All-Unit [] = tt
  All-Unit (x ∷ xs) = (tt, All-Unit xs)

buckets-append :
    (day : String) (req : Daily) (ds : List (String × String)) (rest more : List (Bucket × Daily))
    → buckets day req ds (rest ++ more) ≡ buckets day req ds rest ++ more
unfolding buckets
buckets-append day req [] rest more = refl
buckets-append day req ((dim, dim_id) ∷ ds) rest more =
    ap (◌∷◌ (record { day = day; dim = dim; dim_id = dim_id }, req))
      (buckets-append day req ds rest more)

named-append :
    (o : Option String) (t : Totals) (rest more : List (String × Totals))
    → named o t (rest ++ more) ≡ named o t rest ++ more
unfolding named
named-append none t rest more = refl
named-append (some s) t rest more = elim (Bool-cases (is_text s)) [
  | inl text ↦ rw text refl
  | inr blank ↦ rw blank refl
]

daily_of-append :
    (day_of : ℕ → String) (us vs : List (UsagePayload × ℕ))
    → daily_of day_of (us ++ vs) ≡ daily_of day_of us ++ daily_of day_of vs
unfolding daily_of
daily_of-append day_of [] vs = refl
daily_of-append day_of ((p, ts) ∷ us) vs =
    ap (buckets (day_of ts) (request_usage p) (dims p)) (daily_of-append day_of us vs)
    ∙ buckets-append (day_of ts) (request_usage p) (dims p) (daily_of day_of us)
        (daily_of day_of vs)

by_key-append : (us vs : List (UsagePayload × ℕ)) → by_key (us ++ vs) ≡ by_key us ++ by_key vs
unfolding by_key
by_key-append [] vs = refl
by_key-append ((p, ts) ∷ us) vs =
    ap (named p.api_key_id (key_totals p ts)) (by_key-append us vs)
    ∙ named-append p.api_key_id (key_totals p ts) (by_key us) (by_key vs)

by_account-append :
    (us vs : List (UsagePayload × ℕ)) → by_account (us ++ vs) ≡ by_account us ++ by_account vs
unfolding by_account
by_account-append [] vs = refl
by_account-append ((p, ts) ∷ us) vs = elim (Bool-cases p.ok) [
  | inl ok ↦ rw ok (
      ap (named p.account_id (account_totals p)) (by_account-append us vs)
      ∙ named-append p.account_id (account_totals p) (by_account us) (by_account vs))
  | inr failed ↦ rw failed (by_account-append us vs)
]

cut-totals :
    (xs ys : List (String × Totals)) (table : String → Option Totals)
    → apply_totals (xs ++ ys) table ≡ apply_totals ys (apply_totals xs table)
unfolding apply_totals
cut-totals xs ys table =
    cut-batch str_eq add_totals no_totals merge_totals (λ e. Unit) (λ d. Unit) Merges-totals xs ys
      table (All-Unit xs) (All-Unit ys)

-- Two batches of usage give the same daily counters, the same totals of keys and the same totals of
-- accounts as one batch of all their events.
pub usage_cut :
    (day_of : ℕ → String) (us vs : List (UsagePayload × ℕ)) (daily : Bucket → Option Daily)
    (keys accounts : String → Option Totals)
    → (apply_daily day_of (us ++ vs) daily ≡ apply_daily day_of vs (apply_daily day_of us daily))
      × (apply_totals (by_key (us ++ vs)) keys
          ≡ apply_totals (by_key vs) (apply_totals (by_key us) keys))
      × (apply_totals (by_account (us ++ vs)) accounts
          ≡ apply_totals (by_account vs) (apply_totals (by_account us) accounts))
unfolding apply_daily
usage_cut day_of us vs daily keys accounts = (
  ap
        (λ (bs : List (Bucket × Daily)).
          apply_batch same_bucket add_daily no_usage merge_daily bs daily)
        (daily_of-append day_of us vs)
      ∙ cut-batch same_bucket add_daily no_usage merge_daily (λ e. Unit) (λ d. Unit) Merges-daily
          (daily_of day_of us) (daily_of day_of vs) daily (All-Unit (daily_of day_of us))
          (All-Unit (daily_of day_of vs)),
  ap (λ (ts : List (String × Totals)). apply_totals ts keys) (by_key-append us vs)
      ∙ cut-totals (by_key us) (by_key vs) keys,
  ap (λ (ts : List (String × Totals)). apply_totals ts accounts) (by_account-append us vs)
      ∙ cut-totals (by_account us) (by_account vs) accounts,
)
