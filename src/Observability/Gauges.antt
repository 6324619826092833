-- ===== src/Observability/Gauges.antt =====
-- app/observability/metrics.py: the gauges show what the workers have recorded.
use mathlib.Core.List.{Memᴰ}
use tenantflow_api.Prelude.{
  ℕ, ◌+◌, ◌≡◌, refl, ◌∙◌, ap, sym, subst, String, Bool, true, false, ◌&&◌, not, List, [], ◌∷◌,
  str_eq, str_eq_refl, str_eq→eq, arith, Bool-cases, inl, inr, if◌then◌else◌, All, and_both,
}
use tenantflow_api.Observability.Metrics.{
  Labels, same_labels, background_labels, Hash, field_or_zero, hincrby, Counters, background_field,
  record_background_job, Gauges, set_background, refresh_distributed_metrics,
}

-- a job that ended: whether Redis answered, and the labels
abbrev pub Recorded : Type 0
Recorded = Bool × Labels

unfoldable pub record_all : List Recorded → Counters → Counters
unfolding record_background_job
record_all [] c = c
record_all ((answers, labels) ∷ rest) c = record_all rest (record_background_job answers labels c)

-- how many of the jobs have the labels and reached Redis
unfoldable pub occurrences : Labels → List Recorded → ℕ
occurrences l [] = 0
occurrences l ((answers, k) ∷ rest) =
    let later = occurrences l rest in if answers && same_labels k l then later + 1 else later

apart : false ≡ true → ⊥
apart h = cc

field-hincrby :
    (k j : String) (h : Hash)
    → field_or_zero k (hincrby j h)
      ≡ (if str_eq j k then field_or_zero k h + 1 else field_or_zero k h)
unfolding field_or_zero hincrby
field-hincrby k j [] = ground arith
field-hincrby k j ((i, n) ∷ rest) =
    let q = field-hincrby k j rest in
    elim (Bool-cases (str_eq i j)) [
      | inl e ↦
          let same : str_eq j k ≡ str_eq i k = ap (λ x. str_eq x k) (sym (str_eq→eq i j e)) in
          elim (Bool-cases (str_eq i k)) [
            | inl f ↦ rw e (rw same (rw f refl))
            | inr f ↦ rw e (rw same (rw f refl))
          ]
      | inr e ↦ elim (Bool-cases (str_eq i k)) [
        | inl f ↦ elim (Bool-cases (str_eq j k)) [
          | inl g ↦ absurd (apart (sym e ∙ ap (str_eq i) (str_eq→eq j k g) ∙ f))
          | inr g ↦ rw e (rw f (rw g refl))
        ]
        | inr f ↦ rw e (rw f q)
      ]
    ]

same_labels_refl : (l : Labels) → same_labels l l ≡ true
same_labels_refl (j, o) = rw (str_eq_refl j) (str_eq_refl o)

same_labels→eq : (k l : Labels) → same_labels k l ≡ true → k ≡ l
same_labels→eq (j, o) (i, u) h =
    let k = and_both (str_eq j i) (str_eq o u) h in
    ap (λ x. (x, o)) (str_eq→eq j i k.0) ∙ ap (λ y. (i, y)) (str_eq→eq o u k.1)

-- labels are the same exactly if they write the same field
abbrev agree : Labels → Labels → Bool
agree a b =
    if same_labels a b
    then str_eq (background_field a) (background_field b)
    else not (str_eq (background_field a) (background_field b))

abbrev agree_with : List Labels → Labels → Bool
agree_with [] b = true
agree_with (a ∷ others) b = agree a b && agree_with others b

abbrev all_agree : List Labels → List Labels → Bool
all_agree others [] = true
all_agree others (b ∷ bs) = agree_with others b && all_agree others bs

agree_with-Mem :
    (a b : Labels) (others : List Labels)
    → Memᴰ a others
    → agree_with others b ≡ true
    → agree a b ≡ true
agree_with-Mem a b [] m h = elim m [ ]
agree_with-Mem a b (c ∷ cs) (Memᴰ.head e) h =
    subst (λ x. agree x b ≡ true) (sym e) (and_both (agree c b) (agree_with cs b) h).0
agree_with-Mem a b (c ∷ cs) (Memᴰ.tail m) h =
    agree_with-Mem a b cs m (and_both (agree c b) (agree_with cs b) h).1

all_agree-Mem :
    (a b : Labels) (others bs : List Labels)
    → Memᴰ a others
    → Memᴰ b bs
    → all_agree others bs ≡ true
    → agree a b ≡ true
all_agree-Mem a b others [] m k h = elim k [ ]
all_agree-Mem a b others (c ∷ cs) m (Memᴰ.head e) h = agree_with-Mem a b others m (
    subst (λ x. agree_with others x ≡ true) (sym e)
      (and_both (agree_with others c) (all_agree others cs) h).0)
all_agree-Mem a b others (c ∷ cs) m (Memᴰ.tail k) h =
    all_agree-Mem a b others cs m k (and_both (agree_with others c) (all_agree others cs) h).1

same_field :
    (a b : Labels)
    → Memᴰ a background_labels
    → Memᴰ b background_labels
    → str_eq (background_field a) (background_field b) ≡ same_labels a b
same_field a b m k =
    let h = all_agree-Mem a b background_labels background_labels m k refl in
    elim (Bool-cases (same_labels a b)) [
      | inl e ↦ rw e (rw e at h)
      | inr e ↦ rw e (let q = rw e at h in ground arith)
    ]

-- the field of the labels counts the jobs that ended with them
recorded_lem :
    (l : Labels) (jobs : List Recorded) (c : Counters)
    → Memᴰ l background_labels
    → All (λ (r : Recorded). Memᴰ r.1 background_labels) jobs
    → field_or_zero (background_field l) (record_all jobs c).background
      ≡ field_or_zero (background_field l) c.background + occurrences l jobs
unfolding record_all occurrences record_background_job
recorded_lem l [] c m h = omega arith
recorded_lem l ((false, k) ∷ jobs) c m h = recorded_lem l jobs c m h.1
recorded_lem l ((true, k) ∷ jobs) c m h =
    let rest =
      recorded_lem l jobs (record c { background = hincrby (background_field k) c.background }) m
        h.1 in
    let one = field-hincrby (background_field l) (background_field k) c.background in
    let same = same_field k l h.0 m in
    elim (Bool-cases (same_labels k l)) [
      | inl e ↦ rw e (let r = rw (same ∙ e) at one in omega (arith, rest, r))
      | inr e ↦ rw e (let r = rw (same ∙ e) at one in omega (arith, rest, r))
    ]

-- a gauge that is set shows its field
set_lem :
    (h : Hash) (l : Labels) (ls : List Labels) (g : Labels → ℕ)
    → Memᴰ l ls
    → set_background h ls g l ≡ field_or_zero (background_field l) h
unfolding set_background
set_lem h l [] g m = elim m [ ]
set_lem h l (k ∷ ks) g (Memᴰ.head e) =
    subst (λ x. set_background h (x ∷ ks) g l ≡ field_or_zero (background_field l) h) e
      (rw (same_labels_refl l) refl)
set_lem h l (k ∷ ks) g (Memᴰ.tail m) = elim (Bool-cases (same_labels k l)) [
  | inl e ↦ rw e (ap (λ x. field_or_zero (background_field x) h) (same_labels→eq k l e))
  | inr e ↦ rw e (set_lem h l ks g m)
]

-- Whatever jobs ended before a scrape, each with labels that the scrape knows, and whether Redis
-- answered each of them or not, a scrape whose two reads are answered shows, for each pair of
-- labels, what the hash held before them and the number of those that ended with these labels and
-- reached Redis.
pub gauges_lem :
    (jobs : List Recorded) (c : Counters) (g : Gauges) (l : Labels)
    → Memᴰ l background_labels
    → All (λ (r : Recorded). Memᴰ r.1 background_labels) jobs
    → (refresh_distributed_metrics true true (record_all jobs c) g).background_job_outcomes l
      ≡ field_or_zero (background_field l) c.background + occurrences l jobs
unfolding refresh_distributed_metrics
gauges_lem jobs c g l m h =
    set_lem (record_all jobs c).background l background_labels g.background_job_outcomes m
    ∙ recorded_lem l jobs c m h
